-- ===== src/BoundedProcess/Deadline/Settles.antt =====
-- runBoundedProcess comes to its end.
use ceal_cli.Base.{
  ℕ, zero, suc, ◌≤◌, ◌<◌, ◌+◌, ◌-◌, List, [], ◌∷◌, ◌++◌, any, Option, none, some, true, false, ◌≡◌,
  refl, sym, subst, arith, inl, inr, Bool-cases, get_elem?, remove_at, if◌then◌else◌,
}
use ceal_cli.BoundedProcess.{
  Options, Process, Event, passes, fires, Task, timeout, marker_deadline, kill, report, drain,
  Timer, start, spawned, begin, after, arm_timeout, run, step, drive, next_event, first_due, is_due,
  pass, fire_timer, fire, next_index,
}
use ceal_cli.BoundedProcess.Deadline.Promise.{IsOnTime, promised-le, latest, limit_of}
use ceal_cli.BoundedProcess.Deadline.Keeps.{run-IsOnTime, step-IsOnTime}

begin-IsOnTime :
    (o : Options) (m : Option (List ℕ)) (pid : Option ℕ)
    → IsOnTime o (latest o m) (begin o m (spawned pid))
unfolding arm_timeout after
begin-IsOnTime o none pid = ground arith
begin-IsOnTime o (some m) pid = ground arith

pub start-IsOnTime : (o : Options) (pid : Option ℕ) → IsOnTime o (limit_of o) (start o pid)
unfolding start
start-IsOnTime o pid = begin-IsOnTime o o.timeout_start_marker pid

on_time-le :
    (o : Options) (limit : ℕ) (s : Process) → IsOnTime o limit s → s.settled ≡ false → s.now ≤ limit
on_time-le o limit s h open_still =
    ground (arith, promised-le o limit s.now s.timed_out s.timeout_armed s.timers)

-- Whatever the child does, it is settled once the clock has passed the bound.
pub settled_by_deadline :
    (decode : List ℕ → List ℕ) (o : Options) (pid : Option ℕ) (es : List Event)
    → let s = run decode o es (start o pid) in limit_of o < s.now → s.settled ≡ true
settled_by_deadline decode o pid es late =
    let s : Process = run decode o es (start o pid) in
    let h : IsOnTime o (limit_of o) s =
      run-IsOnTime o (limit_of o) decode es (start o pid) (start-IsOnTime o pid) in
    elim (Bool-cases s.settled) [
      | inl e ↦ e
      | inr e ↦
          let early : s.now ≤ limit_of o = on_time-le o (limit_of o) s h e in absurd (omega arith)
    ]

-- How many timers a timer may still give rise to, itself included.
abbrev pub weight_of : Task → ℕ
weight_of timeout = 3
weight_of marker_deadline = 3
weight_of kill = 2
weight_of report = 1
weight_of drain = 1

abbrev pub weight : List Timer → ℕ
weight [] = 0
weight (t ∷ ts) = weight_of t.task + weight ts

weight-append : (ts us : List Timer) → weight (ts ++ us) ≡ weight ts + weight us
weight-append [] us = omega arith
weight-append (t ∷ ts) us = omega (arith, weight-append ts us)

weight-remove_at :
    (i : ℕ) (ts : List Timer) (t : Timer)
    → get_elem? ts i ≡ some t
    → weight ts ≡ weight_of t.task + weight (remove_at i ts)
weight-remove_at i [] t h = cc
weight-remove_at zero (u ∷ us) t h = ground arith
weight-remove_at (suc i) (u ∷ us) t h = ground (arith, weight-remove_at i us t)

-- A timer that fires leaves less than it was.
weight-fire :
    (o : Options) (k : Task) (s : Process)
    → weight (fire o k false s).timers < weight_of k + weight s.timers
unfolding fire
weight-fire o timeout s = ground (
  arith,
  weight-append s.timers (record { due = s.now + o.termination_grace_ms; task = kill } ∷ []),
)
weight-fire o marker_deadline s = ground (
  arith,
  weight-append s.timers (record { due = s.now + o.termination_grace_ms; task = kill } ∷ []),
)
weight-fire o kill s = ground (
  arith,
  weight-append s.timers (record { due = s.now + o.post_kill_report_ms; task = report } ∷ []),
)
weight-fire o report s = ground arith
weight-fire o drain s = ground arith

now-fire : (o : Options) (k : Task) (s : Process) → (fire o k false s).now ≡ s.now
unfolding fire
now-fire o timeout s = ground arith
now-fire o marker_deadline s = ground arith
now-fire o kill s = ground arith
now-fire o report s = ground arith
now-fire o drain s = ground arith

-- What the event loop finds: no timer that is due, or the first of them.
data Found (now : ℕ) (ts : List Timer) : Option ℕ → Type 0 where
  nothing : any (is_due now) ts ≡ false → Found now ts none
  found :
      (i : ℕ) (t : Timer) → get_elem? ts i ≡ some t → is_due now t ≡ true → Found now ts (some i)

first_due-Found : (now : ℕ) (ts : List Timer) → Found now ts (first_due now ts)
first_due-Found now [] = nothing refl
first_due-Found now (t ∷ ts) = elim (Bool-cases (is_due now t)) [
  | inl e ↦ rw e (found 0 t refl e)
  | inr e ↦ rw e (later (first_due-Found now ts) e)
]
  where
    later :
        {m : Option ℕ} → Found now ts m → is_due now t ≡ false → Found now (t ∷ ts) (next_index m)
    later (nothing n) e = nothing (ground arith)
    later (found i u at due) e = found (suc i) u at due

-- The time that is left, and the timers that may fire in it.
abbrev pub measure : ℕ → Process → ℕ
measure limit s = (suc limit - s.now) + weight s.timers

if_settled : (s t : Process) → s.settled ≡ true → (if s.settled then s else t) ≡ s
if_settled s t h = ground arith

if_open : (s t : Process) → s.settled ≡ false → (if s.settled then s else t) ≡ t
if_open s t h = ground arith

module _ (decode : List ℕ → List ℕ) (o : Options) where
  step-measure :
      (limit : ℕ) (s : Process) (m : Option ℕ)
      → Found s.now s.timers m
      → s.now ≤ limit
      → measure limit (step decode o (elim m [ none ↦ passes | some i ↦ fires i false ]) s)
        < measure limit s
  unfolding step pass fire_timer
  step-measure limit s none (nothing n) early = ground arith
  step-measure limit s (some i) (found _ t at due) early =
      let u : Process = record s { timers = remove_at i s.timers } in
      ground (arith, weight-fire o t.task u, now-fire o t.task u, weight-remove_at i s.timers t)

  drive-done : (fuel : ℕ) (s : Process) → s.settled ≡ true → (drive decode o fuel s).settled ≡ true
  unfolding drive
  drive-done zero s h = h
  drive-done (suc fuel) s h =
      subst (λ (x : Process). (drive decode o fuel x).settled ≡ true)
        (sym (if_settled s (step decode o (next_event s) s) h)) (drive-done fuel s h)

  drive-settled :
      (limit fuel : ℕ) (s : Process)
      → IsOnTime o limit s
      → measure limit s ≤ fuel
      → (drive decode o fuel s).settled ≡ true
  unfolding drive
  drive-settled limit zero s h enough = elim (Bool-cases s.settled) [
    | inl e ↦ e
    | inr e ↦ let early : s.now ≤ limit = on_time-le o limit s h e in absurd (omega arith)
  ]
  drive-settled limit (suc fuel) s h enough =
      let t : Process = step decode o (next_event s) s in
      let kept : IsOnTime o limit t = step-IsOnTime o limit decode (next_event s) s h in
      let Ends : Process → Type 0 = (λ x. (drive decode o fuel x).settled ≡ true) in
      elim (Bool-cases s.settled) [
        | inl e ↦ subst Ends (sym (if_settled s t e)) (drive-done fuel s e)
        | inr e ↦
            let less : measure limit t < measure limit s =
              step-measure limit s (first_due s.now s.timers) (first_due-Found s.now s.timers)
                (on_time-le o limit s h e) in
            subst Ends (sym (if_open s t e)) (drive-settled limit fuel t kept (omega arith))
      ]

-- From whatever state the child's events have left, with nothing more from the child, the timers
-- settle it: the event loop needs no more turns than the milliseconds left and the timers' weight.
pub drive_settles :
    (decode : List ℕ → List ℕ) (o : Options) (pid : Option ℕ) (es : List Event) (fuel : ℕ)
    → let s = run decode o es (start o pid) in
      measure (limit_of o) s ≤ fuel → (drive decode o fuel s).settled ≡ true
drive_settles decode o pid es fuel enough =
    drive-settled decode o (limit_of o) fuel (run decode o es (start o pid))
      (run-IsOnTime o (limit_of o) decode es (start o pid) (start-IsOnTime o pid)) enough
