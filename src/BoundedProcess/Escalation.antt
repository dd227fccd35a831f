-- ===== src/BoundedProcess/Escalation.antt =====
-- What has happened to the process group when runBoundedProcess reports a timeout.
use ceal_cli.Base.{
  ℕ, ◌+◌, String, List, [], ◌∷◌, ◌++◌, length, any, filter, get_elem?, remove_at, Option, none,
  some, Bool, true, false, ◌≡◌, refl, ◌∙◌, arith, any-append, any-remove_at,
}
use ceal_cli.BoundedProcess.{
  Options, Process, answers, Event, passes, fires, receives, fails, exits, closes, out_stream,
  err_stream, Stream, Task, timeout, marker_deadline, kill, report, drain, Timer, add_text,
  arm_on_marker, is_other_timer, arm_timeout, capture, fire, fire_timer, pass, on_exit, on_close,
  step, run, start, begin, spawned, after, settle, expire, Signal, sigterm, sigkill, Target,
  signal_group, signals_of,
}

abbrev pub is_kill_signal : Target × Signal → Bool
is_kill_signal (_, sigterm) = false
is_kill_signal (_, sigkill) = true

abbrev pub killed : Process → Bool
killed s = any is_kill_signal s.signals

abbrev is_drain : Timer → Bool
is_drain t = elim t.task [ drain ↦ true | _ ↦ false ]

abbrev is_report : Timer → Bool
is_report t = elim t.task [ report ↦ true | _ ↦ false ]

-- Before the end no timer settles the process unless the group has been killed.
record IsEscorted (p : ℕ) (s : Process) : Type 0 where
  spawned_as : s.pid ≡ some p
  no_drain : s.settled ≡ false → any is_drain s.timers ≡ false
  no_report : s.settled ≡ false → killed s ≡ false → any is_report s.timers ≡ false
  ended : s.settled ≡ true → s.timed_out ≡ true → killed s ≡ true

-- An event of a child that was spawned, whose leader does not exit before the timeout, and whose
-- group answers each probe.
abbrev pub Lingers : Process → Event → Type 0
Lingers s (fails _) = ⊥
Lingers s (exits _ _ probe) = (s.timed_out ≡ true) × (probe ≡ answers)
Lingers s (closes _ _ probe) = probe ≡ answers
Lingers s _ = Unit {0}

module _ (decode : List ℕ → List ℕ) (o : Options) where
  abbrev pub AllLinger : List Event → Process → Type 0
  AllLinger [] s = Unit {0}
  AllLinger (e ∷ es) s = Lingers s e × AllLinger es (step decode o e s)

killed-signals :
    (p : ℕ) (throws : Bool) (signal : Signal) (l : List (Target × Signal))
    → any is_kill_signal l ≡ true
    → any is_kill_signal (signals_of (some p) throws signal ++ l) ≡ true
killed-signals p true sigterm l h = h
killed-signals p true sigkill l h = refl
killed-signals p false sigterm l h = h
killed-signals p false sigkill l h = refl

kills :
    (p : ℕ) (throws : Bool) (l : List (Target × Signal))
    → any is_kill_signal (signals_of (some p) throws sigkill ++ l) ≡ true
kills p true l = refl
kills p false l = refl

terms :
    (p : ℕ) (throws : Bool) (l : List (Target × Signal))
    → any is_kill_signal (signals_of (some p) throws sigterm ++ l) ≡ any is_kill_signal l
terms p true l = refl
terms p false l = refl

module _ (o : Options) (p : ℕ) where
  after-IsEscorted :
      (d : ℕ) (s : Process) → killed s ≡ true → IsEscorted p s → IsEscorted p (after d report s)
  unfolding after
  after-IsEscorted d s k h =
      let t : Timer = record { due = s.now + d; task = report } in
      ground (arith, any-append is_drain s.timers (t ∷ []))

  expire-IsEscorted :
      (throws : Bool) (s : Process) → IsEscorted p s → IsEscorted p (expire o throws s)
  unfolding expire
  expire-IsEscorted throws s h =
      let t : Timer = record { due = s.now + o.termination_grace_ms; task = kill } in
      let l : any is_kill_signal (signals_of s.pid throws sigterm ++ s.signals)
          ≡ any is_kill_signal s.signals =
        rw h.spawned_as (terms p throws s.signals) in
      ground (arith, any-append is_drain s.timers (t ∷ []), any-append is_report s.timers (t ∷ []))

  kill-IsEscorted :
      (d : ℕ) (throws : Bool) (s t : Process)
      → t.pid ≡ s.pid
      → t.timers ≡ s.timers
      → t.settled ≡ s.settled
      → t.signals ≡ s.signals
      → IsEscorted p s
      → IsEscorted p (after d report (signal_group throws sigkill t))
  unfolding after signal_group
  kill-IsEscorted d throws s t same_pid same_timers same_settled same_signals h =
      let n : Timer = record { due = t.now + d; task = report } in
      let named : t.pid ≡ some p = same_pid ∙ h.spawned_as in
      let l : any is_kill_signal (signals_of t.pid throws sigkill ++ t.signals) ≡ true =
        rw named (kills p throws t.signals) in
      ground (arith, any-append is_drain t.timers (n ∷ []))

  settle-IsEscorted :
      (code : Option ℕ) (signal : Option String) (s : Process)
      → (s.settled ≡ false → s.timed_out ≡ true → killed s ≡ true)
      → IsEscorted p s
      → IsEscorted p (settle code signal s)
  unfolding settle
  settle-IsEscorted code signal s over h = ground arith

  remove-IsEscorted :
      (i : ℕ) (t : Timer) (s : Process)
      → get_elem? s.timers i ≡ some t
      → IsEscorted p s
      → IsEscorted p (record s { timers = remove_at i s.timers })
  remove-IsEscorted i t s at h =
      ground (arith, any-remove_at is_drain i s.timers t, any-remove_at is_report i s.timers t)

  fire-IsEscorted :
      (i : ℕ) (t : Timer) (k : Task) (throws : Bool) (s : Process)
      → get_elem? s.timers i ≡ some t
      → t.task ≡ k
      → IsEscorted p s
      → IsEscorted p (fire o k throws (record s { timers = remove_at i s.timers }))
  unfolding fire
  fire-IsEscorted i t timeout throws s at k h =
      expire-IsEscorted throws (record s { timers = remove_at i s.timers })
        (remove-IsEscorted i t s at h)
  fire-IsEscorted i t marker_deadline throws s at k h =
      expire-IsEscorted throws (record s { timers = remove_at i s.timers })
        (remove-IsEscorted i t s at h)
  fire-IsEscorted i t kill throws s at k h =
      let u : Process = record s { timers = remove_at i s.timers } in
      kill-IsEscorted o.post_kill_report_ms throws u u refl refl refl refl
        (remove-IsEscorted i t s at h)
  fire-IsEscorted i t report throws s at k h =
      settle-IsEscorted none s.exit_signal (record s { timers = remove_at i s.timers })
        (λ (e : s.settled ≡ false) (up : s.timed_out ≡ true).
          ground (arith, any-remove_at is_report i s.timers t))
        (remove-IsEscorted i t s at h)
  fire-IsEscorted i t drain throws s at k h =
      settle-IsEscorted s.exit_code s.exit_signal (record s { timers = remove_at i s.timers })
        (λ (e : s.settled ≡ false) (up : s.timed_out ≡ true).
          ground (arith, any-remove_at is_drain i s.timers t))
        (remove-IsEscorted i t s at h)

  fire_timer-IsEscorted :
      (i : ℕ) (m : Option Timer) (throws : Bool) (s : Process)
      → get_elem? s.timers i ≡ m
      → IsEscorted p s
      → IsEscorted p (fire_timer o i throws m s)
  unfolding fire_timer
  fire_timer-IsEscorted i none throws s at h = h
  fire_timer-IsEscorted i (some t) throws s at h =
      ground (arith, fire-IsEscorted i t t.task throws s at refl h)

  any-filter-false :
      (q r : Timer → Bool) (ts : List Timer) → any q ts ≡ false → any q (filter r ts) ≡ false
  any-filter-false q r [] h = refl
  any-filter-false q r (t ∷ ts) h = ground (arith, any-filter-false q r ts)

  arm_timeout-IsEscorted : (s : Process) → IsEscorted p s → IsEscorted p (arm_timeout o s)
  unfolding arm_timeout
  arm_timeout-IsEscorted s h =
      let rest : List Timer = filter is_other_timer s.timers in
      let n : Timer = record { due = s.now + o.timeout_ms; task = timeout } in
      ground (
        arith,
        any-append is_drain rest (n ∷ []),
        any-append is_report rest (n ∷ []),
        any-filter-false is_drain is_other_timer s.timers,
        any-filter-false is_report is_other_timer s.timers,
      )

  arm_on_marker-IsEscorted :
      (m : Option (List ℕ)) (c : Stream) (s : Process)
      → IsEscorted p s
      → IsEscorted p (arm_on_marker o m c s)
  arm_on_marker-IsEscorted none c s h = h
  arm_on_marker-IsEscorted (some m) err_stream s h = h
  arm_on_marker-IsEscorted (some m) out_stream s h = ground (arith, arm_timeout-IsEscorted s h)

  add_text-IsEscorted :
      (c : Stream) (text : List ℕ) (n : ℕ) (s : Process)
      → IsEscorted p s
      → IsEscorted p (add_text c text (record s { captured_bytes = n }))
  add_text-IsEscorted out_stream text n s h = ground arith
  add_text-IsEscorted err_stream text n s h = ground arith

  capture-IsEscorted :
      (decode : List ℕ → List ℕ) (c : Stream) (bytes : List ℕ) (throws : Bool) (s : Process)
      → IsEscorted p s
      → IsEscorted p (capture decode o c bytes throws s)
  unfolding capture
  capture-IsEscorted decode c bytes throws s h =
      let n : ℕ = s.captured_bytes + length bytes in
      let t : Process = add_text c (decode bytes) (record s { captured_bytes = n }) in
      let kept : IsEscorted p (arm_on_marker o o.timeout_start_marker c t) =
        arm_on_marker-IsEscorted o.timeout_start_marker c t
          (add_text-IsEscorted c (decode bytes) n s h) in
      let cut : IsEscorted p (
          after o.post_kill_report_ms report
            (signal_group throws sigkill (record s { truncated = true }))) =
        kill-IsEscorted o.post_kill_report_ms throws s (record s { truncated = true }) refl refl
          refl refl h in
      ground arith

  step-IsEscorted :
      (decode : List ℕ → List ℕ) (e : Event) (s : Process)
      → Lingers s e
      → IsEscorted p s
      → IsEscorted p (step decode o e s)
  unfolding step pass on_exit on_close
  step-IsEscorted decode passes s l h = ground arith
  step-IsEscorted decode (fires i throws) s l h =
      fire_timer-IsEscorted i (get_elem? s.timers i) throws s refl h
  step-IsEscorted decode (receives c bytes throws) s l h =
      capture-IsEscorted decode c bytes throws s h
  step-IsEscorted decode (fails message) s l h = absurd l
  step-IsEscorted decode (exits code signal probe) s l h = ground arith
  step-IsEscorted decode (closes code signal probe) s l h = ground arith

  run-IsEscorted :
      (decode : List ℕ → List ℕ) (es : List Event) (s : Process)
      → AllLinger decode o es s
      → IsEscorted p s
      → IsEscorted p (run decode o es s)
  unfolding run
  run-IsEscorted decode [] s l h = h
  run-IsEscorted decode (e ∷ es) s l h =
      run-IsEscorted decode es (step decode o e s) l.1 (step-IsEscorted decode e s l.0 h)

  begin-IsEscorted : (m : Option (List ℕ)) → IsEscorted p (begin o m (spawned (some p)))
  unfolding arm_timeout after
  begin-IsEscorted none = ground arith
  begin-IsEscorted (some m) = ground arith

-- If the leader does not exit before the timeout and its group lives on, then a run that settles with
-- a timeout has sent SIGKILL.
pub timeout_kills :
    (decode : List ℕ → List ℕ) (o : Options) (p : ℕ) (es : List Event)
    → AllLinger decode o es (start o (some p))
    → let s = run decode o es (start o (some p)) in
      s.settled ≡ true → s.timed_out ≡ true → killed s ≡ true
unfolding start
timeout_kills decode o p es l ended up =
    (run-IsEscorted o p decode es (start o (some p)) l
        (begin-IsEscorted o p o.timeout_start_marker)).ended
      ended up
