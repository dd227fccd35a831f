-- ===== src/BoundedProcess/Once.antt =====
-- The promise of runBoundedProcess: when it is resolved, and how often.
use ceal_cli.Base.{
  ℕ, ◌≤◌, ◌+◌, remove_at, List, [], ◌∷◌, length, get_elem?, Option, none, some, Bool, true, ◌≡◌,
  ◌≢◌, refl, inl, inr, Bool-cases, arith, if◌then◌else◌,
}
use ceal_cli.BoundedProcess.{
  Options, Process, ProcessResult, Event, passes, fires, receives, fails, exits, closes, out_stream,
  err_stream, Stream, Task, timeout, marker_deadline, kill, report, drain, Timer, add_text,
  arm_on_marker, arm_timeout, capture, fire, fire_timer, pass, on_error, on_exit, on_close, step,
  run, start, begin, spawned, after,
}

-- As many results as the flag says.
abbrev pub IsOnce : Process → Type 0
IsOnce s = length s.resolved ≡ (if s.settled then 1 else 0)

-- A settled process stays as it was resolved.
pub record Continues (s t : Process) : Type 0 where
  pub counted : IsOnce s → IsOnce t
  pub stays : s.settled ≡ true → t.settled ≡ true
  pub same : s.settled ≡ true → t.resolved ≡ s.resolved

fire-Continues :
    (o : Options) (k : Task) (throws : Bool) (s : Process) → Continues s (fire o k throws s)
unfolding fire
fire-Continues o timeout throws s = ground arith
fire-Continues o marker_deadline throws s = ground arith
fire-Continues o kill throws s = ground arith
fire-Continues o report throws s = ground arith
fire-Continues o drain throws s = ground arith

fire_timer-Continues :
    (o : Options) (i : ℕ) (throws : Bool) (t : Option Timer) (s : Process)
    → Continues s (fire_timer o i throws t s)
unfolding fire_timer
fire_timer-Continues o i throws none s = ground arith
fire_timer-Continues o i throws (some t) s =
    ground (arith, fire-Continues o t.task throws (record s { timers = remove_at i s.timers }))

arm_timeout-Continues : (o : Options) (s : Process) → Continues s (arm_timeout o s)
unfolding arm_timeout
arm_timeout-Continues o s = ground arith

arm_on_marker-Continues :
    (o : Options) (m : Option (List ℕ)) (c : Stream) (s : Process)
    → Continues s (arm_on_marker o m c s)
arm_on_marker-Continues o none c s = ground arith
arm_on_marker-Continues o (some m) out_stream s = ground (arith, arm_timeout-Continues o s)
arm_on_marker-Continues o (some m) err_stream s = ground arith

add_text-Continues :
    (c : Stream) (text : List ℕ) (n : ℕ) (s : Process)
    → Continues s (add_text c text (record s { captured_bytes = n }))
add_text-Continues out_stream text n s = ground arith
add_text-Continues err_stream text n s = ground arith

Continues-trans : (s t u : Process) → Continues s t → Continues t u → Continues s u
Continues-trans s t u h k = ground arith

module _ (decode : List ℕ → List ℕ) (o : Options) where
  capture-Continues :
      (c : Stream) (bytes : List ℕ) (throws : Bool) (s : Process)
      → Continues s (capture decode o c bytes throws s)
  unfolding capture
  capture-Continues c bytes throws s =
      let n : ℕ = s.captured_bytes + length bytes in
      let t : Process = add_text c (decode bytes) (record s { captured_bytes = n }) in
      let u : Process = arm_on_marker o o.timeout_start_marker c t in
      let h : Continues s u =
        Continues-trans s t u (add_text-Continues c (decode bytes) n s)
          (arm_on_marker-Continues o o.timeout_start_marker c t) in
      ground arith

  step-Continues : (e : Event) (s : Process) → Continues s (step decode o e s)
  unfolding step pass on_error on_exit on_close
  step-Continues passes s = ground arith
  step-Continues (fires i throws) s = fire_timer-Continues o i throws (get_elem? s.timers i) s
  step-Continues (receives c bytes throws) s = capture-Continues c bytes throws s
  step-Continues (fails message) s = ground arith
  step-Continues (exits code signal probe) s = ground arith
  step-Continues (closes code signal probe) s = ground arith

  pub run-Continues : (es : List Event) (s : Process) → Continues s (run decode o es s)
  unfolding run
  run-Continues [] s = ground arith
  run-Continues (e ∷ es) s =
      let t : Process = step decode o e s in
      Continues-trans s t (run decode o es t) (step-Continues e s) (run-Continues es t)

begin-IsOnce :
    (o : Options) (m : Option (List ℕ)) (pid : Option ℕ) → IsOnce (begin o m (spawned pid))
unfolding arm_timeout after
begin-IsOnce o none pid = refl
begin-IsOnce o (some m) pid = refl

start-IsOnce : (o : Options) (pid : Option ℕ) → IsOnce (start o pid)
unfolding start
start-IsOnce o pid = begin-IsOnce o o.timeout_start_marker pid

empty_of_length : (rs : List ProcessResult) → length rs ≡ 0 → rs ≡ []
empty_of_length [] h = refl
empty_of_length (r ∷ rs) h = absurd (omega arith)

settled_of : (s : Process) → IsOnce s → s.resolved ≢ [] → s.settled ≡ true
settled_of s once h = elim (Bool-cases s.settled) [
  | inl e ↦ e
  | inr e ↦ absurd (h (empty_of_length s.resolved (ground arith)))
]

-- The promise is resolved at most once, and no event after that changes the result.
pub resolves_once :
    (decode : List ℕ → List ℕ) (o : Options) (pid : Option ℕ) (es fs : List Event)
    → let s = run decode o es (start o pid) in
      let t = run decode o fs s in
      (length t.resolved ≤ 1) × (s.resolved ≢ [] → t.resolved ≡ s.resolved)
resolves_once decode o pid es fs =
    let s : Process = run decode o es (start o pid) in
    let t : Process = run decode o fs s in
    let first : Continues (start o pid) s = run-Continues decode o es (start o pid) in
    let later : Continues s t = run-Continues decode o fs s in
    let once : IsOnce (start o pid) = start-IsOnce o pid in
    let counted : IsOnce s = first.counted once in
    let counted_later : IsOnce t = later.counted counted in
    (ground arith, λ h. later.same (settled_of s counted h))
