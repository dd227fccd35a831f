-- ===== src/BoundedProcess/Deadline/Keeps.antt =====
-- Every event keeps the timer that ends the process.
use ceal_cli.Base.{
  ℕ, suc, ◌+◌, String, List, [], ◌∷◌, length, any, all, filter, get_elem?, remove_at, Option, none,
  some, Bool, true, false, ◌≡◌, arith, any-append, all-append, any-remove_at, all-remove_at,
  all-get_elem?, all-filter_keep, refl, ltb, if◌then◌else◌, inl, inr, Bool-cases,
}
use ceal_cli.BoundedProcess.{
  Options, Process, GroupProbe, Event, passes, fires, receives, fails, exits, closes, out_stream,
  err_stream, Stream, Task, timeout, marker_deadline, kill, report, drain, Timer, add_text,
  arm_on_marker, is_due, is_other_timer, arm_timeout, capture, fire, fire_timer, pass, on_error,
  on_exit, on_close, step, run, Signal, sigkill, signal_group, includes, after, settle, expire,
}
use ceal_cli.BoundedProcess.Deadline.Promise.{ends, has_come, IsOnTime, promised-le}

module _ (o : Options) (limit : ℕ) where
  after-IsOnTime :
      (d : ℕ) (k : Task) (s : Process) → IsOnTime o limit s → IsOnTime o limit (after d k s)
  unfolding after
  after-IsOnTime d k s h =
      let t : Timer = record { due = s.now + d; task = k } in
      ground (
        arith,
        any-append (ends o limit s.timed_out s.timeout_armed) s.timers (t ∷ []),
        all-append (has_come s.now) s.timers (t ∷ []),
      )

  -- A timer that is not the one that ends the process is taken off.
  remove-IsOnTime :
      (i : ℕ) (t : Timer) (s : Process)
      → get_elem? s.timers i ≡ some t
      → ends o limit s.timed_out s.timeout_armed t ≡ false
      → IsOnTime o limit s
      → IsOnTime o limit (record s { timers = remove_at i s.timers })
  remove-IsOnTime i t s at other h = ground (
    arith,
    any-remove_at (ends o limit s.timed_out s.timeout_armed) i s.timers t,
    all-remove_at (has_come s.now) i s.timers,
  )

  expire-IsOnTime :
      (i : ℕ) (t : Timer) (throws : Bool) (s : Process)
      → get_elem? s.timers i ≡ some t
      → (s.timed_out ≡ true → ends o limit s.timed_out s.timeout_armed t ≡ false)
      → IsOnTime o limit s
      → IsOnTime o limit (expire o throws (record s { timers = remove_at i s.timers }))
  unfolding expire
  expire-IsOnTime i t throws s at other h =
      let rest : List Timer = remove_at i s.timers in
      let next : Timer = record { due = s.now + o.termination_grace_ms; task = kill } in
      ground (
        arith,
        any-remove_at (ends o limit s.timed_out s.timeout_armed) i s.timers t,
        all-remove_at (has_come s.now) i s.timers,
        any-append (ends o limit true s.timeout_armed) rest (next ∷ []),
        all-append (has_come s.now) rest (next ∷ []),
        promised-le o limit s.now s.timed_out s.timeout_armed s.timers,
      )

  kill-IsOnTime :
      (i : ℕ) (t : Timer) (throws : Bool) (s : Process)
      → get_elem? s.timers i ≡ some t
      → t.task ≡ kill
      → is_due s.now t ≡ true
      → IsOnTime o limit s
      → IsOnTime o limit (fire o kill throws (record s { timers = remove_at i s.timers }))
  unfolding fire
  kill-IsOnTime i t throws s at k due h =
      let rest : List Timer = remove_at i s.timers in
      let next : Timer = record { due = s.now + o.post_kill_report_ms; task = report } in
      ground (
        arith,
        any-remove_at (ends o limit s.timed_out s.timeout_armed) i s.timers t,
        all-remove_at (has_come s.now) i s.timers,
        any-append (ends o limit s.timed_out s.timeout_armed) rest (next ∷ []),
        all-append (has_come s.now) rest (next ∷ []),
        all-get_elem? (has_come s.now) i s.timers t,
      )

  settle-IsOnTime :
      (code : Option ℕ) (signal : Option String) (s : Process)
      → all (has_come s.now) s.timers ≡ true
      → IsOnTime o limit (settle code signal s)
  unfolding settle
  settle-IsOnTime code signal s h = ground arith

  -- Once time is up, the marker's deadline and the phase of arming play no part.
  ends-filter :
      (a b : Bool) (ts : List Timer)
      → any (ends o limit true a) ts ≡ true
      → any (ends o limit true b) (filter is_other_timer ts) ≡ true
  ends-filter a b [] h = cc
  ends-filter a b (t ∷ ts) h = ground (arith, ends-filter a b ts)

  arm_timeout-IsOnTime : (s : Process) → IsOnTime o limit s → IsOnTime o limit (arm_timeout o s)
  unfolding arm_timeout
  arm_timeout-IsOnTime s h =
      let rest : List Timer = filter is_other_timer s.timers in
      let next : Timer = record { due = s.now + o.timeout_ms; task = timeout } in
      ground (
        arith,
        any-append (ends o limit s.timed_out true) rest (next ∷ []),
        all-append (has_come s.now) rest (next ∷ []),
        ends-filter s.timeout_armed true s.timers,
        all-filter_keep (has_come s.now) is_other_timer s.timers,
        promised-le o limit s.now s.timed_out s.timeout_armed s.timers,
      )

  fire-IsOnTime :
      (i : ℕ) (t : Timer) (k : Task) (throws : Bool) (s : Process)
      → get_elem? s.timers i ≡ some t
      → t.task ≡ k
      → is_due s.now t ≡ true
      → IsOnTime o limit s
      → IsOnTime o limit (fire o k throws (record s { timers = remove_at i s.timers }))
  unfolding fire
  fire-IsOnTime i t timeout throws s at k due h =
      expire-IsOnTime i t throws s at (λ (up : s.timed_out ≡ true). ground arith) h
  fire-IsOnTime i t marker_deadline throws s at k due h =
      expire-IsOnTime i t throws s at (λ (up : s.timed_out ≡ true). ground arith) h
  fire-IsOnTime i t kill throws s at k due h = kill-IsOnTime i t throws s at k due h
  fire-IsOnTime i t report throws s at k due h =
      settle-IsOnTime none s.exit_signal (record s { timers = remove_at i s.timers })
        (all-remove_at (has_come s.now) i s.timers h.urgent)
  fire-IsOnTime i t drain throws s at k due h =
      settle-IsOnTime s.exit_code s.exit_signal (record s { timers = remove_at i s.timers })
        (all-remove_at (has_come s.now) i s.timers h.urgent)

  fire_timer-IsOnTime :
      (i : ℕ) (m : Option Timer) (throws : Bool) (s : Process)
      → get_elem? s.timers i ≡ m
      → IsOnTime o limit s
      → IsOnTime o limit (fire_timer o i throws m s)
  unfolding fire_timer
  fire_timer-IsOnTime i none throws s at h = h
  fire_timer-IsOnTime i (some t) throws s at h = elim (Bool-cases (is_due s.now t)) [
    | inl due ↦ rw due (fire-IsOnTime i t t.task throws s at refl due h)
    | inr early ↦ rw early h
  ]

  not_due :
      (now : ℕ) (ts : List Timer)
      → any (is_due now) ts ≡ false
      → all (has_come now) ts ≡ true
      → all (has_come (suc now)) ts ≡ true
  not_due now [] none_due u = refl
  not_due now (t ∷ ts) none_due u = ground (arith, not_due now ts)

  pass-IsOnTime : (s : Process) → IsOnTime o limit s → IsOnTime o limit (pass s)
  unfolding pass
  pass-IsOnTime s h = ground (arith, not_due s.now s.timers)

  add_text-IsOnTime :
      (c : Stream) (text : List ℕ) (n : ℕ) (s : Process)
      → IsOnTime o limit s
      → IsOnTime o limit (add_text c text (record s { captured_bytes = n }))
  add_text-IsOnTime out_stream text n s h = ground arith
  add_text-IsOnTime err_stream text n s h = ground arith

  arm_on_marker-IsOnTime :
      (m : Option (List ℕ)) (c : Stream) (s : Process)
      → IsOnTime o limit s
      → IsOnTime o limit (arm_on_marker o m c s)
  arm_on_marker-IsOnTime none c s h = h
  arm_on_marker-IsOnTime (some m) err_stream s h = h
  arm_on_marker-IsOnTime (some m) out_stream s h = elim (Bool-cases (includes m s.stdout)) [
    | inl seen ↦ rw seen (arm_timeout-IsOnTime s h)
    | inr unseen ↦ rw unseen h
  ]

  signal-IsOnTime :
      (throws : Bool) (signal : Signal) (s : Process)
      → IsOnTime o limit s
      → IsOnTime o limit (signal_group throws signal (record s { truncated = true }))
  unfolding signal_group
  signal-IsOnTime throws signal s h = ground arith

  if-IsOnTime :
      (b : Bool) (s t : Process)
      → IsOnTime o limit s
      → IsOnTime o limit t
      → IsOnTime o limit (if b then s else t)
  if-IsOnTime true s t h k = h
  if-IsOnTime false s t h k = k

  capture-IsOnTime :
      (decode : List ℕ → List ℕ) (c : Stream) (bytes : List ℕ) (throws : Bool) (s : Process)
      → IsOnTime o limit s
      → IsOnTime o limit (capture decode o c bytes throws s)
  unfolding capture
  capture-IsOnTime decode c bytes throws s h =
      let n : ℕ = s.captured_bytes + length bytes in
      let t : Process = add_text c (decode bytes) (record s { captured_bytes = n }) in
      let u : Process = arm_on_marker o o.timeout_start_marker c t in
      let kept : IsOnTime o limit u =
        arm_on_marker-IsOnTime o.timeout_start_marker c t
          (add_text-IsOnTime c (decode bytes) n s h) in
      let v : Process = signal_group throws sigkill (record s { truncated = true }) in
      let same : IsOnTime o limit v = signal-IsOnTime throws sigkill s h in
      let cut : IsOnTime o limit (after o.post_kill_report_ms report v) =
        after-IsOnTime o.post_kill_report_ms report v same in
      let full : Bool = ltb o.max_captured_output_bytes n in
      if-IsOnTime s.truncated s (if full then after o.post_kill_report_ms report v else u) h
        (if-IsOnTime full (after o.post_kill_report_ms report v) u cut kept)

  on_exit-IsOnTime :
      (code : Option ℕ) (signal : Option String) (probe : GroupProbe) (s : Process)
      → IsOnTime o limit s
      → IsOnTime o limit (on_exit o code signal probe s)
  unfolding on_exit
  on_exit-IsOnTime code signal probe s h =
      let t : Process = record s { exit_code = code; exit_signal = signal } in
      let same : IsOnTime o limit t = ground arith in
      ground (arith, settle-IsOnTime code signal t, after-IsOnTime o.post_exit_drain_ms drain t)

  pub step-IsOnTime :
      (decode : List ℕ → List ℕ) (e : Event) (s : Process)
      → IsOnTime o limit s
      → IsOnTime o limit (step decode o e s)
  unfolding step on_error on_close
  step-IsOnTime decode passes s h = pass-IsOnTime s h
  step-IsOnTime decode (fires i throws) s h =
      fire_timer-IsOnTime i (get_elem? s.timers i) throws s refl h
  step-IsOnTime decode (receives c bytes throws) s h = capture-IsOnTime decode c bytes throws s h
  step-IsOnTime decode (fails message) s h = ground arith
  step-IsOnTime decode (exits code signal probe) s h = on_exit-IsOnTime code signal probe s h
  step-IsOnTime decode (closes code signal probe) s h = ground arith

  pub run-IsOnTime :
      (decode : List ℕ → List ℕ) (es : List Event) (s : Process)
      → IsOnTime o limit s
      → IsOnTime o limit (run decode o es s)
  unfolding run
  run-IsOnTime decode [] s h = h
  run-IsOnTime decode (e ∷ es) s h =
      run-IsOnTime decode es (step decode o e s) (step-IsOnTime decode e s h)
