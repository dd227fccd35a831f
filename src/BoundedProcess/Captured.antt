-- ===== src/BoundedProcess/Captured.antt =====
-- What runBoundedProcess captures of the two streams.
use ceal_cli.Base.{
  ℕ, ◌≤◌, ◌<◌, ◌+◌, remove_at, List, [], ◌∷◌, ◌++◌, length, get_elem?, Option, none, some, Bool,
  true, false, ◌≡◌, arith, append-nil, append_assoc, refl, sym, ap, ◌∙◌, false≢true, Bool-cases,
  inl, inr,
}
use ceal_cli.BoundedProcess.{
  Options, Process, Event, passes, fires, receives, fails, exits, closes, out_stream, err_stream,
  Stream, Task, timeout, marker_deadline, kill, report, drain, Timer, add_text, arm_on_marker,
  arm_timeout, capture, fire, fire_timer, pass, on_error, on_exit, on_close, step, run, start,
  begin, spawned, after,
}

-- An event's bytes, and its text on each stream.
abbrev pub size : Event → ℕ
size (receives _ bytes _) = length bytes
size _ = 0

module _ (decode : List ℕ → List ℕ) where
  abbrev pub out_text : Event → List ℕ
  out_text (receives out_stream bytes _) = decode bytes
  out_text _ = []

  abbrev pub err_text : Event → List ℕ
  err_text (receives err_stream bytes _) = decode bytes
  err_text _ = []

abbrev pub total : List Event → ℕ
total [] = 0
total (e ∷ es) = size e + total es

abbrev pub gather : (Event → List ℕ) → List Event → List ℕ
gather f [] = []
gather f (e ∷ es) = f e ++ gather f es

-- Nothing that is captured changes.
pub record Silent (s t : Process) : Type 0 where
  pub bytes : t.captured_bytes ≡ s.captured_bytes
  pub cut : t.truncated ≡ s.truncated
  pub out : t.stdout ≡ s.stdout
  pub err : t.stderr ≡ s.stderr

fire-Silent : (o : Options) (k : Task) (throws : Bool) (s : Process) → Silent s (fire o k throws s)
unfolding fire
fire-Silent o timeout throws s = ground arith
fire-Silent o marker_deadline throws s = ground arith
fire-Silent o kill throws s = ground arith
fire-Silent o report throws s = ground arith
fire-Silent o drain throws s = ground arith

fire_timer-Silent :
    (o : Options) (i : ℕ) (throws : Bool) (t : Option Timer) (s : Process)
    → Silent s (fire_timer o i throws t s)
unfolding fire_timer
fire_timer-Silent o i throws none s = ground arith
fire_timer-Silent o i throws (some t) s =
    ground (arith, fire-Silent o t.task throws (record s { timers = remove_at i s.timers }))

arm_on_marker-Silent :
    (o : Options) (m : Option (List ℕ)) (c : Stream) (s : Process)
    → Silent s (arm_on_marker o m c s)
unfolding arm_timeout
arm_on_marker-Silent o none c s = ground arith
arm_on_marker-Silent o (some m) out_stream s = ground arith
arm_on_marker-Silent o (some m) err_stream s = ground arith

-- What one event adds: to an output that is not cut, all of it, and nothing if it is cut then.
pub record Adds (o : Options) (n : ℕ) (out err : List ℕ) (s t : Process) : Type 0 where
  pub bounded :
      s.captured_bytes ≤ o.max_captured_output_bytes
      → t.captured_bytes ≤ o.max_captured_output_bytes
  pub was_whole : t.truncated ≡ false → s.truncated ≡ false
  pub bytes : t.truncated ≡ false → t.captured_bytes ≡ s.captured_bytes + n
  pub out_whole : t.truncated ≡ false → t.stdout ≡ s.stdout ++ out
  pub err_whole : t.truncated ≡ false → t.stderr ≡ s.stderr ++ err
  pub bytes_cut : t.truncated ≡ true → t.captured_bytes ≡ s.captured_bytes
  pub out_cut : t.truncated ≡ true → t.stdout ≡ s.stdout
  pub err_cut : t.truncated ≡ true → t.stderr ≡ s.stderr
  pub excess :
      t.truncated ≡ true → s.truncated ≡ false → o.max_captured_output_bytes < s.captured_bytes + n

Silent-Adds : (o : Options) (s t : Process) → Silent s t → Adds o 0 [] [] s t
Silent-Adds o s t h =
    let b : t.captured_bytes ≡ s.captured_bytes = h.bytes in
    let c : t.truncated ≡ s.truncated = h.cut in
    let out : t.stdout ≡ s.stdout = h.out in
    let err : t.stderr ≡ s.stderr = h.err in
    ground (arith, append-nil s.stdout, append-nil s.stderr)

module _ (decode : List ℕ → List ℕ) (o : Options) where
  capture-Adds :
      (c : Stream) (bytes : List ℕ) (throws : Bool) (s : Process)
      → let e = receives c bytes throws in
        Adds o
          (length bytes)
          (out_text decode e)
          (err_text decode e)
          s
          (capture decode o c bytes throws s)
  unfolding capture
  capture-Adds out_stream bytes throws s =
      let n : ℕ = s.captured_bytes + length bytes in
      let t : Process = add_text out_stream (decode bytes) (record s { captured_bytes = n }) in
      let quiet : Silent t (arm_on_marker o o.timeout_start_marker out_stream t) =
        arm_on_marker-Silent o o.timeout_start_marker out_stream t in
      ground (arith, append-nil s.stderr)
  capture-Adds err_stream bytes throws s =
      let n : ℕ = s.captured_bytes + length bytes in
      let t : Process = add_text err_stream (decode bytes) (record s { captured_bytes = n }) in
      let quiet : Silent t (arm_on_marker o o.timeout_start_marker err_stream t) =
        arm_on_marker-Silent o o.timeout_start_marker err_stream t in
      ground (arith, append-nil s.stdout)

  step-Adds :
      (e : Event) (s : Process)
      → Adds o (size e) (out_text decode e) (err_text decode e) s (step decode o e s)
  unfolding step pass on_error on_exit on_close
  step-Adds passes s = Silent-Adds o s (pass s) (ground arith)
  step-Adds (fires i throws) s =
      let t : Process = fire_timer o i throws (get_elem? s.timers i) s in
      Silent-Adds o s t (fire_timer-Silent o i throws (get_elem? s.timers i) s)
  step-Adds (receives c bytes throws) s = capture-Adds c bytes throws s
  step-Adds (fails message) s = Silent-Adds o s (on_error message s) (ground arith)
  step-Adds (exits code signal probe) s =
      Silent-Adds o s (on_exit o code signal probe s) (ground arith)
  step-Adds (closes code signal probe) s =
      Silent-Adds o s (on_close code signal probe s) (ground arith)

  -- What is cut stays as it is.
  run_cut : (es : List Event) (s : Process) → s.truncated ≡ true → Silent s (run decode o es s)
  unfolding run
  run_cut [] s h = ground arith
  run_cut (e ∷ es) s h =
      let t : Process = step decode o e s in
      let added : Adds o (size e) (out_text decode e) (err_text decode e) s t = step-Adds e s in
      let still : t.truncated ≡ true = elim (Bool-cases t.truncated) [
        | inl x ↦ x
        | inr x ↦ absurd (false≢true (sym (added.was_whole x) ∙ h))
      ] in
      let rest : Silent t (run decode o es t) = run_cut es t still in
      record {
        bytes = rest.bytes ∙ added.bytes_cut still;
        cut = rest.cut ∙ still ∙ sym h;
        out = rest.out ∙ added.out_cut still;
        err = rest.err ∙ added.err_cut still;
      }

  -- The events that are captured are the first ones, up to the one that exceeds the bound, if any.
  pub record IsCapture (es : List Event) (s t : Process) : Type 0 where
    pub kept : List Event
    pub dropped : List Event
    pub parts : es ≡ kept ++ dropped
    pub bytes : t.captured_bytes ≡ s.captured_bytes + total kept
    pub bounded : t.captured_bytes ≤ o.max_captured_output_bytes
    pub out : t.stdout ≡ s.stdout ++ gather (out_text decode) kept
    pub err : t.stderr ≡ s.stderr ++ gather (err_text decode) kept
    pub whole : t.truncated ≡ false → dropped ≡ []
    pub cut :
        t.truncated ≡ true
        → (e : Event) × (more : List Event) × (dropped ≡ e ∷ more)
          × (o.max_captured_output_bytes < t.captured_bytes + size e)

  cut-IsCapture :
      (e : Event) (es : List Event) (s : Process)
      → s.truncated ≡ false
      → s.captured_bytes ≤ o.max_captured_output_bytes
      → (step decode o e s).truncated ≡ true
      → IsCapture (e ∷ es) s (run decode o es (step decode o e s))
  cut-IsCapture e es s whole fits x =
      let t : Process = step decode o e s in
      let added : Adds o (size e) (out_text decode e) (err_text decode e) s t = step-Adds e s in
      let rest : Silent t (run decode o es t) = run_cut es t x in
      let same : (run decode o es t).captured_bytes ≡ s.captured_bytes =
        rest.bytes ∙ added.bytes_cut x in
      let over : o.max_captured_output_bytes < s.captured_bytes + size e = added.excess x whole in
      record {
        kept = [];
        dropped = e ∷ es;
        parts = refl;
        bytes = omega arith;
        bounded = omega arith;
        out = rest.out ∙ added.out_cut x ∙ sym (append-nil s.stdout);
        err = rest.err ∙ added.err_cut x ∙ sym (append-nil s.stderr);
        whole = λ h. absurd (false≢true (sym h ∙ rest.cut ∙ x));
        cut = λ h. (e, es, refl, omega arith);
      }

  run-IsCapture :
      (es : List Event) (s : Process)
      → s.truncated ≡ false
      → s.captured_bytes ≤ o.max_captured_output_bytes
      → IsCapture es s (run decode o es s)
  unfolding run
  run-IsCapture [] s whole fits = record {
    kept = [];
    dropped = [];
    parts = refl;
    bytes = omega arith;
    bounded = fits;
    out = sym (append-nil s.stdout);
    err = sym (append-nil s.stderr);
    whole = λ h. refl;
    cut = λ h. absurd (false≢true (sym whole ∙ h));
  }
  run-IsCapture (e ∷ es) s whole fits = elim (Bool-cases (step decode o e s).truncated) [
    | inl x ↦ cut-IsCapture e es s whole fits x
    | inr x ↦
        let t : Process = step decode o e s in
        let added : Adds o (size e) (out_text decode e) (err_text decode e) s t = step-Adds e s in
        let rest : IsCapture es t (run decode o es t) = run-IsCapture es t x (added.bounded fits) in
        let bytes : (run decode o es t).captured_bytes ≡ t.captured_bytes + total rest.kept =
          rest.bytes in
        let first : t.captured_bytes ≡ s.captured_bytes + size e = added.bytes x in
        record {
          kept = e ∷ rest.kept;
          dropped = rest.dropped;
          parts = ap (λ (l : List Event). e ∷ l) rest.parts;
          bytes = omega arith;
          bounded = rest.bounded;
          out =
              rest.out
              ∙ ap (λ (l : List ℕ). l ++ gather (out_text decode) rest.kept) (added.out_whole x)
              ∙ append_assoc s.stdout (out_text decode e) (gather (out_text decode) rest.kept);
          err =
              rest.err
              ∙ ap (λ (l : List ℕ). l ++ gather (err_text decode) rest.kept) (added.err_whole x)
              ∙ append_assoc s.stderr (err_text decode e) (gather (err_text decode) rest.kept);
          whole = rest.whole;
          cut = rest.cut;
        }
  ]

begin-Silent :
    (o : Options) (m : Option (List ℕ)) (pid : Option ℕ)
    → Silent (spawned pid) (begin o m (spawned pid))
unfolding arm_timeout after
begin-Silent o none pid = ground arith
begin-Silent o (some m) pid = ground arith

start-Silent : (o : Options) (pid : Option ℕ) → Silent (spawned pid) (start o pid)
unfolding start
start-Silent o pid = begin-Silent o o.timeout_start_marker pid

-- The two texts are exactly what the first events delivered, in order, decoded; these deliver no more
-- bytes than the bound. They are all the events if the output is not cut; if it is, the next event
-- exceeds the bound, and nothing of it or after it is captured.
pub captures_all_or_cuts :
    (decode : List ℕ → List ℕ) (o : Options) (pid : Option ℕ) (es : List Event)
    → IsCapture decode o es (spawned pid) (run decode o es (start o pid))
captures_all_or_cuts decode o pid es =
    let f : Silent (spawned pid) (start o pid) = start-Silent o pid in
    let bytes : (start o pid).captured_bytes ≡ 0 = f.bytes in
    let c : IsCapture decode o es (start o pid) (run decode o es (start o pid)) =
      run-IsCapture decode o es (start o pid) f.cut (omega arith) in
    let counted : (run decode o es (start o pid)).captured_bytes
        ≡ (start o pid).captured_bytes + total c.kept =
      c.bytes in
    record {
      kept = c.kept;
      dropped = c.dropped;
      parts = c.parts;
      bytes = omega arith;
      bounded = c.bounded;
      out = c.out ∙ ap (λ (l : List ℕ). l ++ gather (out_text decode) c.kept) f.out;
      err = c.err ∙ ap (λ (l : List ℕ). l ++ gather (err_text decode) c.kept) f.err;
      whole = c.whole;
      cut = c.cut;
    }
