-- ===== src/Tests/Processes.antt =====
-- Concrete runs of a bounded process.
use ceal_cli.Base.{ℕ, ◌≤◌, List, [], ◌∷◌, length, none, some, true, false, ◌≡◌, ◌≢◌, refl, arith}
use ceal_cli.BoundedProcess.{
  Options, Process, Event, passes, fires, receives, exits, out_stream, err_stream, answers, run,
  spawned, start, drive, step, pass, fire_timer, fire, capture, on_exit, to_group, sigterm,
}
use ceal_cli.BoundedProcess.Once.{resolves_once}
use ceal_cli.BoundedProcess.Captured.{captures_all_or_cuts, IsCapture}
use ceal_cli.BoundedProcess.Deadline.Settles.{settled_by_deadline, drive_settles}
use ceal_cli.BoundedProcess.Escalation.{timeout_kills, killed}

abbrev options : Options
options = record {
  timeout_ms = 2;
  termination_grace_ms = 3;
  post_kill_report_ms = 1;
  post_exit_drain_ms = 2;
  max_captured_output_bytes = 4;
  timeout_start_marker = none;
  timeout_start_deadline_ms = none;
}

abbrev same_bytes : List ℕ → List ℕ
same_bytes bytes = bytes

-- The deadline comes, then the grace, then the report.
abbrev expiring : List Event
expiring =
    passes
    ∷ passes
    ∷ fires 0 false
    ∷ passes
    ∷ passes
    ∷ passes
    ∷ fires 0 false
    ∷ passes
    ∷ fires 0 false
    ∷ passes
    ∷ []

abbrev talking : List Event
talking = receives out_stream (1 ∷ 2 ∷ []) false ∷ receives err_stream (3 ∷ []) false ∷ []

resolves_once_example :
    let s = run same_bytes options expiring (start options (some 7)) in
    let t = run same_bytes options talking s in
    (length t.resolved ≤ 1) × (s.resolved ≢ [] → t.resolved ≡ s.resolved)
resolves_once_example = resolves_once same_bytes options (some 7) expiring talking

captures_all_or_cuts_example :
    IsCapture same_bytes options talking
      (spawned (some 7))
      (run same_bytes options talking (start options (some 7)))
captures_all_or_cuts_example = captures_all_or_cuts same_bytes options (some 7) talking

settled_by_deadline_example :
    (run same_bytes options expiring (start options (some 7))).settled ≡ true
unfolding run step start pass fire_timer fire capture on_exit
settled_by_deadline_example = settled_by_deadline same_bytes options (some 7) expiring (omega arith)

drive_settles_example :
    (drive same_bytes options 12 (run same_bytes options talking (start options (some 7)))).settled
    ≡ true
unfolding run step start pass fire_timer fire capture on_exit
drive_settles_example = drive_settles same_bytes options (some 7) talking 12 (omega arith)

timeout_kills_example : killed (run same_bytes options expiring (start options (some 7))) ≡ true
unfolding run step start pass fire_timer fire capture on_exit
timeout_kills_example =
    timeout_kills same_bytes options 7 expiring
      (tt, (tt, (tt, (tt, (tt, (tt, (tt, (tt, (tt, (tt, tt)))))))))) refl refl

-- The leader exits one millisecond before the timeout, and its group lives on: the timer that drains
-- the pipes settles the process after SIGTERM, and clears the timer that would send SIGKILL.
abbrev draining : Process
draining =
    run same_bytes options
      (passes ∷ exits (some 0) none answers ∷ passes ∷ fires 0 false ∷ passes ∷ fires 0 false ∷ [])
      (start options (some 7))

drained_before_kill :
    (draining.settled ≡ true)
    × (draining.timed_out ≡ true)
    × (draining.timers ≡ [])
    × (draining.signals ≡ (to_group, sigterm) ∷ [])
unfolding run step start pass fire_timer fire capture on_exit
drained_before_kill = (refl, refl, refl, refl)
