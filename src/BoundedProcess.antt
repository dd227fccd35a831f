-- ===== src/BoundedProcess.antt =====
-- packages/ceal-worker-cli/src/bounded-process.ts: runBoundedProcess, a child process with bounded
-- time and output. The handlers that the source registers are functions on the variables that they
-- close over. Time is a count of milliseconds; a timer fires at a moment at which it is due, and the
-- clock does not pass a timer that is due and has not fired.
pub mod Once
pub mod Captured
pub mod Deadline
pub mod Escalation
use ceal_cli.Base.{
  ℕ, zero, suc, ◌+◌, String, List, [], ◌∷◌, ◌++◌, length, filter, any, Option, none, some, Bool,
  true, false, not, ◌||◌, leb, ltb, if◌then◌else◌, after_prefix, get_elem?, remove_at,
}

-- BoundedProcessOptions, without what `spawn` takes of it
pub record Options : Type 0 where
  pub timeout_ms : ℕ
  pub termination_grace_ms : ℕ
  pub post_kill_report_ms : ℕ
  pub post_exit_drain_ms : ℕ
  pub max_captured_output_bytes : ℕ
  -- the marker's code points
  pub timeout_start_marker : Option (List ℕ)
  pub timeout_start_deadline_ms : Option ℕ

-- BoundedProcessResult: texts are code points
pub record ProcessResult : Type 0 where
  pub code : Option ℕ
  pub signal : Option String
  pub spawn_error : Option String
  pub stdout : List ℕ
  pub stderr : List ℕ
  pub truncated : Bool
  pub timed_out : Bool

pub data Stream : Type 0 where
  out_stream err_stream : Stream

pub data Signal : Type 0 where
  sigterm sigkill : Signal

pub data Target : Type 0 where
  to_group to_child : Target

-- What a timer does when it fires.
pub data Task : Type 0 where
  timeout marker_deadline kill report drain : Task

pub record Timer : Type 0 where
  pub due : ℕ
  pub task : Task

-- What `process.kill(-pid, 0)` does.
pub data GroupProbe : Type 0 where
  answers eperm other_error : GroupProbe

-- The variables of runBoundedProcess, the clock, and what it has told the world.
pub record Process : Type 0 where
  pub now : ℕ
  pub pid : Option ℕ
  pub stdout : List ℕ
  pub stderr : List ℕ
  pub captured_bytes : ℕ
  pub truncated : Bool
  pub timed_out : Bool
  pub settled : Bool
  pub exit_code : Option ℕ
  pub exit_signal : Option String
  pub spawn_error : Option String
  pub timeout_armed : Bool
  -- the timers that are set, neither fired nor cleared
  pub timers : List Timer
  -- signals sent and calls of resolveResult, the latest first
  pub signals : List (Target × Signal)
  pub resolved : List ProcessResult

-- `throws` says whether `process.kill(-pid, signal)` throws at that moment.
pub data Event : Type 0 where
  passes : Event
  fires : (index : ℕ) (throws : Bool) → Event
  receives : (stream : Stream) (bytes : List ℕ) (throws : Bool) → Event
  fails : (message : String) → Event
  exits : (code : Option ℕ) (signal : Option String) (probe : GroupProbe) → Event
  closes : (code : Option ℕ) (signal : Option String) (probe : GroupProbe) → Event

-- processGroupAlive
unfoldable pub process_group_alive : Option ℕ → GroupProbe → Bool
process_group_alive none _ = false
process_group_alive (some _) answers = true
process_group_alive (some _) eperm = true
process_group_alive (some _) other_error = false

-- signalGroup: the group, or the child alone where that throws
abbrev pub signals_of : Option ℕ → Bool → Signal → List (Target × Signal)
signals_of none throws signal = []
signals_of (some _) true signal = (to_child, signal) ∷ []
signals_of (some _) false signal = (to_group, signal) ∷ []

unfoldable pub signal_group : Bool → Signal → Process → Process
signal_group throws signal s = record s { signals = signals_of s.pid throws signal ++ s.signals }

abbrev pub result_of : Option ℕ → Option String → Process → ProcessResult
result_of code signal s = record {
  code = code;
  signal = signal;
  spawn_error = s.spawn_error;
  stdout = s.stdout;
  stderr = s.stderr;
  truncated = s.truncated;
  timed_out = s.timed_out;
}

-- settle
unfoldable pub settle : Option ℕ → Option String → Process → Process
settle code signal s =
    if s.settled
    then s
    else record s { settled = true; timers = []; resolved = result_of code signal s ∷ s.resolved }

-- after
unfoldable pub after : ℕ → Task → Process → Process
after delay task s = record s {
  timers = s.timers ++ record { due = s.now + delay; task = task } ∷ [];
}

module _ (o : Options) where
  -- expire
  unfoldable pub expire : Bool → Process → Process
  unfolding signal_group after
  expire throws s =
      if s.settled || s.timed_out
      then s
      else after o.termination_grace_ms kill
          (signal_group throws sigterm (record s { timed_out = true }))

abbrev pub is_marker_deadline : Task → Bool
is_marker_deadline marker_deadline = true
is_marker_deadline _ = false

abbrev pub is_other_timer : Timer → Bool
is_other_timer t = not (is_marker_deadline t.task)

-- stdout.includes(marker)
abbrev pub starts_with : List ℕ → List ℕ → Bool
starts_with marker text = elim (after_prefix marker text) [ none ↦ false | some _ ↦ true ]

abbrev pub includes : List ℕ → List ℕ → Bool
includes marker [] = starts_with marker []
includes marker (c ∷ cs) = starts_with marker (c ∷ cs) || includes marker cs

abbrev pub get_or : Option ℕ → ℕ → ℕ
get_or none d = d
get_or (some n) d = n

module _ (o : Options) where
  -- armTimeout
  unfoldable pub arm_timeout : Process → Process
  unfolding after
  arm_timeout s =
      if s.timeout_armed
      then s
      else after o.timeout_ms timeout
          (record s { timeout_armed = true; timers = filter is_other_timer s.timers })

  abbrev pub arm_on_marker : Option (List ℕ) → Stream → Process → Process
  arm_on_marker (some marker) out_stream s = if includes marker s.stdout then arm_timeout s else s
  arm_on_marker _ _ s = s

abbrev pub add_text : Stream → List ℕ → Process → Process
add_text out_stream text s = record s { stdout = s.stdout ++ text }
add_text err_stream text s = record s { stderr = s.stderr ++ text }

-- The decoder is `chunk.toString("utf8")`.
module _ (decode : List ℕ → List ℕ) (o : Options) where
  -- capture
  unfoldable pub capture : Stream → List ℕ → Bool → Process → Process
  unfolding signal_group after
  capture stream bytes throws s =
      if s.truncated
      then s
      else if ltb o.max_captured_output_bytes (s.captured_bytes + length bytes)
      then after o.post_kill_report_ms report
          (signal_group throws sigkill (record s { truncated = true }))
      else arm_on_marker o o.timeout_start_marker stream (
          add_text stream (decode bytes)
            (record s { captured_bytes = s.captured_bytes + length bytes }))

-- child.on("error")
unfoldable pub on_error : String → Process → Process
unfolding settle
on_error message s = settle none s.exit_signal (record s { spawn_error = some message })

-- child.on("exit")
unfoldable pub on_exit : Options → Option ℕ → Option String → GroupProbe → Process → Process
unfolding settle after process_group_alive
on_exit o code signal probe s =
    let t : Process = record s { exit_code = code; exit_signal = signal } in
    if s.timed_out
    then (if process_group_alive s.pid probe then t else settle code signal t)
    else after o.post_exit_drain_ms drain t

-- child.on("close")
unfoldable pub on_close : Option ℕ → Option String → GroupProbe → Process → Process
unfolding settle process_group_alive
on_close code signal probe s =
    if not s.timed_out || not (process_group_alive s.pid probe) then settle code signal s else s

-- What the timers do.
unfoldable pub fire : Options → Task → Bool → Process → Process
unfolding settle signal_group after expire
fire o timeout throws s = expire o throws s
fire o marker_deadline throws s = expire o throws s
fire o kill throws s = after o.post_kill_report_ms report (signal_group throws sigkill s)
fire o report throws s = settle none s.exit_signal s
fire o drain throws s = settle s.exit_code s.exit_signal s

abbrev pub is_due : ℕ → Timer → Bool
is_due now t = leb t.due now

-- A timer that is not due does not fire.
unfoldable pub fire_timer : Options → ℕ → Bool → Option Timer → Process → Process
fire_timer o i throws none s = s
fire_timer o i throws (some t) s =
    if is_due s.now t then fire o t.task throws (record s { timers = remove_at i s.timers }) else s

-- One millisecond, unless a timer is due.
unfoldable pub pass : Process → Process
pass s = if any (is_due s.now) s.timers then s else record s { now = suc s.now }

module _ (decode : List ℕ → List ℕ) (o : Options) where
  unfoldable pub step : Event → Process → Process
  step passes s = pass s
  step (fires i throws) s = fire_timer o i throws (get_elem? s.timers i) s
  step (receives stream bytes throws) s = capture decode o stream bytes throws s
  step (fails message) s = on_error message s
  step (exits code signal probe) s = on_exit o code signal probe s
  step (closes code signal probe) s = on_close code signal probe s

  -- Any events, in the order in which the event loop handles them.
  unfoldable pub run : List Event → Process → Process
  run [] s = s
  run (e ∷ es) s = run es (step e s)

abbrev pub spawned : Option ℕ → Process
spawned pid = record {
  now = 0;
  pid = pid;
  stdout = [];
  stderr = [];
  captured_bytes = 0;
  truncated = false;
  timed_out = false;
  settled = false;
  exit_code = none;
  exit_signal = none;
  spawn_error = none;
  timeout_armed = false;
  timers = [];
  signals = [];
  resolved = [];
}

-- runBoundedProcess, up to its return to the event loop
abbrev pub begin : Options → Option (List ℕ) → Process → Process
begin o none s = arm_timeout o s
begin o (some _) s = after (get_or o.timeout_start_deadline_ms o.timeout_ms) marker_deadline s

unfoldable pub start : Options → Option ℕ → Process
unfolding arm_timeout after
start o pid = begin o o.timeout_start_marker (spawned pid)

-- The event loop when nothing but time comes: the first timer that is due fires, else time passes.
abbrev pub next_index : Option ℕ → Option ℕ
next_index none = none
next_index (some i) = some (suc i)

abbrev pub first_due : ℕ → List Timer → Option ℕ
first_due now [] = none
first_due now (t ∷ ts) = if is_due now t then some 0 else next_index (first_due now ts)

abbrev pub next_event : Process → Event
next_event s = elim (first_due s.now s.timers) [ none ↦ passes | some i ↦ fires i false ]

module _ (decode : List ℕ → List ℕ) (o : Options) where
  unfoldable pub drive : ℕ → Process → Process
  drive zero s = s
  drive (suc fuel) s = drive fuel (if s.settled then s else step decode o (next_event s) s)
