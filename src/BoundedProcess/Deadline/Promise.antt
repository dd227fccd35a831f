-- ===== src/BoundedProcess/Deadline/Promise.antt =====
-- The timer that brings a process to its end: which one it is, and how late it may be.
use ceal_cli.Base.{
  ℕ, ◌+◌, List, [], ◌∷◌, any, all, Option, none, some, Bool, true, false, not, ◌&&◌, leb, ◌≡◌,
  arith, any-all,
}
use ceal_cli.BoundedProcess.{
  Options, Process, Task, timeout, marker_deadline, kill, report, drain, Timer, get_or,
}

-- A timer whose firing is followed by the settling of the process no later than `limit`.
abbrev pub ends_by : Options → ℕ → Bool → Bool → Task → ℕ → Bool
ends_by o limit timed_out armed timeout due =
    not timed_out && armed && leb (due + o.termination_grace_ms + o.post_kill_report_ms) limit
ends_by o limit timed_out armed marker_deadline due =
    not timed_out
    && not armed
    && leb (due + o.timeout_ms + o.termination_grace_ms + o.post_kill_report_ms) limit
ends_by o limit timed_out armed kill due = timed_out && leb (due + o.post_kill_report_ms) limit
ends_by o limit timed_out armed report due = timed_out && leb due limit
ends_by o limit timed_out armed drain due = false

abbrev pub ends : Options → ℕ → Bool → Bool → Timer → Bool
ends o limit timed_out armed t = ends_by o limit timed_out armed t.task t.due

abbrev pub has_come : ℕ → Timer → Bool
has_come now t = leb now t.due

-- No timer is overdue, and one of them ends the process in time.
pub record IsOnTime (o : Options) (limit : ℕ) (s : Process) : Type 0 where
  pub urgent : all (has_come s.now) s.timers ≡ true
  pub promised : s.settled ≡ false → any (ends o limit s.timed_out s.timeout_armed) s.timers ≡ true

-- The latest moment at which a process has settled.
abbrev pub latest : Options → Option (List ℕ) → ℕ
latest o none = o.timeout_ms + o.termination_grace_ms + o.post_kill_report_ms
latest o (some _) =
    get_or o.timeout_start_deadline_ms o.timeout_ms
    + (o.timeout_ms + o.termination_grace_ms + o.post_kill_report_ms)

abbrev pub limit_of : Options → ℕ
limit_of o = latest o o.timeout_start_marker

constant_of_any : {A : Type 0} (b : Bool) (xs : List A) → any (λ (_ : A). b) xs ≡ true → b ≡ true
constant_of_any b [] h = cc
constant_of_any b (x ∷ xs) h = ground (arith, constant_of_any b xs)

-- The time that is left, for each phase.
abbrev pub left_over : Options → Bool → Bool → ℕ
left_over o true armed = 0
left_over o false true = o.termination_grace_ms + o.post_kill_report_ms
left_over o false false = o.timeout_ms + (o.termination_grace_ms + o.post_kill_report_ms)

ends_by-le :
    (o : Options) (limit now : ℕ) (timed_out armed : Bool) (k : Task) (due : ℕ)
    → ends_by o limit timed_out armed k due ≡ true
    → leb now due ≡ true
    → leb (now + left_over o timed_out armed) limit ≡ true
ends_by-le o limit now true armed timeout due h u = ground arith
ends_by-le o limit now false true timeout due h u = ground arith
ends_by-le o limit now false false timeout due h u = ground arith
ends_by-le o limit now true armed marker_deadline due h u = ground arith
ends_by-le o limit now false true marker_deadline due h u = ground arith
ends_by-le o limit now false false marker_deadline due h u = ground arith
ends_by-le o limit now true armed kill due h u = ground arith
ends_by-le o limit now false armed kill due h u = ground arith
ends_by-le o limit now true armed report due h u = ground arith
ends_by-le o limit now false armed report due h u = ground arith
ends_by-le o limit now timed_out armed drain due h u = ground arith

-- While such a timer is set and none is overdue, the phases that follow still fit.
pub promised-le :
    (o : Options) (limit now : ℕ) (timed_out armed : Bool) (ts : List Timer)
    → any (ends o limit timed_out armed) ts ≡ true
    → all (has_come now) ts ≡ true
    → leb (now + left_over o timed_out armed) limit ≡ true
promised-le o limit now timed_out armed ts h u =
    let fits : Bool = leb (now + left_over o timed_out armed) limit in
    constant_of_any fits ts (
      any-all (ends o limit timed_out armed) (has_come now) (λ _. fits) ts
        (λ t e c. ends_by-le o limit now timed_out armed t.task t.due e c) h u)
