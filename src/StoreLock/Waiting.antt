-- ===== src/StoreLock/Waiting.antt =====
-- A contender for a lock whose holder lives.
use ceal_cli.Base.{
  ℕ, ◌+◌, ◌≤◌, ◌<◌, leb, List, [], ◌∷◌, some, ◌≡◌, refl, arith, Bool-cases, inl, inr,
}
use ceal_cli.StoreLock.Reclaim.{
  Acquired, wait_for_lock, gave_up, waiting, acquire_from, acquire_lock,
}
use ceal_cli.StoreLock.{Owner, Directory, Paths, Attempt, busy}
use ceal_cli.StoreLock.Holding.{Lives, IsHeld, create_lock-IsHeld, remove_stale-IsHeld}

-- Every turn finds the process alive.
abbrev pub AllAlive : Owner → List (Attempt × ℕ) → Type 0
AllAlive o [] = Unit
AllAlive o ((a, now) ∷ turns) = Lives (a.probe o.pid) × AllAlive o turns

-- It waits in every turn before the deadline, and is refused at the first one that is not.
pub data WaitsUntil (deadline : ℕ) : List (Attempt × ℕ) → Acquired → Type 0 where
  still_waits : WaitsUntil deadline [] waiting
  goes_on :
      (a : Attempt) (now : ℕ) (turns : List (Attempt × ℕ)) (r : Acquired)
      → now < deadline
      → WaitsUntil deadline turns r
      → WaitsUntil deadline ((a, now) ∷ turns) r
  is_refused :
      (a : Attempt) (now : ℕ) (turns : List (Attempt × ℕ))
      → deadline ≤ now
      → WaitsUntil deadline ((a, now) ∷ turns) (gave_up busy)

module _ (o : Owner) (d : Directory) (s : Paths) (here : s.lock ≡ some d) (h : IsHeld o d) where
  acquire_from-WaitsUntil :
      (deadline : ℕ) (turns : List (Attempt × ℕ))
      → AllAlive o turns
      → ((acquire_from deadline turns s).1 ≡ s)
        × WaitsUntil deadline turns (acquire_from deadline turns s).0
  unfolding acquire_from wait_for_lock
  acquire_from-WaitsUntil deadline [] live = (refl, still_waits)
  acquire_from-WaitsUntil deadline ((a, now) ∷ turns) live = elim (Bool-cases (leb deadline now)) [
    | inl e ↦
        rw (create_lock-IsHeld o d s here h a, remove_stale-IsHeld o d s here h a live.0, e)
          (refl, is_refused a now turns (ground arith))
    | inr e ↦
        let (same, rest) = acquire_from-WaitsUntil deadline turns live.1 in
        rw (create_lock-IsHeld o d s here h a, remove_stale-IsHeld o d s here h a live.0, e)
          (same, goes_on a now turns _ (ground arith) rest)
  ]

  -- While the holder's process runs, a contender changes nothing: it waits as long as the clock is
  -- below its start plus its greatest wait, and gives up as busy at the first turn that reads more.
  pub acquire_busy :
      (started max_wait_ms : ℕ) (turns : List (Attempt × ℕ))
      → AllAlive o turns
      → ((acquire_lock started max_wait_ms turns s).1 ≡ s)
        × WaitsUntil (started + max_wait_ms) turns (acquire_lock started max_wait_ms turns s).0
  unfolding acquire_lock
  acquire_busy started max_wait_ms turns live =
      acquire_from-WaitsUntil (started + max_wait_ms) turns live
