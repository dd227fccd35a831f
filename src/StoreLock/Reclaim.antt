-- ===== src/StoreLock/Reclaim.antt =====
-- packages/ceal-worker-cli/src/local-store-lock.ts: the reclamation of a stale lock, and the loop
-- that waits for a lock.
use ceal_cli.Base.{
  ℕ, ◌+◌, leb, String, List, [], ◌∷◌, Option, none, some, Bool, true, false, not, ◌&&◌, ◌==◌,
  str_eq, if◌then◌else◌,
}
use ceal_cli.Base.Outcome.{Outcome, ok, err}
use ceal_cli.StoreLock.{
  Owner, OwnerFile, Directory, Suffix, Paths, Probe, Attempt, Failure, read_lock_owner,
  read_safe_lock_directory, rename_onto, create_lock, absent, unsafe_file, of_nonce, of_generation,
  alive, esrch, eperm, other_error, unsafe_store, busy,
}

-- What staleLockOwner returns.
pub data Stale : Type 0 where
  owned : Owner → Stale
  invalid_generation : String → Stale
  initializing : Stale
  gone : Stale

abbrev pub ownerless : Directory → Stale
ownerless d = if d.is_fresh then initializing else invalid_generation d.generation

abbrev pub stale_owner_of : Directory → OwnerFile → Outcome Failure Stale
stale_owner_of d absent = ok (ownerless d)
stale_owner_of d unsafe_file = err unsafe_store
stale_owner_of d f = elim (read_lock_owner f) [ none ↦ ok (ownerless d) | some o ↦ ok (owned o) ]

-- staleLockOwner
unfoldable pub stale_lock_owner : Option Directory → Outcome Failure Stale
stale_lock_owner lock = elim (read_safe_lock_directory lock) [
  | err e ↦ err e
  | ok none ↦ ok gone
  | ok (some d) ↦ stale_owner_of d d.owner_file
]

-- processMissing
abbrev pub process_missing : Probe → Outcome Failure Bool
process_missing alive = ok false
process_missing esrch = ok true
process_missing eperm = ok false
process_missing other_error = err unsafe_store

abbrev pub same_suffix : Suffix → Suffix → Bool
same_suffix (of_nonce a) (of_nonce b) = str_eq a b
same_suffix (of_generation a) (of_generation b) = str_eq a b
same_suffix _ _ = false

abbrev pub find_reclaimed : Suffix → List (Suffix × Directory) → Option Directory
find_reclaimed x [] = none
find_reclaimed x ((y, d) ∷ rest) = if same_suffix x y then some d else find_reclaimed x rest

abbrev matches : Owner → Option Owner → Bool
matches o none = false
matches o (some q) = q.pid == o.pid && str_eq q.nonce o.nonce

-- assertQuarantine, with the owner that was found stale
abbrev pub assert_quarantine : Stale → Option Directory → Bool
assert_quarantine (owned o) (some t) = t.is_private && matches o (read_lock_owner t.owner_file)
assert_quarantine (invalid_generation g) (some t) =
    t.is_private && str_eq t.generation g && not t.is_empty
assert_quarantine _ _ = false

abbrev pub suffix_of : Stale → Suffix
suffix_of (owned o) = of_nonce o.nonce
suffix_of (invalid_generation g) = of_generation g
suffix_of initializing = of_generation ""
suffix_of gone = of_generation ""

-- quarantineStaleLock
unfoldable pub quarantine_stale_lock : Attempt → Stale → Paths → Outcome Failure Bool × Paths
quarantine_stale_lock a stale s = elim s.lock [
  | none ↦ (ok true, s)
  | some d ↦
      let there = find_reclaimed (suffix_of stale) s.reclaimed in
      if a.rename_fails then (err unsafe_store, s) else (elim (rename_onto d there) [
        | some moved ↦
            (ok true, record s { lock = none; reclaimed = (suffix_of stale, moved) ∷ s.reclaimed })
        | none ↦ (if assert_quarantine stale there then ok false else err unsafe_store, s)
      ])
]

abbrev pub reclaim_owned : Attempt → Owner → Paths → Outcome Failure Bool × Paths
reclaim_owned a o s = elim (process_missing (a.probe o.pid)) [
  | err e ↦ (err e, s)
  | ok false ↦ (ok false, s)
  | ok true ↦ quarantine_stale_lock a (owned o) s
]

abbrev pub reclaim : Attempt → Stale → Paths → Outcome Failure Bool × Paths
reclaim a (owned o) s = reclaim_owned a o s
reclaim a (invalid_generation g) s = quarantine_stale_lock a (invalid_generation g) s
reclaim a initializing s = (ok false, s)
reclaim a gone s = (ok true, s)

-- removeStaleLock
unfoldable pub remove_stale_lock : Attempt → Paths → Outcome Failure Bool × Paths
remove_stale_lock a s = elim (stale_lock_owner s.lock) [
  | err e ↦ (err e, s)
  | ok stale ↦ reclaim a stale s
]

abbrev pub waited : Bool → Outcome Failure Bool × Paths → Outcome Failure (Unit {0}) × Paths
waited late (err e, s) = (err e, s)
waited late (ok true, s) = (ok tt, s)
waited late (ok false, s) = (if late then err busy else ok tt, s)

-- waitForLock; `now` is the monotonic clock where it is read
unfoldable pub wait_for_lock : Attempt → ℕ → ℕ → Paths → Outcome Failure (Unit {0}) × Paths
wait_for_lock a deadline now s = waited (leb deadline now) (remove_stale_lock a s)

-- How far acquireLock has come: a nonce, an error, or one more turn.
pub data Acquired : Type 0 where
  holds : String → Acquired
  gave_up : Failure → Acquired
  waiting : Acquired

abbrev pub after_wait :
    (Paths → Acquired × Paths) → Outcome Failure (Unit {0}) × Paths → Acquired × Paths
after_wait again (err e, s) = (gave_up e, s)
after_wait again (ok _, s) = again s

abbrev pub after_create :
    Attempt
    → ℕ
    → ℕ
    → (Paths → Acquired × Paths)
    → Outcome Failure (Option String) × Paths
    → Acquired × Paths
after_create a deadline now again (err e, s) = (gave_up e, s)
after_create a deadline now again (ok (some n), s) = (holds n, s)
after_create a deadline now again (ok none, s) = after_wait again (wait_for_lock a deadline now s)

-- The loop of acquireLock: one attempt for each turn, with the clock that waitForLock reads.
unfoldable pub acquire_from : ℕ → List (Attempt × ℕ) → Paths → Acquired × Paths
acquire_from deadline [] s = (waiting, s)
acquire_from deadline ((a, now) ∷ turns) s =
    after_create a deadline now (acquire_from deadline turns) (create_lock a s)

-- acquireLock, from the clock at its start and maxWaitMs
unfoldable pub acquire_lock : ℕ → ℕ → List (Attempt × ℕ) → Paths → Acquired × Paths
unfolding acquire_from
acquire_lock started max_wait_ms turns s = acquire_from (started + max_wait_ms) turns s
