-- ===== src/StoreLock.antt =====
-- packages/ceal-worker-cli/src/local-store-lock.ts: the lock directory that guards one state file.
-- The state is what the file system holds at the lock's path and at the tombstones' paths; a rename
-- onto a path that holds a non-empty directory fails, as rename(2) documents.
pub mod Reclaim
pub mod Tombstones
pub mod Holding
pub mod Waiting
use ceal_cli.Base.{
  ℕ, String, List, [], ◌∷◌, length, all, codes, Option, none, some, Bool, true, false, not, ◌&&◌,
  ◌||◌, ◌==◌, leb, str_eq, between, is_digit, is_upper, if◌then◌else◌,
}
use ceal_cli.Base.Json.{Json, Fields, num, str, obj, field, end, get}
use ceal_cli.Base.Outcome.{Outcome, ok, err}

-- The owner record: { pid, nonce }
pub record Owner : Type 0 where
  pub pid : ℕ
  pub nonce : String

-- owner.json, as lstat and JSON.parse find it: `unreadable` is a text that is no JSON
pub data OwnerFile : Type 0 where
  absent : OwnerFile
  unsafe_file : OwnerFile
  unreadable : OwnerFile
  contents : Json → OwnerFile

-- A lock directory. `is_private` is a directory without permissions for others, `is_fresh` one whose
-- age is below LOCK_INITIALIZATION_GRACE_MS.
pub record Directory : Type 0 where
  pub generation : String
  pub is_private : Bool
  pub is_fresh : Bool
  pub is_empty : Bool
  pub owner_file : OwnerFile

-- The suffix of a tombstone: the nonce of the holder, or `invalid-` and the generation.
pub data Suffix : Type 0 where
  of_nonce : String → Suffix
  of_generation : String → Suffix

pub record Paths : Type 0 where
  -- lockPath
  pub lock : Option Directory
  -- `${lockPath}.reclaimed-${suffix}`
  pub reclaimed : List (Suffix × Directory)

-- What `process.kill(pid, 0)` does.
pub data Probe : Type 0 where
  alive esrch eperm other_error : Probe

-- What the caller and the operating system decide in one attempt.
pub record Attempt : Type 0 where
  pub pid : ℕ
  pub nonce : String
  pub inode : String
  pub candidate_written : Bool
  pub rename_fails : Bool
  pub probe : ℕ → Probe

pub data Failure : Type 0 where
  unsafe_store busy : Failure

abbrev is_hex : ℕ → Bool
is_hex c = is_digit c || between b'a' b'f' c || between b'A' b'F' c

-- Number.MAX_SAFE_INTEGER
abbrev max_safe_integer : ℕ
max_safe_integer = 9007199254740991

abbrev pub owner_of : Option Json → Option Json → Option Owner
owner_of (some (num pid)) (some (str nonce)) =
    if leb 1 pid
      && leb pid max_safe_integer
      && length (codes nonce) == 32
      && all is_hex (codes nonce)
    then some record { pid = pid; nonce = nonce }
    else none
owner_of _ _ = none

-- readLockOwner
unfoldable pub read_lock_owner : OwnerFile → Option Owner
read_lock_owner (contents (obj fs)) = owner_of (get "pid" fs) (get "nonce" fs)
read_lock_owner _ = none

-- readSafeLockDirectory
abbrev pub read_safe_lock_directory : Option Directory → Outcome Failure (Option Directory)
read_safe_lock_directory none = ok none
read_safe_lock_directory (some d) = if d.is_private then ok (some d) else err unsafe_store

-- lockPathAbsentOrEmpty
abbrev pub lock_path_absent_or_empty : Option Directory → Outcome Failure Bool
lock_path_absent_or_empty lock = elim (read_safe_lock_directory lock) [
  | err e ↦ err e
  | ok none ↦ ok true
  | ok (some d) ↦ ok d.is_empty
]

-- renameSync of a directory onto a path: none is EEXIST or ENOTEMPTY
abbrev pub rename_onto : Directory → Option Directory → Option Directory
rename_onto d none = some d
rename_onto d (some target) = if target.is_empty then some d else none

-- The candidate: private, with a complete owner record.
abbrev pub candidate : Attempt → Directory
candidate a = record {
  generation = a.inode;
  is_private = true;
  is_fresh = true;
  is_empty = false;
  owner_file = contents (obj (field "pid" (num a.pid) (field "nonce" (str a.nonce) end)));
}

-- The publication of the candidate; `ok none` is a lock that is held.
abbrev pub publish : Attempt → Paths → Outcome Failure (Option String) × Paths
publish a s =
    if a.rename_fails then (err unsafe_store, s) else (elim (rename_onto (candidate a) s.lock) [
      | none ↦ (ok none, s)
      | some d ↦ (ok (some a.nonce), record s { lock = some d })
    ])

-- createLock
unfoldable pub create_lock : Attempt → Paths → Outcome Failure (Option String) × Paths
create_lock a s = elim (lock_path_absent_or_empty s.lock) [
  | err e ↦ (err e, s)
  | ok false ↦ (ok none, s)
  | ok true ↦ if a.candidate_written then publish a s else (err unsafe_store, s)
]

-- releaseLock
unfoldable pub release_lock : String → Paths → Paths
release_lock nonce s = elim s.lock [
  | none ↦ s
  | some d ↦ elim (read_lock_owner d.owner_file) [
    | none ↦ s
    | some o ↦ if str_eq o.nonce nonce then record s { lock = none } else s
  ]
]
