-- ===== src/StoreFile.antt =====
-- packages/ceal-worker-cli/src/local-store-file.ts: the write of a store's file. The state is what
-- the store's directory holds. Each call of the file system has an outcome that the environment
-- chooses: it works, fails, or the process dies at it; a write may also end after a part of it. No
-- other process changes the directory during the write: the caller holds the store's lock.
pub mod Calls
pub mod Lookup
pub mod Names
pub mod Sweep
pub mod Prefix
pub mod Atomic
pub mod Outcome
use ceal_cli.Base.{
  ℕ, ◌+◌, List, [], ◌∷◌, ◌++◌, length, Option, none, some, Bool, true, false, not, ◌&&◌, ◌||◌, ◌==◌,
  ltb, codes, is_digit, is_lower, if◌then◌else◌,
}
use ceal_cli.StoreFile.Calls.{
  Name, same_name, Node, plain, symlink, find, names, Disk, Thrown, unsafe_store, Ended, done,
  thrown, killed, Action, follow, ◌>>=◌, ◌>>◌, pure, throw, ignore, finally, Environment, call,
  stat, delete, change_mode, rename, write_new,
}

-- [a-z0-9]
abbrev pub is_prefix_char : ℕ → Bool
is_prefix_char c = is_lower c || is_digit c

-- SAFE_PREFIX: a dash stands between two other characters. The flag says that one has to follow.
unfoldable pub safe_rest : Bool → List ℕ → Bool
safe_rest open_still [] = not open_still
safe_rest open_still (c ∷ cs) =
    (if c == b'-' then not open_still else is_prefix_char c) && safe_rest (c == b'-') cs

abbrev pub is_safe_prefix : List ℕ → Bool
is_safe_prefix prefix = safe_rest true prefix

-- STALE_TEMPORARY_AGE_MS
abbrev pub stale_temporary_age_ms : ℕ
stale_temporary_age_ms = 3600000

abbrev pub marker_of : List ℕ → Name
marker_of prefix = b'.' ∷ prefix ++ b'.' ∷ []

-- name.startsWith(text)
abbrev pub starts_with : List ℕ → Name → Bool
starts_with [] n = true
starts_with (c ∷ cs) [] = false
starts_with (c ∷ cs) (b ∷ n) = c == b && starts_with cs n

-- name.endsWith(text)
abbrev pub ends_with : List ℕ → Name → Bool
ends_with text [] = same_name [] text
ends_with text (b ∷ n) = same_name (b ∷ n) text || ends_with text n

-- The names that sweepStaleTemporaries looks at.
unfoldable pub is_temporary : List ℕ → Name → Bool
is_temporary prefix n =
    starts_with (marker_of prefix) n
    && ends_with (codes ".tmp") n
    && ltb (length (marker_of prefix) + 4) (length n)

-- stat.isFile() && now - stat.mtimeMs > STALE_TEMPORARY_AGE_MS
abbrev pub is_stale : ℕ → Node → Bool
is_stale now (plain f) = ltb (f.modified + stale_temporary_age_ms) now
is_stale now _ = false

-- CealLocalStoreWrite, with names in the store's directory
pub record StoreWrite : Type 0 where
  pub file : Name
  pub prefix : List ℕ
  pub contents : List ℕ
  pub require_mode : Bool

-- FILE_MODE, 0o600
abbrev pub file_mode : ℕ
file_mode = 384

abbrev pub temporary_name : Environment → List ℕ → Name
temporary_name v prefix = marker_of prefix ++ (v.pid ++ (b'.' ∷ (v.nonce ++ codes ".tmp")))

-- existsSync: it follows a link, and does not throw.
abbrev pub exists : Option Node → Bool
exists none = false
exists (some (symlink dangling)) = not dangling
exists (some _) = true

-- assertFile of local-store-guards.ts, on what lstatSync returns
abbrev pub assert_file : Bool → Node → Action (Unit {0})
assert_file require_mode (plain f) =
    if require_mode && not (f.mode == file_mode) then throw unsafe_store else pure tt
assert_file require_mode _ = throw unsafe_store

module _ (v : Environment) where
  abbrev pub delete_if_stale : Name → Node → Action (Unit {0})
  delete_if_stale n node = if is_stale v.now node then delete v n else pure tt

  abbrev pub sweep_one : List ℕ → Name → Action (Unit {0})
  sweep_one prefix n d =
      if is_temporary prefix n then ignore ((stat v n >>= delete_if_stale n) d) else (done tt, d)

  unfoldable pub sweep_names : List ℕ → List Name → Action (Unit {0})
  sweep_names prefix [] d = (done tt, d)
  sweep_names prefix (n ∷ ns) d = follow (λ _. sweep_names prefix ns) (sweep_one prefix n d)

  abbrev pub sweep_listed : List ℕ → Ended (List Name) × Disk → Ended (Unit {0}) × Disk
  sweep_listed prefix (done ns, d) = sweep_names prefix ns d
  sweep_listed prefix (thrown _, d) = (done tt, d)
  sweep_listed prefix (killed, d) = (killed, d)

  -- sweepStaleTemporaries
  unfoldable pub sweep_stale_temporaries : List ℕ → Action (Unit {0})
  sweep_stale_temporaries prefix d = sweep_listed prefix (call v (λ es. (done (names es), es)) d)

  -- if (existsSync(file)) assertFile(file, unsafe, requireMode);
  abbrev pub check_target : StoreWrite → Action (Unit {0})
  check_target w d =
      if exists (find w.file d.entries)
      then (stat v w.file >>= assert_file w.require_mode) d
      else (done tt, d)

  -- The `try` of writeCealLocalStoreFile, from the moment at which `created` is true.
  abbrev pub put_in_place : StoreWrite → Name → Action (Unit {0})
  put_in_place w temporary = change_mode v temporary file_mode >> rename v temporary w.file

  abbrev pub replace_file : StoreWrite → Name → Action (Unit {0})
  replace_file w temporary = write_new v temporary w.contents >> λ d.
      finally (delete v temporary) (put_in_place w temporary d)

  -- writeCealLocalStoreFile
  unfoldable pub write_local_store_file : StoreWrite → Action (Unit {0})
  write_local_store_file w =
      if is_safe_prefix w.prefix
      then (do
        sweep_stale_temporaries w.prefix
        check_target w
        replace_file w (temporary_name v w.prefix))
      else throw unsafe_store
