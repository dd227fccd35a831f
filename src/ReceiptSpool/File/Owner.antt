-- ===== src/ReceiptSpool/File/Owner.antt =====
-- The identity of a spool file, and readers of another identity.
use ceal_cli.Base.{
  ℕ, String, [], Option, none, some, true, false, ◌≡◌, ◌≢◌, refl, arith, str_eq, eq_iff, inl, inr,
  Bool-cases, Option-cases,
}
use ceal_cli.Base.Json.{Items, str, obj}
use ceal_cli.Platform.{Platform}
use ceal_cli.SafeRef.{is_sha256_digest}
use ceal_cli.ReceiptSpool.{Entry}
use ceal_cli.ReceiptSpool.File.{
  File, Drops, no_drops, State, foreign, read_record, read_json, read_spool, serialize_entries,
  serialize_spool, spool_fields, written_file, prior_entries, kept_entries, write_appended_spool,
  append, state, load,
}

-- A file that an append under `owner` writes names `owner`, whose digest is well formed.
record IsOwned (owner : String) (f : File) : Type 0 where
  items : Items
  digest : is_sha256_digest (some (str owner)) ≡ true
  written : f ≡ written_file (obj (spool_fields owner items))

append-IsOwned :
    (p : Platform) (file : Option File) (owner : String) (e : Entry) (now : ℕ) (f : File)
    → append p file owner e now ≡ some f
    → IsOwned owner f
unfolding append write_appended_spool serialize_spool
append-IsOwned p file owner e now f h =
    elim (Option-cases (
      serialize_entries p
        (kept_entries (prior_entries (read_spool p file owner now no_drops false)) e now))) [
          | inl x ↦
              let no : none ≡ some f = rw (x, write_appended_spool, serialize_spool) at put in cc
          | inr (js, x) ↦
              let both : some (written_file (obj (spool_fields owner js))) ≡ some f =
                rw (x, write_appended_spool, serialize_spool) at put in
              record { items = js; digest = ground arith; written = cc }
        ]
  where
    put : write_appended_spool p file owner e now ≡ some f
    put = ground arith

read_owned :
    (p : Platform) (owner identity : String) (js : Items) (later : ℕ) (drops : Drops)
    → is_sha256_digest (some (str owner)) ≡ true
    → str_eq owner identity ≡ false
    → read_spool p (some (written_file (obj (spool_fields owner js)))) identity later drops true
      ≡ foreign
unfolding read_spool read_json read_record
read_owned p owner identity js later drops digest other = rw (digest, other) refl

-- What one identity appends, another identity does not read: it finds no entries.
pub append-load_other :
    (p : Platform) (file : Option File) (owner identity : String) (e : Entry) (now later : ℕ)
    (drops : Drops) (f : File) (s : State)
    → owner ≢ identity
    → append p file owner e now ≡ some f
    → load p (some f) drops identity later ≡ state s
    → s.entries ≡ []
unfolding load
append-load_other p file owner identity e now later drops f s other h l =
    let o : IsOwned owner f = append-IsOwned p file owner e now f h in
    let differ : str_eq owner identity ≡ false = elim (Bool-cases (str_eq owner identity)) [
      | inl y ↦ absurd (other ((eq_iff owner identity).0 y))
      | inr y ↦ y
    ] in
    let r : read_spool p (some f) identity later drops true ≡ foreign =
      rw o.written (read_owned p owner identity o.items later drops o.digest differ) in
    ground (arith, r)
