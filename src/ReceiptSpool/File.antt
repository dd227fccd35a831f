-- ===== src/ReceiptSpool/File.antt =====
-- packages/ceal-worker-cli/src/receipt-spool.ts: the spool file. A file is what the guards and
-- `JSON.parse` find of it; the lock is taken by the caller.
pub mod Bounds
pub mod Append
pub mod Owner
use ceal_cli.Base.{
  ℕ, max, String, List, [], ◌∷◌, ◌++◌, filter, take_last, Option, none, some, Bool, true, false,
  ◌&&◌, ◌||◌, not, str_eq, ◌==◌, if◌then◌else◌,
}
use ceal_cli.Base.Json.{Json, Items, Fields, str, arr, obj, nil, cons, end, field, get}
use ceal_cli.Platform.{Platform}
use ceal_cli.SafeRef.{is_sha256_digest}
use ceal_cli.ReceiptSpool.{
  Entry, max_entries, within_retention, is_valid_entry, serialize_entry, parse_entry,
}

-- A file at the spool's path. The two guards are safeExistingFile with and without the file's
-- mode; none is a text that is not JSON.
pub record File : Type 0 where
  pub is_safe : Bool
  pub is_safe_but_mode : Bool
  pub contents : Option Json

-- CealReceiptSpoolState's drops
pub record Drops : Type 0 where
  pub count : ℕ
  pub at_least : Bool

abbrev pub no_drops : Drops
no_drops = record { count = 0; at_least = false }

-- CealReceiptSpoolState
pub record State : Type 0 where
  pub entries : List Entry
  pub drops : Drops
  pub spool_present : Bool

-- What readSpool returns: a state, FOREIGN_SPOOL or null.
pub data Reading : Type 0 where
  spool : State → Reading
  foreign : Reading
  missing : Reading

abbrev pub parsed_entries : Platform → ℕ → Items → List Entry
parsed_entries p now nil = []
parsed_entries p now (cons v vs) = elim (parse_entry p v) [
  | none ↦ parsed_entries p now vs
  | some e ↦
      let rest = parsed_entries p now vs in
      if within_retention e.recorded_at now then e ∷ rest else rest
]

-- The entries that writeAppendedSpool starts from.
abbrev pub prior_entries : Reading → List Entry
prior_entries (spool s) = s.entries
prior_entries foreign = []
prior_entries missing = []

abbrev pub recent : ℕ → Entry → Bool
recent now e = within_retention e.recorded_at now

abbrev pub recent_of : List Entry → Entry → ℕ → List Entry
recent_of prior e now = filter (recent (max now e.recorded_at)) (prior ++ e ∷ [])

-- The entries that writeAppendedSpool writes.
abbrev pub kept_entries : List Entry → Entry → ℕ → List Entry
kept_entries prior e now = take_last max_entries (recent_of prior e now)

-- writeAppendedSpool: the file that is written, or none where it throws
abbrev pub spool_fields : String → Items → Fields
spool_fields identity js =
    field "schema_version" (str "ceal.receipt_spool.v2")
      (field "identity" (str identity) (field "entries" (arr js) end))

-- What writeCealLocalStoreFile leaves: an owner-only file of this content.
abbrev pub written_file : Json → File
written_file j = record { is_safe = true; is_safe_but_mode = true; contents = some j }

module _ (p : Platform) where
  -- the part of readSpool behind the checks of the record
  unfoldable pub read_entries : Items → ℕ → Drops → Reading
  read_entries vs now drops = spool record {
    entries = take_last max_entries (parsed_entries p now vs);
    drops = drops;
    spool_present = true;
  }

  unfoldable pub read_record : Fields → Items → String → ℕ → Drops → Reading
  read_record fs vs identity now drops = elim (get "schema_version" fs) [
    | some (str schema) ↦
        if str_eq schema "ceal.receipt_spool.v1" then foreign else (elim (get "identity" fs) [
          | some (str owner) ↦
              if not (str_eq schema "ceal.receipt_spool.v2")
                || not (is_sha256_digest (some (str owner)))
              then missing
              else (if not (str_eq owner identity) then foreign else read_entries vs now drops)
          | _ ↦ missing
        ])
    | _ ↦ missing
  ]

  abbrev pub read_items : Fields → Option Json → String → ℕ → Drops → Reading
  read_items fs (some (arr vs)) identity now drops = read_record fs vs identity now drops
  read_items fs _ identity now drops = missing

  unfoldable pub read_json : Option Json → String → ℕ → Drops → Reading
  read_json (some (obj fs)) identity now drops = read_items fs (get "entries" fs) identity now drops
  read_json _ identity now drops = missing

  -- readSpool
  unfoldable pub read_spool : Option File → String → ℕ → Drops → Bool → Reading
  read_spool none identity now drops require_file_mode = missing
  read_spool (some f) identity now drops require_file_mode =
      if (if require_file_mode then f.is_safe else f.is_safe_but_mode)
      then read_json f.contents identity now drops
      else missing

  abbrev pub serialize_entries : List Entry → Option Items
  serialize_entries [] = some nil
  serialize_entries (e ∷ es) = elim (serialize_entry p e) [
    | none ↦ none
    | some j ↦ elim (serialize_entries es) [ none ↦ none | some js ↦ some (cons j js) ]
  ]

  -- serializeSpool; none where a date cannot be written
  unfoldable pub serialize_spool : String → List Entry → Option Json
  serialize_spool identity es = elim (serialize_entries es) [
    | none ↦ none
    | some js ↦ some (obj (spool_fields identity js))
  ]

  unfoldable pub write_appended_spool : Option File → String → Entry → ℕ → Option File
  write_appended_spool file identity e now =
      let prior = prior_entries (read_spool file identity now no_drops false) in
      elim (serialize_spool identity (kept_entries prior e now)) [
        | none ↦ none
        | some j ↦ some (written_file j)
      ]

  -- append, under the lock: none is the unsafe_store error
  unfoldable pub append : Option File → String → Entry → ℕ → Option File
  append file identity e now =
      if not (is_sha256_digest (some (str identity))) || not (is_valid_entry e)
      then none
      else write_appended_spool file identity e now

-- What load returns or throws.
pub data Loaded : Type 0 where
  state : State → Loaded
  soft_miss : Loaded
  unsafe_store : Loaded

abbrev pub empty_state : Drops → State
empty_state drops = record { entries = []; drops = drops; spool_present = false }

abbrev pub loaded : Option File → Drops → Reading → Loaded
loaded file drops (spool s) = state s
loaded file drops foreign = if drops.count == 0 then soft_miss else state (empty_state drops)
loaded (some f) drops missing = unsafe_store
loaded none drops missing = if drops.count == 0 then soft_miss else state (empty_state drops)

-- load
unfoldable pub load : Platform → Option File → Drops → String → ℕ → Loaded
load p file drops identity now =
    if not (is_sha256_digest (some (str identity)))
    then unsafe_store
    else loaded file drops (read_spool p file identity now drops true)
