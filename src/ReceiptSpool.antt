-- ===== src/ReceiptSpool.antt =====
-- packages/ceal-worker-cli/src/receipt-spool.ts: the entries of the receipt spool, their record in
-- its file, and the projection of a call result. The children model the file and the drop counter.
pub mod RoundTrip
pub mod File
pub mod Drops
pub mod CallResult
use ceal_cli.Base.{
  ℕ, ◌+◌, ◌≤◌, String, List, [], ◌∷◌, take, filter, length, all, Option, none, some, Bool, true,
  false, ◌&&◌, leb, ltb, str_eq, if◌then◌else◌,
}
use ceal_cli.Base.Json.{
  Json, Items, Fields, str, arr, obj, nil, cons, end, field, get, as_text, optional_field,
}
use ceal_cli.Platform.{Platform}
use ceal_cli.SafeRef.{ceal_safe_ref, is_ceal_safe_ref}

pub data Status : Type 0 where
  completed blocked error : Status

pub data Evidence : Type 0 where
  readback_verified not_read_back readback_unavailable outcome_unknown : Evidence

-- CealReceiptSpoolEntry
pub record Entry : Type 0 where
  pub recorded_at : ℕ
  pub request_ref : String
  pub status : Status
  pub evidence : Evidence
  pub audit_refs : List String
  pub capability_id : Option String
  pub target_ref : Option String
  pub error_kind : Option String

abbrev pub max_audit_refs : ℕ
max_audit_refs = 8

-- RECEIPT_SPOOL_MAX_ENTRIES
abbrev pub max_entries : ℕ
max_entries = 200

-- RECEIPT_SPOOL_RETENTION_MS
abbrev pub retention_ms : ℕ
retention_ms = 2592000000

-- FUTURE_SKEW_TOLERANCE_MS
abbrev pub future_skew_ms : ℕ
future_skew_ms = 300000

-- withinRetention
abbrev pub within_retention : ℕ → ℕ → Bool
within_retention recorded_at now =
    ltb now (recorded_at + retention_ms) && leb recorded_at (now + future_skew_ms)

abbrev pub status_text : Status → String
status_text completed = "completed"
status_text blocked = "blocked"
status_text error = "error"

abbrev pub evidence_text : Evidence → String
evidence_text readback_verified = "readback_verified"
evidence_text not_read_back = "not_read_back"
evidence_text readback_unavailable = "readback_unavailable"
evidence_text outcome_unknown = "outcome_unknown"

-- isSpoolStatus, with the value that it accepts
unfoldable pub status_of : Option Json → Option Status
status_of (some (str s)) =
    if str_eq s "completed"
    then some completed
    else (if str_eq s "blocked"
        then some blocked
        else (if str_eq s "error" then some error else none))
status_of _ = none

-- isSpoolEvidence, with the value that it accepts
unfoldable pub evidence_of : Option Json → Option Evidence
evidence_of (some (str s)) =
    if str_eq s "readback_verified"
    then some readback_verified
    else (if str_eq s "not_read_back"
        then some not_read_back
        else (if str_eq s "readback_unavailable"
            then some readback_unavailable
            else (if str_eq s "outcome_unknown" then some outcome_unknown else none)))
evidence_of _ = none

-- isCealSafeRef(value) ? value : undefined
unfoldable pub safe_ref_of : Option Json → Option String
safe_ref_of (some (str s)) = if ceal_safe_ref s then some s else none
safe_ref_of _ = none

abbrev pub safe_refs : Items → List String
safe_refs nil = []
safe_refs (cons (str s) vs) = if ceal_safe_ref s then s ∷ safe_refs vs else safe_refs vs
safe_refs (cons _ vs) = safe_refs vs

-- Array.isArray(value) ? value.filter(isCealSafeRef).slice(0, MAX_AUDIT_REFS) : []
unfoldable pub audit_refs_of : Option Json → List String
audit_refs_of (some (arr vs)) = take max_audit_refs (safe_refs vs)
audit_refs_of _ = []

abbrev pub is_absent_or_safe : Option String → Bool
is_absent_or_safe none = true
is_absent_or_safe (some s) = ceal_safe_ref s

-- isValidEntry, on an entry that has its type: the status and the evidence are members of their
-- sets, and the time is finite
unfoldable pub is_valid_entry : Entry → Bool
is_valid_entry e =
    ceal_safe_ref e.request_ref
    && leb (length e.audit_refs) max_audit_refs
    && all ceal_safe_ref e.audit_refs
    && is_absent_or_safe e.capability_id
    && is_absent_or_safe e.target_ref
    && is_absent_or_safe e.error_kind

abbrev pub from_texts : List String → Items
from_texts [] = nil
from_texts (s ∷ ss) = cons (str s) (from_texts ss)

abbrev pub text : Option String → Option Json
text none = none
text (some s) = some (str s)

-- One entry of serializeSpool, its date written.
abbrev pub entry_fields : String → Entry → Fields
entry_fields date e = field "recorded_at" (str date) (
    field "request_ref" (str e.request_ref) (
      field "status" (str (status_text e.status)) (
        field "evidence" (str (evidence_text e.evidence)) (
          field "audit_refs" (arr (from_texts e.audit_refs)) (
            optional_field "capability_id" (text e.capability_id) (
              optional_field "target_ref" (text e.target_ref)
                (optional_field "error_kind" (text e.error_kind) end)))))))

-- None where the date cannot be written.
unfoldable pub serialize_entry : Platform → Entry → Option Json
serialize_entry p e = elim (p.format_date e.recorded_at) [
  | none ↦ none
  | some date ↦ some (obj (entry_fields date e))
]

infixl 5 ◌>>=◌
abbrev pub ◌>>=◌ : {A B : Type 0} → Option A → (A → Option B) → Option B
none >>= f = none
some a >>= f = f a

abbrev pub checked : Entry → Option Entry
checked e = if is_valid_entry e then some e else none

-- The candidate of parseEntry, which isValidEntry then checks: a required value of another type
-- refuses it.
unfoldable pub entry_of : ℕ → Fields → Option Entry
entry_of time fs = do
  request_ref ← as_text (get "request_ref" fs)
  status ← status_of (get "status" fs)
  evidence ← evidence_of (get "evidence" fs)
  checked record {
    recorded_at = time;
    request_ref = request_ref;
    status = status;
    evidence = evidence;
    audit_refs = audit_refs_of (get "audit_refs" fs);
    capability_id = safe_ref_of (get "capability_id" fs);
    target_ref = safe_ref_of (get "target_ref" fs);
    error_kind = safe_ref_of (get "error_kind" fs);
  }

-- parseEntry
unfoldable pub parse_entry : Platform → Json → Option Entry
parse_entry p (obj fs) = do
  date ← as_text (get "recorded_at" fs)
  time ← p.parse_date date
  entry_of time fs
parse_entry p _ = none
