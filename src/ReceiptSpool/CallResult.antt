-- ===== src/ReceiptSpool/CallResult.antt =====
-- packages/ceal-worker-cli/src/receipt-spool.ts: the spooled projection of a call result.
use ceal_cli.Base.{
  ℕ, ◌≤◌, String, take, length, length-take_le, all, all-take, Option, none, some, Bool, true,
  false, ◌≡◌, refl, arith, ap, sym, subst, Bool-cases, Option-cases, inl, inr, if◌then◌else◌, ◌&&◌,
  str_eq, leb,
}
use ceal_cli.Base.Json.{
  Json, Items, Fields, null, bool, num, other_num, str, arr, obj, nil, cons, get,
}
use ceal_cli.SafeRef.{ceal_safe_ref}
use ceal_cli.ReceiptSpool.{
  Entry, Status, Evidence, max_audit_refs, status_of, evidence_of, safe_ref_of, safe_refs,
  audit_refs_of, is_absent_or_safe, is_valid_entry, ◌>>=◌,
}

abbrev as_record : Option Json → Option Fields
as_record (some (obj fs)) = some fs
as_record _ = none

abbrev is_result_v2 : Fields → Bool
is_result_v2 envelope = elim (get "schema_version" envelope) [
  | some (str s) ↦ str_eq s "ceal.result.v2"
  | _ ↦ false
]

abbrev error_kind_of : Option Json → Option String
error_kind_of (some (obj fs)) = safe_ref_of (get "kind" fs)
error_kind_of _ = none

-- callResultCarriesReceipt
unfoldable pub call_result_carries_receipt : Fields → Bool
call_result_carries_receipt envelope =
    is_result_v2 envelope
    && elim (as_record (get "receipt" envelope)) [ none ↦ false | some _ ↦ true ]

-- receiptSpoolEntryFromCallResult, at a finite time
unfoldable pub receipt_spool_entry_from_call_result : Fields → ℕ → Option Entry
receipt_spool_entry_from_call_result envelope time =
    if is_result_v2 envelope
    then (do
      receipt ← as_record (get "receipt" envelope)
      request_ref ← safe_ref_of (get "request_ref" receipt)
      evidence ← evidence_of (get "evidence" receipt)
      status ← status_of (get "status" envelope)
      some record {
        recorded_at = time;
        request_ref = request_ref;
        status = status;
        evidence = evidence;
        audit_refs = audit_refs_of (get "audit_refs" receipt);
        capability_id = safe_ref_of (get "capability" envelope);
        target_ref = safe_ref_of (get "target" envelope);
        error_kind = error_kind_of (get "error" envelope);
      })
    else none

safe_ref_of-safe : (j : Option Json) → is_absent_or_safe (safe_ref_of j) ≡ true
unfolding safe_ref_of
safe_ref_of-safe j = ground arith

error_kind_of-safe : (j : Option Json) → is_absent_or_safe (error_kind_of j) ≡ true
error_kind_of-safe (some (obj fs)) = safe_ref_of-safe (get "kind" fs)
error_kind_of-safe (some null) = refl
error_kind_of-safe (some (bool _)) = refl
error_kind_of-safe (some (num _)) = refl
error_kind_of-safe (some other_num) = refl
error_kind_of-safe (some (str _)) = refl
error_kind_of-safe (some (arr _)) = refl
error_kind_of-safe none = refl

safe_refs-safe : (vs : Items) → all ceal_safe_ref (safe_refs vs) ≡ true
safe_refs-safe nil = refl
safe_refs-safe (cons v vs) = ground (arith, safe_refs-safe vs)

audit_refs_of-few : (j : Option Json) → leb (length (audit_refs_of j)) max_audit_refs ≡ true
unfolding audit_refs_of
audit_refs_of-few (some (arr vs)) =
    let few : length (take max_audit_refs (safe_refs vs)) ≤ max_audit_refs =
      length-take_le max_audit_refs (safe_refs vs) in
    ground arith
audit_refs_of-few (some null) = refl
audit_refs_of-few (some (bool _)) = refl
audit_refs_of-few (some (num _)) = refl
audit_refs_of-few (some other_num) = refl
audit_refs_of-few (some (str _)) = refl
audit_refs_of-few (some (obj _)) = refl
audit_refs_of-few none = refl

audit_refs_of-safe : (j : Option Json) → all ceal_safe_ref (audit_refs_of j) ≡ true
unfolding audit_refs_of
audit_refs_of-safe (some (arr vs)) =
    all-take ceal_safe_ref max_audit_refs (safe_refs vs) (safe_refs-safe vs)
audit_refs_of-safe (some null) = refl
audit_refs_of-safe (some (bool _)) = refl
audit_refs_of-safe (some (num _)) = refl
audit_refs_of-safe (some other_num) = refl
audit_refs_of-safe (some (str _)) = refl
audit_refs_of-safe (some (obj _)) = refl
audit_refs_of-safe none = refl

-- What a projection has read.
abbrev projected : Fields → ℕ → Fields → String → Evidence → Status → Entry
projected envelope time receipt request_ref evidence status = record {
  recorded_at = time;
  request_ref = request_ref;
  status = status;
  evidence = evidence;
  audit_refs = audit_refs_of (get "audit_refs" receipt);
  capability_id = safe_ref_of (get "capability" envelope);
  target_ref = safe_ref_of (get "target" envelope);
  error_kind = error_kind_of (get "error" envelope);
}

projected-valid :
    (envelope : Fields) (time : ℕ) (receipt : Fields) (r : String) (v : Evidence) (t : Status)
    → ceal_safe_ref r ≡ true
    → is_valid_entry (projected envelope time receipt r v t) ≡ true
unfolding is_valid_entry
projected-valid envelope time receipt r v t safe =
    rw
      (
        safe,
        audit_refs_of-few (get "audit_refs" receipt),
        audit_refs_of-safe (get "audit_refs" receipt),
        safe_ref_of-safe (get "capability" envelope),
        safe_ref_of-safe (get "target" envelope),
        error_kind_of-safe (get "error" envelope),
      )
      refl

-- The steps of the projection, each with what it has read.
record Projects (envelope : Fields) (time : ℕ) (e : Entry) : Type 0 where
  receipt : Fields
  request_ref : String
  evidence : Evidence
  status : Status
  version : is_result_v2 envelope ≡ true
  carried : as_record (get "receipt" envelope) ≡ some receipt
  named : safe_ref_of (get "request_ref" receipt) ≡ some request_ref
  made : projected envelope time receipt request_ref evidence status ≡ e

from_call-Projects :
    (envelope : Fields) (time : ℕ) (e : Entry)
    → receipt_spool_entry_from_call_result envelope time ≡ some e
    → Projects envelope time e
unfolding receipt_spool_entry_from_call_result
from_call-Projects envelope time e h = elim (Bool-cases (is_result_v2 envelope)) [
  | inr x ↦ let no : none ≡ some e = rw (x, receipt_spool_entry_from_call_result) at h in cc
  | inl x ↦ elim (Option-cases (as_record (get "receipt" envelope))) [
    | inl y ↦ let no : none ≡ some e = rw (x, y, receipt_spool_entry_from_call_result) at h in cc
    | inr (receipt, y) ↦ elim (Option-cases (safe_ref_of (get "request_ref" receipt))) [
      | inl z ↦
          let no : none ≡ some e = rw (x, y, z, receipt_spool_entry_from_call_result) at h in cc
      | inr (r, z) ↦ elim (Option-cases (evidence_of (get "evidence" receipt))) [
        | inl v ↦
            let no : none ≡ some e = rw (x, y, z, v, receipt_spool_entry_from_call_result) at h in
            cc
        | inr (evidence, v) ↦ elim (Option-cases (status_of (get "status" envelope))) [
          | inl t ↦
              let no : none ≡ some e =
                rw (x, y, z, v, t, receipt_spool_entry_from_call_result) at h in
              cc
          | inr (status, t) ↦
              let it : some (projected envelope time receipt r evidence status) ≡ some e =
                rw (x, y, z, v, t, receipt_spool_entry_from_call_result) at h in
              record {
                receipt = receipt;
                request_ref = r;
                evidence = evidence;
                status = status;
                version = x;
                carried = y;
                named = z;
                made = cc;
              }
        ]
      ]
    ]
  ]
]

safe_ref_of-some : (j : Option Json) (s : String) → safe_ref_of j ≡ some s → ceal_safe_ref s ≡ true
unfolding safe_ref_of
safe_ref_of-some j s h = ground arith

-- An entry that is projected from a call result is one that `append` accepts, it has the time
-- that was given, and the call result carries a receipt.
pub projected_is_valid :
    (envelope : Fields) (time : ℕ) (e : Entry)
    → receipt_spool_entry_from_call_result envelope time ≡ some e
    → (is_valid_entry e ≡ true)
      × (e.recorded_at ≡ time)
      × (call_result_carries_receipt envelope ≡ true)
unfolding call_result_carries_receipt
projected_is_valid envelope time e h =
    let it : Projects envelope time e = from_call-Projects envelope time e h in
    let safe : ceal_safe_ref it.request_ref ≡ true =
      safe_ref_of-some (get "request_ref" it.receipt) it.request_ref it.named in
    (
      subst (λ x. is_valid_entry x ≡ true) it.made
          (projected-valid envelope time it.receipt it.request_ref it.evidence it.status safe),
      ap (λ x. x.recorded_at) (sym it.made),
      rw (it.version, it.carried) refl,
    )
