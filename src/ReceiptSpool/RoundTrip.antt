-- ===== src/ReceiptSpool/RoundTrip.antt =====
-- A valid entry that is written reads back as itself.
use ceal_cli.Base.{
  ℕ, zero, suc, ap, subst, inl, inr, Option-cases, ◌≤◌, String, List, [], ◌∷◌, take, length, all,
  Option, none, some, true, ◌≡◌, refl, arith, leb, leb→le,
}
use ceal_cli.Base.Json.{Json, str, obj}
use ceal_cli.Platform.{Platform, DatesRoundTrip}
use ceal_cli.SafeRef.{ceal_safe_ref}
use ceal_cli.ReceiptSpool.{
  Status, completed, blocked, error, Evidence, readback_verified, not_read_back,
  readback_unavailable, outcome_unknown, Entry, max_audit_refs, status_text, evidence_text,
  status_of, evidence_of, safe_ref_of, safe_refs, audit_refs_of, is_absent_or_safe, is_valid_entry,
  from_texts, text, serialize_entry, checked, entry_fields, entry_of, parse_entry, ◌>>=◌,
}

status-text : (s : Status) → status_of (some (str (status_text s))) ≡ some s
unfolding status_of
status-text completed = refl
status-text blocked = refl
status-text error = refl

evidence-text : (e : Evidence) → evidence_of (some (str (evidence_text e))) ≡ some e
unfolding evidence_of
evidence-text readback_verified = refl
evidence-text not_read_back = refl
evidence-text readback_unavailable = refl
evidence-text outcome_unknown = refl

safe_ref-text : (o : Option String) → is_absent_or_safe o ≡ true → safe_ref_of (text o) ≡ o
unfolding safe_ref_of
safe_ref-text none h = refl
safe_ref-text (some s) h = rw h refl

safe_refs-texts : (ss : List String) → all ceal_safe_ref ss ≡ true → safe_refs (from_texts ss) ≡ ss
safe_refs-texts [] h = refl
safe_refs-texts (s ∷ ss) h = ground (arith, safe_refs-texts ss)

take-all : {A : Type 0} (n : ℕ) (xs : List A) → length xs ≤ n → take n xs ≡ xs
take-all zero [] h = refl
take-all (suc n) [] h = refl
take-all zero (x ∷ xs) h = absurd (omega arith)
take-all (suc n) (x ∷ xs) h = ap (λ ys. x ∷ ys) (take-all n xs (omega arith))

-- The entry with other references; the required fields and the audit references stay.
abbrev with_refs : Entry → Option String → Option String → Option String → Entry
with_refs e c t k = record e { capability_id = c; target_ref = t; error_kind = k }

-- What is read of the fields that are written.
abbrev read_back : Entry → Entry
read_back e = record e {
  audit_refs = take max_audit_refs (safe_refs (from_texts e.audit_refs));
  capability_id = safe_ref_of (text e.capability_id);
  target_ref = safe_ref_of (text e.target_ref);
  error_kind = safe_ref_of (text e.error_kind);
}

entry_of-fields :
    (time : ℕ) (date : String) (e : Entry) (c t k : Option String)
    → entry_of time (entry_fields date (with_refs e c t k)) ≡ (do
      status ← status_of (some (str (status_text e.status)))
      evidence ← evidence_of (some (str (evidence_text e.evidence)))
      checked (record (read_back (with_refs e c t k)) {
        recorded_at = time;
        status = status;
        evidence = evidence;
      }))
unfolding entry_of audit_refs_of
entry_of-fields time date e none none none = refl
entry_of-fields time date e none none (some _) = refl
entry_of-fields time date e none (some _) none = refl
entry_of-fields time date e none (some _) (some _) = refl
entry_of-fields time date e (some _) none none = refl
entry_of-fields time date e (some _) none (some _) = refl
entry_of-fields time date e (some _) (some _) none = refl
entry_of-fields time date e (some _) (some _) (some _) = refl

read_back-valid : (e : Entry) → is_valid_entry e ≡ true → read_back e ≡ e
unfolding is_valid_entry
read_back-valid e h =
    let many : leb (length e.audit_refs) max_audit_refs ≡ true = ground arith in
    let safe : all ceal_safe_ref e.audit_refs ≡ true = ground arith in
    rw
      (
        safe_refs-texts e.audit_refs safe,
        take-all max_audit_refs e.audit_refs (leb→le _ _ many),
        safe_ref-text e.capability_id (ground arith),
        safe_ref-text e.target_ref (ground arith),
        safe_ref-text e.error_kind (ground arith),
      )
      refl

-- An entry that isValidEntry accepts reads back from its record in the spool as itself.
pub parse-serialize_entry :
    (p : Platform) (e : Entry) (j : Json)
    → DatesRoundTrip p
    → is_valid_entry e ≡ true
    → serialize_entry p e ≡ some j
    → parse_entry p j ≡ some e
unfolding serialize_entry parse_entry
parse-serialize_entry p e j dates valid h = elim (Option-cases (p.format_date e.recorded_at)) [
  | inl x ↦ let no : none ≡ some j = rw (x, serialize_entry) at h in cc
  | inr (date, x) ↦
      let j_def : some (obj (entry_fields date e)) ≡ some j = rw (x, serialize_entry) at h in
      let same : obj (entry_fields date e) ≡ j = cc in
      subst (λ z. parse_entry p z ≡ some e) same (parse-written date x)
]
  where
    parse-written :
        (date : String)
        → p.format_date e.recorded_at ≡ some date
        → parse_entry p (obj (entry_fields date e)) ≡ some e
    parse-written date x =
        rw
          (
            dates e.recorded_at date x,
            entry_of-fields e.recorded_at date e e.capability_id e.target_ref e.error_kind,
            status-text e.status,
            evidence-text e.evidence,
            read_back-valid e valid,
            valid,
          )
          refl
