-- ===== src/Session/Record/ReadBack.antt =====
-- What a read returns may be written again: the validation of a record carries over to the session
-- that it is cast to.
use ceal_cli.Base.{
  String, Option, none, some, Bool, true, false, ◌≡◌, refl, arith, inl, inr, Option-cases, eq_iff,
}
use ceal_cli.Base.Json.{Json, Fields, obj, get, str, as_text, null}
use ceal_cli.Base.Outcome.{Outcome, ok, err, ◌>>=◌}
use ceal_cli.Platform.{Platform}
use ceal_cli.Endpoint.{is_safe_endpoint}
use ceal_cli.SafeRef.{ceal_safe_ref}
use ceal_cli.Session.{
  StoredSession, CandidateSession, StoreError, candidate, validate_session, valid_base_session,
  valid_refresh_session, valid_session_references, is_date, is_access_token, is_refresh_token,
  require, valid_blocked_reason, text_with, is_refresh_attempt_ref, reason_field, text_field,
}
use ceal_cli.Session.Record.{
  Schema, v1, v2, v3, parse_session, parse_schema, schema_of, candidate_of, blocked_reason_present,
  attempt_present, as_session, reason_of, text_or_empty,
}

text_eq :
    (test : String → Bool) (v : Option Json)
    → text_with test v ≡ true
    → some (str (text_or_empty v)) ≡ v
unfolding text_or_empty
text_eq test none h = cc
text_eq test (some (str s)) h = refl
text_eq test (some null) h = cc
text_eq test (some _) h = cc

reason_eq : (v : Option Json) → valid_blocked_reason v ≡ true → reason_field (reason_of v) ≡ v
unfolding valid_blocked_reason reason_of
reason_eq none h = cc
reason_eq (some (str s)) h = ground (
  arith,
  eq_iff s "outcome_unknown",
  eq_iff s "refresh_invalid",
  eq_iff s "refresh_expired",
  eq_iff s "refresh_replayed",
  eq_iff s "refresh_revoked",
)
reason_eq (some null) h = cc
reason_eq (some _) h = cc

attempt_eq :
    (v : Option Json) → text_with is_refresh_attempt_ref v ≡ true → text_field (as_text v) ≡ v
attempt_eq none h = cc
attempt_eq (some (str s)) h = refl
attempt_eq (some null) h = cc
attempt_eq (some _) h = cc

module _ (p : Platform) (v : CandidateSession) (valid : validate_session p v ≡ ok tt) where
  groups :
      (valid_base_session p v ≡ true)
      × (valid_refresh_session p v ≡ true)
      × (valid_session_references v ≡ true)
  unfolding validate_session
  groups = ground arith

  base_texts :
      (some (str (text_or_empty v.gateway_endpoint)) ≡ v.gateway_endpoint)
      × (some (str (text_or_empty v.access_token)) ≡ v.access_token)
      × (some (str (text_or_empty v.expires_at)) ≡ v.expires_at)
  unfolding valid_base_session
  base_texts =
      let g = groups in
      (
        text_eq (is_safe_endpoint p.parse_url) v.gateway_endpoint (ground arith),
        text_eq is_access_token v.access_token (ground arith),
        text_eq (is_date p) v.expires_at (ground arith),
      )

  refresh_texts :
      (some (str (text_or_empty v.refresh_token)) ≡ v.refresh_token)
      × (some (str (text_or_empty v.refresh_token_idle_expires_at))
          ≡ v.refresh_token_idle_expires_at)
      × (some (str (text_or_empty v.refresh_token_absolute_expires_at))
          ≡ v.refresh_token_absolute_expires_at)
  unfolding valid_refresh_session
  refresh_texts =
      let g = groups in
      (
        text_eq is_refresh_token v.refresh_token (ground arith),
        text_eq (is_date p) v.refresh_token_idle_expires_at (ground arith),
        text_eq (is_date p) v.refresh_token_absolute_expires_at (ground arith),
      )

  reference_texts :
      (some (str (text_or_empty v.profile_ref)) ≡ v.profile_ref)
      × (some (str (text_or_empty v.membership_ref)) ≡ v.membership_ref)
      × (some (str (text_or_empty v.registration_ref)) ≡ v.registration_ref)
      × (some (str (text_or_empty v.client_ref)) ≡ v.client_ref)
      × (some (str (text_or_empty v.subject_ref)) ≡ v.subject_ref)
      × (some (str (text_or_empty v.instance_ref)) ≡ v.instance_ref)
  unfolding valid_session_references
  reference_texts =
      let g = groups in
      (
        text_eq ceal_safe_ref v.profile_ref (ground arith),
        text_eq ceal_safe_ref v.membership_ref (ground arith),
        text_eq ceal_safe_ref v.registration_ref (ground arith),
        text_eq ceal_safe_ref v.client_ref (ground arith),
        text_eq ceal_safe_ref v.subject_ref (ground arith),
        text_eq ceal_safe_ref v.instance_ref (ground arith),
      )

  -- A validated candidate is the candidate of the session that it is cast to.
  candidate-as_session :
      text_field (as_text v.refresh_attempt_ref) ≡ v.refresh_attempt_ref
      → reason_field (reason_of v.renewal_blocked_reason) ≡ v.renewal_blocked_reason
      → candidate (as_session v) ≡ v
  unfolding as_session
  candidate-as_session a r = λ i. record {
    gateway_endpoint = base_texts.0 i;
    profile_ref = reference_texts.0 i;
    membership_ref = reference_texts.1 i;
    registration_ref = reference_texts.2 i;
    client_ref = reference_texts.3 i;
    subject_ref = reference_texts.4 i;
    instance_ref = reference_texts.5 i;
    access_token = base_texts.1 i;
    expires_at = base_texts.2 i;
    refresh_token = refresh_texts.0 i;
    refresh_token_idle_expires_at = refresh_texts.1 i;
    refresh_token_absolute_expires_at = refresh_texts.2 i;
    refresh_attempt_ref = a i;
    renewal_blocked_reason = r i;
  }

candidate_attempt_eq :
    (v : Schema) (r : Fields)
    → attempt_present v r ≡ true
    → text_field (as_text (candidate_of v r).refresh_attempt_ref)
      ≡ (candidate_of v r).refresh_attempt_ref
unfolding attempt_present candidate_of
candidate_attempt_eq v1 r h = refl
candidate_attempt_eq v2 r h = refl
candidate_attempt_eq v3 r h = attempt_eq _ h

candidate_reason_eq :
    (v : Schema) (r : Fields)
    → blocked_reason_present v r ≡ true
    → reason_field (reason_of (candidate_of v r).renewal_blocked_reason)
      ≡ (candidate_of v r).renewal_blocked_reason
unfolding blocked_reason_present candidate_of reason_of
candidate_reason_eq v1 r h = refl
candidate_reason_eq v2 r h = reason_eq _ h
candidate_reason_eq v3 r h = reason_eq _ h

-- What a successful read has checked.
record Checked (p : Platform) (v : Schema) (r : Fields) (s : StoredSession) : Type 0 where
  blocked : blocked_reason_present v r ≡ true
  attempt : attempt_present v r ≡ true
  valid : validate_session p (candidate_of v r) ≡ ok tt
  cast : s ≡ as_session (candidate_of v r)

require-bind {ℓ} :
    {A : Type ℓ} (b : Bool) (m : Outcome StoreError A) {a : A}
    → (require b >>= λ _. m) ≡ ok a
    → (b ≡ true) × (m ≡ ok a)
require-bind true m h = (refl, h)
require-bind false m h = cc

valid-bind {ℓ} :
    {A : Type ℓ} (v : Outcome StoreError (Unit {0})) (m : Outcome StoreError A) {a : A}
    → (v >>= λ _. m) ≡ ok a
    → (v ≡ ok tt) × (m ≡ ok a)
valid-bind (ok tt) m h = (refl, h)
valid-bind (err e) m h = cc

module _ (p : Platform) where
  parse_schema-Checked :
      (v : Schema) (r : Fields) (s : StoredSession) → parse_schema p v r ≡ ok s → Checked p v r s
  unfolding parse_schema
  parse_schema-Checked v r s h =
      let (_, blocked_on) = require-bind _ _ h in
      let (b, attempt_on) = require-bind _ _ blocked_on in
      let (a, valid_on) = require-bind _ _ attempt_on in
      let (ok_valid, last) = valid-bind _ _ valid_on in
      record { blocked = b; attempt = a; valid = ok_valid; cast = ground arith }

  Checked-valid :
      (v : Schema) (r : Fields) (s : StoredSession)
      → Checked p v r s
      → validate_session p (candidate s) ≡ ok tt
  Checked-valid v r s c =
      rw
        (
          c.cast,
          candidate-as_session p (candidate_of v r) c.valid (candidate_attempt_eq v r c.attempt)
              (candidate_reason_eq v r c.blocked),
        )
        c.valid

  -- Whatever parseSession returns passes the validation that a write makes.
  pub parse_session-valid :
      (j : Json) (s : StoredSession)
      → parse_session p j ≡ ok s
      → validate_session p (candidate s) ≡ ok tt
  unfolding parse_session
  parse_session-valid (obj r) s h = elim (Option-cases (schema_of (get "schema_version" r))) [
    | inl e ↦ cc (rw (e, parse_session) at h)
    | inr (v, e) ↦ Checked-valid v r s (parse_schema-Checked v r s (rw (e, parse_session) at h))
  ]
  parse_session-valid null s h = cc
  parse_session-valid _ s h = cc
