-- ===== src/Session/Record.antt =====
-- packages/ceal-worker-cli/src/profile-store.ts: serializeSession and parseSession, the three
-- schema versions of the stored record.
pub mod RoundTrip
pub mod ReadBack
use ceal_cli.Base.{
  String, List, [], ◌∷◌, ◌++◌, Option, none, some, Bool, true, false, str_eq, same_texts, sort,
  if◌then◌else◌,
}
use ceal_cli.Base.Json
use ceal_cli.Base.Json.{Json, Fields, str, obj, field, end, get, as_text, optional_field}
use ceal_cli.Base.Outcome.{Outcome, ok, err, ◌>>=◌}
use ceal_cli.Platform.{Platform}
use ceal_cli.Session.{
  StoredSession, CandidateSession, StoreError, invalid_store, BlockedReason, outcome_unknown,
  refresh_invalid, refresh_expired, refresh_replayed, refresh_revoked, text_field, reason_field,
  text_with, is_refresh_attempt_ref, valid_blocked_reason, require, validate_session,
}

abbrev pub schema_v1 : String
schema_v1 = "ceal.client_session_store.v1"

abbrev pub schema_v2 : String
schema_v2 = "ceal.client_session_store.v2"

abbrev pub schema_v3 : String
schema_v3 = "ceal.client_session_store.v3"

abbrev pub session_schema : Option String → Option BlockedReason → String
session_schema (some a) r = schema_v3
session_schema none (some r) = schema_v2
session_schema none none = schema_v1

unfoldable pub serialize_session : StoredSession → Fields
serialize_session s =
    field "schema_version" (str (session_schema s.refresh_attempt_ref s.renewal_blocked_reason)) (
      field "gateway_endpoint" (str s.gateway_endpoint) (
        field "profile_ref" (str s.profile_ref) (
          field "membership_ref" (str s.membership_ref) (
            field "registration_ref" (str s.registration_ref) (
              field "client_ref" (str s.client_ref) (
                field "subject_ref" (str s.subject_ref) (
                  field "instance_ref" (str s.instance_ref) (
                    field "access_token" (str s.access_token) (
                      field "expires_at" (str s.expires_at) (
                        field "refresh_token" (str s.refresh_token) (
                          field "refresh_token_idle_expires_at"
                            (str s.refresh_token_idle_expires_at)
                            (field "refresh_token_absolute_expires_at"
                              (str s.refresh_token_absolute_expires_at)
                              (optional_field "refresh_attempt_ref"
                                (text_field s.refresh_attempt_ref)
                                (optional_field "renewal_blocked_reason"
                                  (reason_field s.renewal_blocked_reason) end))))))))))))))

abbrev pub base_keys : List String
base_keys =
    "access_token" ∷ "client_ref" ∷ "expires_at" ∷ "gateway_endpoint" ∷ "instance_ref"
    ∷ "membership_ref" ∷ "profile_ref" ∷ "refresh_token" ∷ "refresh_token_absolute_expires_at"
    ∷ "refresh_token_idle_expires_at" ∷ "registration_ref" ∷ "schema_version" ∷ "subject_ref" ∷ []

data Schema : Type 0 where
  v1 v2 v3 : Schema

-- The tests of `record.schema_version` against the three constants; none is any other value.
schema_of : Option Json → Option Schema
schema_of (some (str s)) =
    if str_eq s schema_v3
    then some v3
    else if str_eq s schema_v2
    then some v2
    else if str_eq s schema_v1
    then some v1
    else none
schema_of _ = none

expected_keys : Schema → List String
expected_keys v1 = base_keys
expected_keys v2 = base_keys ++ "renewal_blocked_reason" ∷ []
expected_keys v3 = base_keys ++ "refresh_attempt_ref" ∷ "renewal_blocked_reason" ∷ []

-- The object that parseSession builds from the record.
candidate_of : Schema → Fields → CandidateSession
candidate_of v r = record {
  gateway_endpoint = get "gateway_endpoint" r;
  profile_ref = get "profile_ref" r;
  membership_ref = get "membership_ref" r;
  registration_ref = get "registration_ref" r;
  client_ref = get "client_ref" r;
  subject_ref = get "subject_ref" r;
  instance_ref = get "instance_ref" r;
  access_token = get "access_token" r;
  expires_at = get "expires_at" r;
  refresh_token = get "refresh_token" r;
  refresh_token_idle_expires_at = get "refresh_token_idle_expires_at" r;
  refresh_token_absolute_expires_at = get "refresh_token_absolute_expires_at" r;
  refresh_attempt_ref = elim v [ v3 ↦ get "refresh_attempt_ref" r | _ ↦ none ];
  renewal_blocked_reason = elim v [ v1 ↦ none | _ ↦ get "renewal_blocked_reason" r ];
}

-- The two tests that the second and third schema add before validateSession.
blocked_reason_present : Schema → Fields → Bool
blocked_reason_present v1 r = true
blocked_reason_present _ r = valid_blocked_reason (get "renewal_blocked_reason" r)

attempt_present : Schema → Fields → Bool
attempt_present v3 r = text_with is_refresh_attempt_ref (get "refresh_attempt_ref" r)
attempt_present _ r = true

-- `session as CealStoredSession`: the cast of a validated candidate.
text_or_empty : Option Json → String
text_or_empty (some (str s)) = s
text_or_empty _ = ""

pub reason_of : Option Json → Option BlockedReason
reason_of (some (str s)) =
    if str_eq s "outcome_unknown"
    then some outcome_unknown
    else if str_eq s "refresh_invalid"
    then some refresh_invalid
    else if str_eq s "refresh_expired"
    then some refresh_expired
    else if str_eq s "refresh_replayed"
    then some refresh_replayed
    else if str_eq s "refresh_revoked"
    then some refresh_revoked
    else none
reason_of _ = none

pub as_session : CandidateSession → StoredSession
unfolding text_or_empty reason_of
as_session v = record {
  gateway_endpoint = text_or_empty v.gateway_endpoint;
  profile_ref = text_or_empty v.profile_ref;
  membership_ref = text_or_empty v.membership_ref;
  registration_ref = text_or_empty v.registration_ref;
  client_ref = text_or_empty v.client_ref;
  subject_ref = text_or_empty v.subject_ref;
  instance_ref = text_or_empty v.instance_ref;
  access_token = text_or_empty v.access_token;
  expires_at = text_or_empty v.expires_at;
  refresh_token = text_or_empty v.refresh_token;
  refresh_token_idle_expires_at = text_or_empty v.refresh_token_idle_expires_at;
  refresh_token_absolute_expires_at = text_or_empty v.refresh_token_absolute_expires_at;
  refresh_attempt_ref = as_text v.refresh_attempt_ref;
  renewal_blocked_reason = reason_of v.renewal_blocked_reason;
}

module _ (p : Platform) where
  parse_schema : Schema → Fields → Outcome StoreError StoredSession
  unfolding expected_keys candidate_of blocked_reason_present attempt_present
  parse_schema v r = require (same_texts (sort (Json.keys r)) (sort (expected_keys v))) >>= λ _.
      require (blocked_reason_present v r) >>= λ _. require (attempt_present v r) >>= λ _.
      validate_session p (candidate_of v r) >>= λ _. ok (as_session (candidate_of v r))

  pub parse_session : Json → Outcome StoreError StoredSession
  unfolding schema_of parse_schema
  parse_session (obj r) = elim (schema_of (get "schema_version" r)) [
    | none ↦ err invalid_store
    | some v ↦ parse_schema v r
  ]
  parse_session _ = err invalid_store
