-- ===== src/Session.antt =====
-- packages/ceal-worker-cli/src/profile-store.ts: the stored session, its validation, its JSON
-- form, and the compare-and-set write. Child modules: the round trip, the identity bindings, and
-- the three transitions over the store (renewal, replacement by an enrollment, logout).
pub mod Record
pub mod Identity
pub mod Failure
pub mod World
pub mod Renewal
pub mod Replacement
pub mod Logout
use ceal_cli.Base.{
  ℕ, String, List, [], ◌∷◌, ◌++◌, Option, none, some, Bool, true, false, not, ◌&&◌, ◌||◌, ◌==◌,
  str_eq, codes, is_token_char, prefixed_token, same_texts, sort, if◌then◌else◌,
}
use ceal_cli.Base.Json
use ceal_cli.Base.Json.{Json, Fields, str, obj, field, end, get, as_text, optional_field}
use ceal_cli.Base.Outcome.{Outcome, ok, err, ◌>>=◌}
use ceal_cli.Platform.{Platform}
use ceal_cli.SafeRef.{ceal_safe_ref}
use ceal_cli.Endpoint.{is_safe_endpoint}

-- CealSessionStoreError's codes
pub data StoreError : Type 0 where
  home_unavailable refresh_busy unsafe_store invalid_store : StoreError

-- renewalBlockedReason
pub data BlockedReason : Type 0 where
  outcome_unknown refresh_invalid refresh_expired refresh_replayed refresh_revoked : BlockedReason

abbrev pub reason_text : BlockedReason → String
reason_text outcome_unknown = "outcome_unknown"
reason_text refresh_invalid = "refresh_invalid"
reason_text refresh_expired = "refresh_expired"
reason_text refresh_replayed = "refresh_replayed"
reason_text refresh_revoked = "refresh_revoked"

-- CealStoredSession
pub record StoredSession : Type 0 where
  pub gateway_endpoint : String
  pub profile_ref : String
  pub membership_ref : String
  pub registration_ref : String
  pub client_ref : String
  pub subject_ref : String
  pub instance_ref : String
  pub access_token : String
  pub expires_at : String
  pub refresh_token : String
  pub refresh_token_idle_expires_at : String
  pub refresh_token_absolute_expires_at : String
  pub refresh_attempt_ref : Option String
  pub renewal_blocked_reason : Option BlockedReason

-- CandidateSession: the same fields before they are known to be texts; none is undefined
pub record CandidateSession : Type 0 where
  pub gateway_endpoint : Option Json
  pub profile_ref : Option Json
  pub membership_ref : Option Json
  pub registration_ref : Option Json
  pub client_ref : Option Json
  pub subject_ref : Option Json
  pub instance_ref : Option Json
  pub access_token : Option Json
  pub expires_at : Option Json
  pub refresh_token : Option Json
  pub refresh_token_idle_expires_at : Option Json
  pub refresh_token_absolute_expires_at : Option Json
  pub refresh_attempt_ref : Option Json
  pub renewal_blocked_reason : Option Json

abbrev pub text_field : Option String → Option Json
text_field none = none
text_field (some s) = some (str s)

abbrev pub reason_field : Option BlockedReason → Option Json
reason_field none = none
reason_field (some r) = some (str (reason_text r))

-- A session as a candidate: what `validateSession(session)` receives.
abbrev pub candidate : StoredSession → CandidateSession
candidate s = record {
  gateway_endpoint = some (str s.gateway_endpoint);
  profile_ref = some (str s.profile_ref);
  membership_ref = some (str s.membership_ref);
  registration_ref = some (str s.registration_ref);
  client_ref = some (str s.client_ref);
  subject_ref = some (str s.subject_ref);
  instance_ref = some (str s.instance_ref);
  access_token = some (str s.access_token);
  expires_at = some (str s.expires_at);
  refresh_token = some (str s.refresh_token);
  refresh_token_idle_expires_at = some (str s.refresh_token_idle_expires_at);
  refresh_token_absolute_expires_at = some (str s.refresh_token_absolute_expires_at);
  refresh_attempt_ref = text_field s.refresh_attempt_ref;
  renewal_blocked_reason = reason_field s.renewal_blocked_reason;
}

-- REFRESH_ATTEMPT_REF
unfoldable pub is_refresh_attempt_ref : String → Bool
is_refresh_attempt_ref s = prefixed_token (codes "ceal_refresh_attempt_") is_token_char 43 (codes s)

unfoldable pub is_access_token : String → Bool
is_access_token s = prefixed_token (codes "ceal_personal_") is_token_char 43 (codes s)

unfoldable pub is_refresh_token : String → Bool
is_refresh_token s = prefixed_token (codes "ceal_refresh_") is_token_char 43 (codes s)

-- typeof value === "string" && test(value)
abbrev pub text_with : (String → Bool) → Option Json → Bool
text_with test (some (str s)) = test s
text_with test _ = false

abbrev pub is_text_reason : BlockedReason → Option Json → Bool
is_text_reason r = text_with (λ s. str_eq s (reason_text r))

unfoldable pub valid_blocked_reason : Option Json → Bool
valid_blocked_reason v =
    is_text_reason outcome_unknown v
    || is_text_reason refresh_invalid v
    || is_text_reason refresh_expired v
    || is_text_reason refresh_replayed v
    || is_text_reason refresh_revoked v

abbrev pub require : Bool → Outcome StoreError (Unit {0})
require true = ok tt
require false = err invalid_store

unfoldable pub valid_session_references : CandidateSession → Bool
valid_session_references v =
    text_with ceal_safe_ref v.profile_ref
    && text_with ceal_safe_ref v.membership_ref
    && text_with ceal_safe_ref v.registration_ref
    && text_with ceal_safe_ref v.client_ref
    && text_with ceal_safe_ref v.subject_ref
    && text_with ceal_safe_ref v.instance_ref

-- The last test of validateSession: an attempt goes with the reason `outcome_unknown` alone.
unfoldable pub valid_attempt : CandidateSession → Bool
valid_attempt v = elim v.refresh_attempt_ref [
  | none ↦ true
  | some a ↦
      text_with is_refresh_attempt_ref (some a)
      && is_text_reason outcome_unknown v.renewal_blocked_reason
]

module _ (p : Platform) where
  -- Number.isFinite(Date.parse(value)), on a text
  abbrev pub is_date : String → Bool
  is_date s = elim (p.parse_date s) [ none ↦ false | some _ ↦ true ]

  unfoldable pub valid_base_session : CandidateSession → Bool
  valid_base_session v =
      text_with (is_safe_endpoint p.parse_url) v.gateway_endpoint
      && text_with is_access_token v.access_token
      && text_with is_date v.expires_at

  unfoldable pub valid_refresh_session : CandidateSession → Bool
  valid_refresh_session v =
      text_with is_refresh_token v.refresh_token
      && text_with is_date v.refresh_token_idle_expires_at
      && text_with is_date v.refresh_token_absolute_expires_at

  unfoldable pub validate_session : CandidateSession → Outcome StoreError (Unit {0})
  validate_session v = require (valid_base_session v) >>= λ _.
      require (valid_refresh_session v) >>= λ _.
      require (valid_session_references v) >>= λ _. require (valid_attempt v)
