-- ===== src/Adoption.antt =====
-- packages/ceal-worker-cli/src/device-adoption.ts: `ceal session adopt`. The Gateway's answers, the
-- protocol's checks of them, the keys, the decryption and the clock are parameters. The log holds
-- what the command shows and sends, the latest entry first.
pub mod Polling
pub mod Waits
pub mod Bound
pub mod Explained
use ceal_cli.Base.{
  ℕ, String, List, [], ◌∷◌, Option, none, some, Bool, true, false, not, ◌&&◌, str_eq, has,
  if◌then◌else◌,
}
use ceal_cli.Base.Json.{Json}
use ceal_cli.Base.Outcome.{Outcome, ok, err}
use ceal_cli.Endpoint.{Url, is_empty}
use ceal_cli.NamedOptions
use ceal_cli.NamedOptions.{Parsed}
use ceal_cli.Session.{StoredSession}
use ceal_cli.Session.Failure.{Thrown}
use ceal_cli.Session.World.{World, load}
use ceal_cli.Session.Replacement.{Dependencies, SessionCommit, commit_enrolled_session}
use ceal_cli.Adoption.Polling.{
  Entry, started_request, presented, opened, Clock, Wait, Phase, at_start, transport_outcome,
  WaitEnd, gave_up, delivered, Delivery, wait,
}

-- What parseAdoptionOptions returns
pub record AdoptionOptions : Type 0 where
  pub gateway : String
  pub origin : String
  pub email : String
  pub force : Bool

-- CealDeviceEnrollmentStartResult
pub record Started : Type 0 where
  pub transaction_ref : String
  pub registration_ref : String
  pub challenge : Json
  pub browser_session_url : String

pub record Keys : Type 0 where
  pub proof_public_key : String
  pub recipient_public_key : String
  pub recipient_private_key : String

-- What decodeCealDeviceEnrollmentSealedPayload returns
pub record SealedPayload : Type 0 where
  pub profile_ref : String
  pub membership_ref : String
  pub registration_ref : String
  pub client_ref : String
  pub subject_ref : String
  pub instance_ref : String
  pub access_token : String
  pub expires_at : String
  pub refresh_token : String
  pub refresh_token_idle_expires_at : String
  pub refresh_token_absolute_expires_at : String

pub record Host : Type 0 where
  pub parse_url : String → Option Url
  -- url.origin
  pub origin_of : Url → String
  -- runtime.session
  pub session : Option Dependencies
  pub keys : Keys
  pub clock : Clock
  -- client.start; an error is the code of a CealDeviceAdoptionClientError, if it is one
  pub start_reply : Outcome (Option String) Started
  -- assertCealDeviceEnrollmentStartExpectation
  pub start_bound : Started → String → Keys → Bool
  -- assertCealDeviceEnrollmentDeliveryExpectation
  pub delivery_bound : Json → String → Started → Keys → Bool
  -- openCealHpkeMessage, and the decoder of its plaintext
  pub open_sealed : String → Delivery → Option String
  pub decode_payload : String → Option SealedPayload
  -- assertCealDeviceEnrollmentSealedPayloadBinding
  pub payload_bound : Json → SealedPayload → Bool

-- What the command reports: an error with its kind and exit code, or the outcome of the commit.
pub data AdoptionResult : Type 0 where
  refused : String → AdoptionResult
  bad_usage : AdoptionResult
  finished : SessionCommit → AdoptionResult

abbrev pub value_of : String → List (String × String) → Option String
value_of k [] = none
value_of k ((j, v) ∷ vs) = if str_eq j k then some v else value_of k vs

abbrev pub checked_origin : (Url → String) → Option Url → Option String
checked_origin origin_of none = none
checked_origin origin_of (some u) =
    if str_eq u.protocol "https:"
      && is_empty u.username
      && is_empty u.password
      && is_empty u.search
      && is_empty u.hash
      && not (is_empty (origin_of u))
    then some (origin_of u)
    else none

abbrev pub options_of :
    (String → Option String) → Bool → Option String → Option String → Option AdoptionOptions
options_of origin force (some gateway) (some email) = elim (origin gateway) [
  | none ↦ none
  | some o ↦ some record { gateway = gateway; origin = o; email = email; force = force }
]
options_of origin force _ _ = none

abbrev pub no_operands : List String → Bool
no_operands [] = true
no_operands _ = false

module _ (h : Host) where
  -- gatewayOrigin
  abbrev pub gateway_origin : String → Option String
  gateway_origin value = checked_origin h.origin_of (h.parse_url value)

  abbrev pub adoption_options_of : Option Parsed → Option AdoptionOptions
  adoption_options_of none = none
  adoption_options_of (some parsed) =
      if no_operands parsed.operands
      then options_of gateway_origin (has parsed.flags "--force")
          (value_of "--gateway" parsed.values) (value_of "--email" parsed.values)
      else none

  -- parseAdoptionOptions
  unfoldable pub parse_adoption_options : List String → Option AdoptionOptions
  parse_adoption_options options =
      adoption_options_of
        (NamedOptions.parse_named_options ("--gateway" ∷ "--email" ∷ []) ("--force" ∷ []) options)

-- The session that a payload makes.
abbrev pub stored_of : String → SealedPayload → StoredSession
stored_of gateway p = record {
  gateway_endpoint = gateway;
  profile_ref = p.profile_ref;
  membership_ref = p.membership_ref;
  registration_ref = p.registration_ref;
  client_ref = p.client_ref;
  subject_ref = p.subject_ref;
  instance_ref = p.instance_ref;
  access_token = p.access_token;
  expires_at = p.expires_at;
  refresh_token = p.refresh_token;
  refresh_token_idle_expires_at = p.refresh_token_idle_expires_at;
  refresh_token_absolute_expires_at = p.refresh_token_absolute_expires_at;
  refresh_attempt_ref = none;
  renewal_blocked_reason = none;
}

-- How a command ends: its result or a thrown error, the session's state, and the log.
pub record Ended : Type 0 where
  pub result : Outcome Thrown AdoptionResult
  pub world : World
  pub log : List Entry

abbrev pub refuse : String → World → List Entry → Ended
refuse code w log = record { result = ok (refused code); world = w; log = log }

abbrev pub report_commit : List Entry → Outcome Thrown SessionCommit × World → Ended
report_commit log (ok c, w) = record { result = ok (finished c); world = w; log = log }
report_commit log (err e, w) = record { result = err e; world = w; log = log }

module _ (h : Host) (d : Dependencies) (a : AdoptionOptions) (s : Started) where
  abbrev pub commit_payload : Json → World → List Entry → Option SealedPayload → Ended
  commit_payload binding w log none = refuse "sealed_payload_rejected" w log
  commit_payload binding w log (some payload) =
      if h.payload_bound binding payload
      then report_commit log (commit_enrolled_session d (stored_of a.gateway payload) a.force w)
      else refuse "sealed_payload_rejected" w log

  abbrev pub read_plaintext : Json → World → List Entry → Option String → Ended
  read_plaintext binding w log none = refuse "sealed_open_failed" w log
  read_plaintext binding w log (some plaintext) =
      commit_payload binding w log (h.decode_payload plaintext)

  -- completeAdoption
  unfoldable pub complete_adoption : Delivery → World → List Entry → Ended
  complete_adoption v w log =
      if h.delivery_bound v.binding a.origin s h.keys
      then read_plaintext v.binding w (opened v ∷ log)
          (h.open_sealed h.keys.recipient_private_key v)
      else refuse "delivery_binding_mismatch" w log

  abbrev pub after_polling : World → Option (WaitEnd × Wait) → Option Ended
  after_polling w none = none
  after_polling w (some (gave_up code, t)) = some (refuse code w t.log)
  after_polling w (some (delivered v, t)) = some (complete_adoption v w t.log)

module _ (h : Host) (fuel : ℕ) where
  -- From the Gateway's answer to the start request
  abbrev pub after_start :
      Dependencies
      → AdoptionOptions
      → World
      → List Entry
      → Outcome (Option String) Started
      → Option Ended
  after_start d a w log (err e) = some (refuse (transport_outcome at_start e) w log)
  after_start d a w log (ok s) =
      if h.start_bound s a.origin h.keys
      then after_polling h d a s w (wait h.clock fuel (presented s.browser_session_url ∷ log))
      else some (refuse "start_binding_mismatch" w log)

  abbrev pub after_load :
      Dependencies → AdoptionOptions → Outcome Thrown (Option StoredSession) × World → Option Ended
  after_load d a (err _, w) = some (refuse "session_load_failed" w [])
  after_load d a (ok _, w) = after_start d a w (started_request a.email ∷ []) h.start_reply

  abbrev pub after_session : AdoptionOptions → World → Option Dependencies → Option Ended
  after_session a w none = some (refuse "session_runtime_unavailable" w [])
  after_session a w (some d) = after_load d a (load d.faults w)

  abbrev pub after_options : World → Option AdoptionOptions → Option Ended
  after_options w none = some record { result = ok bad_usage; world = w; log = [] }
  after_options w (some a) = after_session a w h.session

  -- adoptSession; none where the fuel of the wait runs out
  unfoldable pub adopt_session : List String → World → Option Ended
  adopt_session options w = after_options w (parse_adoption_options h options)
