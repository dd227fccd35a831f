-- ===== src/Tests/Data.antt =====
-- Sessions, platforms and hosts of the tests.
use ceal_cli.Base.{
  ℕ, String, [], Option, none, some, true, str_eq, ◌==◌, ==_iff, ◌≡◌, refl, Bool-cases, inl, inr,
  if◌then◌else◌,
}
use ceal_cli.Endpoint.{Url, is_safe_endpoint}
use ceal_cli.SafeRef.{ceal_safe_ref}
use ceal_cli.Platform.{Platform, DatesRoundTrip}
use ceal_cli.Session.{
  StoredSession, validate_session, candidate, valid_base_session, valid_refresh_session,
  valid_session_references, valid_attempt, is_access_token, is_refresh_token,
}
use ceal_cli.Session.World.{World, Faults}
use ceal_cli.Session.Renewal.{Host, RotationResponse, rotated}
use ceal_cli.Session.Replacement.{Dependencies, accepted}
use ceal_cli.Base.Outcome.{ok}

abbrev gateway_url : Url
gateway_url = record {
  protocol = "https:";
  username = "";
  password = "";
  hostname = "gateway.example";
  pathname = "/";
  search = "";
  hash = "";
}

abbrev pub parse_gateway : String → Option Url
parse_gateway s = if str_eq s "https://gateway.example" then some gateway_url else none

abbrev pub tomorrow : String
tomorrow = "2026-01-02T00:00:00.000Z"

abbrev pub tomorrow_ms : ℕ
tomorrow_ms = 1767312000000

-- A platform that knows one address and one date.
abbrev pub platform : Platform
platform = record {
  parse_url = parse_gateway;
  parse_date = λ s. if str_eq s tomorrow then some tomorrow_ms else none;
  format_date = λ t. if t == tomorrow_ms then some tomorrow else none;
}

pub platform-DatesRoundTrip : DatesRoundTrip platform
platform-DatesRoundTrip t s h = elim (Bool-cases (t == tomorrow_ms)) [
  | inl e ↦
      let time : t ≡ tomorrow_ms = (==_iff t tomorrow_ms).0 e in
      let written : some tomorrow ≡ some s = rw e at h in
      let date : tomorrow ≡ s = cc in rw (← date, time) refl
  | inr e ↦ let no : none ≡ some s = rw e at h in cc
]

abbrev pub session : StoredSession
session = record {
  gateway_endpoint = "https://gateway.example";
  profile_ref = "profile:1";
  membership_ref = "membership:1";
  registration_ref = "registration:1";
  client_ref = "client:1";
  subject_ref = "subject:1";
  instance_ref = "instance:1";
  access_token = "ceal_personal_aaaaaaaaaaaaaaaaaaaaaaaaaaaaaaaaaaaaaaaaaaa";
  expires_at = "2026-01-02T00:00:00.000Z";
  refresh_token = "ceal_refresh_aaaaaaaaaaaaaaaaaaaaaaaaaaaaaaaaaaaaaaaaaaa";
  refresh_token_idle_expires_at = "2026-01-02T00:00:00.000Z";
  refresh_token_absolute_expires_at = "2026-01-02T00:00:00.000Z";
  refresh_attempt_ref = none;
  renewal_blocked_reason = none;
}

-- Another operator's session at the same Gateway.
abbrev pub other_session : StoredSession
other_session = record session {
  subject_ref = "subject:2";
  access_token = "ceal_personal_bbbbbbbbbbbbbbbbbbbbbbbbbbbbbbbbbbbbbbbbbbb";
  refresh_token = "ceal_refresh_bbbbbbbbbbbbbbbbbbbbbbbbbbbbbbbbbbbbbbbbbbb";
}

abbrev pub attempt : String
attempt = "ceal_refresh_attempt_aaaaaaaaaaaaaaaaaaaaaaaaaaaaaaaaaaaaaaaaaaa"

pub session-valid : validate_session platform (candidate session) ≡ ok tt
unfolding validate_session valid_base_session valid_refresh_session valid_session_references
    valid_attempt is_safe_endpoint is_access_token is_refresh_token ceal_safe_ref
session-valid = refl

abbrev pub no_faults : Faults
no_faults = record { lock = none; read = λ n. none; write = λ n. none; remove = none }

abbrev pub world_of : Option StoredSession → World
world_of stored = record {
  stored = stored;
  sent = [];
  reads = 0;
  writes = 0;
  discovery_cache = true;
  receipt_spool = true;
}

abbrev pub response : RotationResponse
response = record {
  refresh_attempt_ref = some attempt;
  profile_ref = "profile:1";
  membership_ref = "membership:1";
  registration_ref = "registration:1";
  client_ref = "client:1";
  subject_ref = "subject:1";
  instance_ref = "instance:1";
  access_token = "ceal_personal_ccccccccccccccccccccccccccccccccccccccccccc";
  expires_at = "2026-01-02T00:00:00.000Z";
  refresh_token = "ceal_refresh_ccccccccccccccccccccccccccccccccccccccccccc";
  refresh_token_idle_expires_at = "2026-01-02T00:00:00.000Z";
  refresh_token_absolute_expires_at = "2026-01-02T00:00:00.000Z";
}

abbrev pub host : Host
host = record {
  platform = platform;
  faults = no_faults;
  gateway = λ token ref. rotated response;
  fresh_attempt = attempt;
}

abbrev pub dependencies : Dependencies
dependencies = record {
  platform = platform;
  faults = no_faults;
  revoke_reply = λ token. accepted;
  remove_discovery_cache = some true;
  remove_receipt_spool = some true;
}
