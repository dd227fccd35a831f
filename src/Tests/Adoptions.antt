-- ===== src/Tests/Adoptions.antt =====
-- A concrete adoption.
use ceal_cli.Base.{
  ℕ, String, List, [], ◌∷◌, none, some, false, ◌==◌, ◌≢◌, refl, arith, if◌then◌else◌, str_eq,
}
use ceal_cli.Base.Json.{null}
use ceal_cli.Base.Outcome.{ok}
use ceal_cli.NamedOptions
use ceal_cli.Session.World.{load}
use ceal_cli.Adoption.Polling.{
  Clock, PollReply, thrown, approval_required, sealed, Delivery, Entry, started_request,
  announced_approval, presented, polled, slept, wait_from, transport_outcome,
}
use ceal_cli.Adoption.{
  Host, Started, AdoptionOptions, SealedPayload, Ended, complete_adoption, parse_adoption_options,
  adopt_session,
}
use ceal_cli.Adoption.Waits.{adopt_session-ends}
use ceal_cli.Adoption.Explained.{IsExplained, adopt_session-IsExplained}
use ceal_cli.Tests.Data.{parse_gateway, dependencies, world_of, session}

abbrev delivery : Delivery
delivery = record { binding = null; encapsulated_key = "ek"; ciphertext = "ct" }

-- A request that times out, a wait for the approval, and the delivery.
abbrev reply_at : ℕ → PollReply
reply_at k =
    if k == 0
    then thrown (some "request_timeout")
    else if k == 1
    then approval_required 5000
    else sealed delivery

abbrev clock : Clock
clock = record { reply = reply_at; took_ms = λ k. 1; late_ms = λ k. 0; begun = 10 }

abbrev payload : SealedPayload
payload = record {
  profile_ref = session.profile_ref;
  membership_ref = session.membership_ref;
  registration_ref = session.registration_ref;
  client_ref = session.client_ref;
  subject_ref = session.subject_ref;
  instance_ref = session.instance_ref;
  access_token = session.access_token;
  expires_at = session.expires_at;
  refresh_token = session.refresh_token;
  refresh_token_idle_expires_at = session.refresh_token_idle_expires_at;
  refresh_token_absolute_expires_at = session.refresh_token_absolute_expires_at;
}

abbrev started : Started
started = record {
  transaction_ref = "transaction:1";
  registration_ref = "registration:1";
  challenge = null;
  browser_session_url = "https://gateway.example/v/1";
}

abbrev host : Host
host = record {
  parse_url = parse_gateway;
  origin_of = λ u. "https://gateway.example";
  session = some dependencies;
  keys = record { proof_public_key = "p"; recipient_public_key = "r"; recipient_private_key = "s" };
  clock = clock;
  start_reply = ok started;
  start_bound = λ s origin keys. str_eq s.transaction_ref "transaction:1";
  delivery_bound = λ binding origin s keys. str_eq origin "https://gateway.example";
  open_sealed = λ key v. some "plaintext";
  decode_payload = λ plaintext. some payload;
  payload_bound = λ binding p. str_eq p.subject_ref "subject:1";
}

abbrev arguments : List String
arguments = "--gateway" ∷ "https://gateway.example" ∷ "--email" ∷ "a@example.org" ∷ []

abbrev options : AdoptionOptions
options = record {
  gateway = "https://gateway.example";
  origin = "https://gateway.example";
  email = "a@example.org";
  force = false;
}

adopt_session-ends_example : adopt_session host 2100002 arguments (world_of none) ≢ none
adopt_session-ends_example =
    adopt_session-ends host arguments (world_of none) 2100002 (λ k. omega arith) (omega arith)

abbrev log : List Entry
log =
    polled
    ∷ slept 5000
    ∷ announced_approval
    ∷ polled
    ∷ slept 1000
    ∷ polled
    ∷ presented "https://gateway.example/v/1"
    ∷ started_request "a@example.org"
    ∷ []

abbrev ended : Ended
ended =
    complete_adoption host dependencies options started delivery
      (load dependencies.faults (world_of none)).1 log

adopt_session-IsExplained_example : IsExplained host options (world_of none) ended
unfolding adopt_session parse_adoption_options NamedOptions.parse_named_options
    NamedOptions.parse_from NamedOptions.consume_named_option load wait_from transport_outcome
adopt_session-IsExplained_example =
    adopt_session-IsExplained host arguments options (world_of none) 3 ended refl refl
