-- ===== src/Tests/Sessions.antt =====
-- Concrete instances of the properties of the session commands.
use ceal_cli.Base.{
  List, [], ◌∷◌, none, some, true, false, ◌≡◌, ◌≢◌, refl, ◌⊎◌, eq_iff, false≢true, ap, sym, ◌∙◌,
}
use ceal_cli.Base.Json.{obj}
use ceal_cli.Base.Outcome.{ok}
use ceal_cli.Endpoint.{is_safe_endpoint, resolve_safe_http_endpoint}
use ceal_cli.Endpoint.Agree.{is_some, endpoint_rules_agree}
use ceal_cli.Session.{StoredSession, validate_session, candidate, refresh_revoked}
use ceal_cli.Session.Record.{serialize_session, parse_session}
use ceal_cli.Session.Record.RoundTrip.{parse-serialize}
use ceal_cli.Session.Identity.{changed_session_identity_bindings}
use ceal_cli.Session.World.{World}
use ceal_cli.Session.Renewal.{
  RotationResponse, rotated, blocked, ensure_current_session, session_is_current, rotated_session,
}
use ceal_cli.Session.Renewal.History.{IsOrderly, Call, run, AllFresh, untried, run-IsOrderly}
use ceal_cli.Session.Replacement.{commit_enrolled_session}
use ceal_cli.Session.Replacement.Steps.{Commits, Sent, revocation}
use ceal_cli.Session.Replacement.Custody.{
  incoming_is_named, displaced_is_revoked, unforced_conflict_keeps,
}
use ceal_cli.Session.Replacement.{Disposition, revoked}
use ceal_cli.Session.Logout.{logged_out, logout_report, run_session_logout}
use ceal_cli.Session.Logout.Ends.{Ends, HasEnded, reply_to, removed_is_ended}
use ceal_cli.Tests.Data.{
  parse_gateway, platform, session, other_session, session-valid, world_of, response, host,
  dependencies,
}

parse-serialize_example : parse_session platform (obj (serialize_session session)) ≡ ok session
parse-serialize_example = parse-serialize platform session session-valid

endpoint_rules_agree_example :
    is_safe_endpoint parse_gateway "https://gateway.example"
    ≡ is_some (resolve_safe_http_endpoint parse_gateway "https://gateway.example")
endpoint_rules_agree_example = endpoint_rules_agree parse_gateway "https://gateway.example"

renewed_session :
    (ensure_current_session host session 0 true (world_of (some session))).0
    ≡ ok (rotated_session session response)
unfolding ensure_current_session ceal_cli.Session.World.with_state_lock
    ceal_cli.Session.Renewal.renew_stored ceal_cli.Session.World.load
    ceal_cli.Session.Renewal.require_current ceal_cli.Session.Renewal.renew_session
    ceal_cli.Session.Renewal.require_refresh_context ceal_cli.Session.Renewal.rotate
    ceal_cli.Session.Renewal.commit ceal_cli.Session.World.replace
    ceal_cli.Session.World.expect_token ceal_cli.Session.World.save validate_session
    ceal_cli.Session.valid_base_session is_safe_endpoint ceal_cli.Session.is_access_token
    ceal_cli.Session.valid_refresh_session ceal_cli.Session.is_refresh_token
    ceal_cli.SafeRef.ceal_safe_ref ceal_cli.Session.Renewal.finish_renewal session_is_current
    ceal_cli.Session.World.send ceal_cli.Session.is_refresh_attempt_ref
    ceal_cli.Session.valid_attempt ceal_cli.Session.valid_session_references
renewed_session = refl

abbrev one_call : List Call
one_call = record { host = host; session = session; now = 0; force = true } ∷ []

one_call-AllFresh : AllFresh one_call (world_of (some session))
one_call-AllFresh = ((λ c r here e. (reused c r here e, tt)), tt)
  where
    reused :
        (c : StoredSession) (r : RotationResponse)
        → some session ≡ some c
        → rotated response ≡ rotated r
        → c.refresh_token ≢ r.refresh_token
    reused c r here e same =
        let a : session ≡ c = cc in
        let b : response ≡ r = cc in
        false≢true (
          (eq_iff session.refresh_token response.refresh_token).1
            (ap (λ z. z.refresh_token) a ∙ same ∙ sym (ap (λ z. z.refresh_token) b)))

fresh-IsOrderly : IsOrderly (world_of (some session))
fresh-IsOrderly = record { one = tt; live = λ c e. untried tt }

run-IsOrderly_example : IsOrderly (run one_call (world_of (some session)))
run-IsOrderly_example =
    run-IsOrderly one_call (world_of (some session)) one_call-AllFresh fresh-IsOrderly

incoming_is_named_example :
    ((commit_enrolled_session dependencies other_session false (world_of (some session))).1.stored
      ≡ some other_session)
    ⊎ (((commit_enrolled_session dependencies other_session false
            (world_of (some session))).1.stored
          ≡ some session)
        × ((earlier : Sent) × ((commit_enrolled_session dependencies other_session false
                (world_of (some session))).1.sent
              ≡ revocation other_session (some session) ∷ earlier)))
incoming_is_named_example =
    incoming_is_named dependencies other_session false (world_of (some session))

displaced_is_revoked_example :
    ((commit_enrolled_session dependencies other_session true (world_of (some session))).1.stored
      ≡ some session)
    ⊎ ((commit_enrolled_session dependencies other_session true (world_of (some session))).1.sent
        ≡ revocation session (some session) ∷ [])
displaced_is_revoked_example =
    displaced_is_revoked dependencies other_session true (world_of (some session)) session refl

differs : changed_session_identity_bindings session other_session ≢ []
unfolding changed_session_identity_bindings
differs e = cc

unforced_conflict_keeps_example :
    ((commit_enrolled_session dependencies other_session false (world_of (some session))).1.stored
      ≡ some session)
    × ((commit_enrolled_session dependencies other_session false (world_of (some session))).1.sent
        ≡ revocation other_session (some session) ∷ [])
unforced_conflict_keeps_example =
    unforced_conflict_keeps dependencies other_session false (world_of (some session)) session refl
      refl differs

logged_out_world : (run_session_logout dependencies (world_of (some session))).1.stored ≡ none
unfolding run_session_logout ceal_cli.Session.World.with_state_lock
    ceal_cli.Session.Logout.logout_from_store ceal_cli.Session.World.load
    ceal_cli.Session.Logout.logout_loaded ceal_cli.Session.Replacement.request_revocation
    ceal_cli.Session.World.send ceal_cli.Session.Logout.finish_logout ceal_cli.Session.World.remove
    ceal_cli.Session.Replacement.clear_session_derived_state
logged_out_world = refl

removed_is_ended_example : (x : Disposition) × HasEnded (reply_to dependencies session) x
removed_is_ended_example =
    removed_is_ended dependencies (world_of (some session)) session refl logged_out_world

logged_out_answer :
    (run_session_logout dependencies (world_of (some session))).0 ≡ ok (logged_out revoked true)
unfolding run_session_logout ceal_cli.Session.World.with_state_lock
    ceal_cli.Session.Logout.logout_from_store ceal_cli.Session.World.load
    ceal_cli.Session.Logout.logout_loaded ceal_cli.Session.Replacement.request_revocation
    ceal_cli.Session.World.send ceal_cli.Session.Logout.finish_logout ceal_cli.Session.World.remove
    ceal_cli.Session.Replacement.clear_session_derived_state
logged_out_answer = refl
