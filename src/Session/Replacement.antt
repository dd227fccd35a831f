-- ===== src/Session/Replacement.antt =====
-- packages/ceal-worker-cli/src/session-replacement.ts: what an enrolled or adopted session does to
-- the session that this host keeps, and the revocation requests that it makes.
pub mod Steps
pub mod Commits
pub mod Custody
use ceal_cli.Base.{
  String, List, [], ◌∷◌, Option, none, some, Bool, true, false, not, ◌&&◌, ◌||◌, str_eq, has,
  if◌then◌else◌,
}
use ceal_cli.Base.Outcome.{Outcome, ok, err}
use ceal_cli.Platform.{Platform}
use ceal_cli.Session.{StoredSession}
use ceal_cli.Session.Identity.{changed_session_identity_bindings}
use ceal_cli.Session.Failure.{
  Thrown, TransportError, client_session_transport_failure, session_store_failure_code,
}
use ceal_cli.Session.World.{
  World, Faults, Action, ◌>>=◌, ◌>>◌, pure, catch, attempt, load, save, send, Request, revoke,
  with_state_lock,
}

-- The Gateway's answer to a revocation, as the client returns or throws it.
pub data RevokeReply : Type 0 where
  accepted : RevokeReply
  rejected : String → RevokeReply
  failed : TransportError → RevokeReply

-- CealSessionCapabilityDependencies, and what they answer. A remover is absent, or it resolves
-- (true) or throws (false).
pub record Dependencies : Type 0 where
  pub platform : Platform
  pub faults : Faults
  pub revoke_reply : String → RevokeReply
  pub remove_discovery_cache : Option Bool
  pub remove_receipt_spool : Option Bool

-- CealRevokeDisposition
pub data Disposition : Type 0 where
  revoked already_unusable unavailable not_applicable : Disposition

-- The outcome of one revocation request.
pub data Revocation : Type 0 where
  done : Revocation
  denied : String → Revocation
  transport : String → Revocation

-- RETIRED_REFRESH_CODES.has
abbrev pub is_retired : String → Bool
is_retired =
    has ("refresh_revoked" ∷ "refresh_invalid" ∷ "refresh_expired" ∷ "refresh_replayed" ∷ [])

abbrev pub revocation_of : RevokeReply → Revocation
revocation_of accepted = done
revocation_of (rejected code) = denied code
revocation_of (failed e) =
    transport (client_session_transport_failure e "session_revocation_unavailable")

abbrev pub disposition_of : Revocation → Disposition
disposition_of done = revoked
disposition_of (denied code) = if is_retired code then already_unusable else unavailable
disposition_of (transport reason) = unavailable

pub data Replacement : Type 0 where
  first_session same_identity replaced : Replacement

-- CealSessionCommit
pub data SessionCommit : Type 0 where
  committed : Replacement → Disposition → Bool → SessionCommit
  identity_conflict : List String → Disposition → SessionCommit
  store_failure : String → Bool → Disposition → SessionCommit

abbrev pub remover_result : Option Bool → Bool
remover_result none = false
remover_result (some b) = b

abbrev pub is_ended : Disposition → Bool
is_ended revoked = true
is_ended already_unusable = true
is_ended _ = false

abbrev pub code_of : Thrown → String
code_of e = session_store_failure_code e "session_save_failed"

module _ (d : Dependencies) where
  unfoldable pub request_revocation : StoredSession → Action Revocation
  request_revocation s =
      send (revoke s.refresh_token) (revocation_of (d.revoke_reply s.refresh_token))

  -- revoke(session, dependencies)
  unfoldable pub revoke_session : StoredSession → Action Disposition
  revoke_session s = do outcome ← request_revocation s; pure (disposition_of outcome)

  -- clearSessionDerivedState: both removers run, whatever the first one does
  unfoldable pub clear_session_derived_state : Action Bool
  clear_session_derived_state w =
      let discovery = remover_result d.remove_discovery_cache in
      let receipts = remover_result d.remove_receipt_spool in
      (
        ok (discovery && receipts),
        record w {
          discovery_cache = not discovery && w.discovery_cache;
          receipt_spool = not receipts && w.receipt_spool;
        },
      )

  -- The displaced credential is ended first.
  unfoldable pub revoke_current : Option StoredSession → Action Disposition
  revoke_current none = pure not_applicable
  revoke_current (some c) = revoke_session c

  -- After a write that succeeded.
  unfoldable pub after_save : Option StoredSession → Bool → Disposition → Action SessionCommit
  after_save none replacing previous = do
    cleared ← clear_session_derived_state
    pure (committed first_session previous cleared)
  after_save (some c) true previous = do
    cleared ← clear_session_derived_state
    pure (committed replaced previous cleared)
  after_save (some c) false previous = pure (committed same_identity previous false)

  -- After a write that threw: the incoming session must not stay live and unnamed.
  unfoldable pub after_failed_save : StoredSession → Disposition → Thrown → Action SessionCommit
  after_failed_save incoming previous e = do
    issued ← revoke_session incoming
    pure (store_failure (code_of e) (is_ended previous) issued)

  unfoldable pub write_incoming : StoredSession → Option StoredSession → Bool → Action SessionCommit
  write_incoming incoming current replacing = do
    previous ← revoke_current current
    attempt (save d.platform d.faults incoming) (after_failed_save incoming previous)
        (λ _. after_save current replacing previous)

  unfoldable pub decide : StoredSession → Bool → Option StoredSession → Action SessionCommit
  decide incoming force none = write_incoming incoming none false
  decide incoming force (some c) = elim (changed_session_identity_bindings c incoming) [
    | [] ↦ write_incoming incoming (some c) false
    | name ∷ names ↦
        if not force
        then (do issued ← revoke_session incoming; pure (identity_conflict (name ∷ names) issued))
        else write_incoming incoming (some c) true
  ]

  -- The action under the lock.
  unfoldable pub commit_locked : StoredSession → Bool → Action SessionCommit
  commit_locked incoming force = do current ← load d.faults; decide incoming force current

  -- commitEnrolledSession
  unfoldable pub commit_enrolled_session : StoredSession → Bool → Action SessionCommit
  commit_enrolled_session incoming force =
      catch (with_state_lock d.faults (commit_locked incoming force))
        λ e. do issued ← revoke_session incoming; pure (store_failure (code_of e) false issued)
