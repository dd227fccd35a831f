-- ===== src/Session/Logout.antt =====
-- packages/ceal-worker-cli/src/client-session.ts: `ceal session logout`, with the revocation of
-- session-replacement.ts, and the classification of session failures.
pub mod Ends
pub mod Truthful
use ceal_cli.Base.{
  ℕ, String, List, [], ◌∷◌, Option, none, some, Bool, true, false, ◌&&◌, ◌||◌, not, has, str_eq,
  if◌then◌else◌,
}
use ceal_cli.Base.Outcome.{Outcome, ok, err}
use ceal_cli.SafeRef.{safe_code}
use ceal_cli.Session.{StoredSession}
use ceal_cli.Session.Failure.{Thrown, session_store_failure_code}
use ceal_cli.Session.World.{
  World, Action, ◌>>=◌, ◌>>◌, pure, catch, attempt, load, remove, with_state_lock,
}
use ceal_cli.Session.Replacement.{
  Dependencies, Disposition, revoked, already_unusable, Revocation, done, denied, transport,
  is_retired, request_revocation, clear_session_derived_state,
}

-- What classifyClientSessionFailure returns; the texts for a reader are not modelled.
pub record FailureClass : Type 0 where
  pub kind : String
  pub retryable : Bool

-- CLIENT_SESSION_FAILURES: whether a repeated command may succeed; none where the table has no row.
unfoldable pub client_session_failures : String → Option Bool
client_session_failures reason =
    if has
      ("session_refresh_attempt_unknown" ∷ "refresh_recovery_unavailable"
        ∷ "session_revocation_unavailable" ∷ "refresh_busy" ∷ [])
      reason
    then some true
    else (if has
          ("session_renewal_unavailable" ∷ "refresh_expired" ∷ "refresh_invalid"
            ∷ "refresh_replayed" ∷ "refresh_revoked" ∷ "reenrollment_required" ∷ "binding_changed"
            ∷ [])
          reason
        then some false
        else none)

-- classifyClientSessionFailure
unfoldable pub classify_client_session_failure : String → FailureClass
classify_client_session_failure reason = elim (client_session_failures reason) [
  | some retryable ↦ record { kind = reason; retryable = retryable }
  | none ↦ record {
    kind = if safe_code reason then reason else "session_unusable";
    retryable = false;
  }
]

-- isClassifiedClientSessionFailure
unfoldable pub is_classified_client_session_failure : String → Bool
is_classified_client_session_failure reason = elim (client_session_failures reason) [
  | none ↦ false
  | some _ ↦ true
]

-- The four answers of a logout, with what they say of the session.
pub data Logout : Type 0 where
  already_logged_out : (derived_state_cleared : Bool) → Logout
  logged_out : (disposition : Disposition) (derived_state_cleared : Bool) → Logout
  local_cleanup_failed : (disposition : Disposition) (reason : String) → Logout
  unavailable : FailureClass → Logout

-- What the printed document says, without the texts for a reader.
pub record LogoutReport : Type 0 where
  pub is_ok : Bool
  pub status : String
  pub server_session_revoked : Bool
  pub local_session_removed : Bool
  pub local_derived_state_cleared : Bool
  pub proof_level : String
  pub error_kind : Option String
  pub exit_code : ℕ

abbrev pub is_revoked : Disposition → Bool
is_revoked revoked = true
is_revoked _ = false

-- writeAlreadyLoggedOut, writeLoggedOut, writeLogoutLocalFailure and writeLogoutUnavailable
unfoldable pub logout_report : Logout → LogoutReport
logout_report (already_logged_out derived) = record {
  is_ok = true;
  status = "already_logged_out";
  server_session_revoked = false;
  local_session_removed = false;
  local_derived_state_cleared = derived;
  proof_level = "local_state";
  error_kind = none;
  exit_code = 0;
}
logout_report (logged_out x derived) = record {
  is_ok = true;
  status = "logged_out";
  server_session_revoked = is_revoked x;
  local_session_removed = true;
  local_derived_state_cleared = derived;
  proof_level = "host_decision";
  error_kind = none;
  exit_code = 0;
}
logout_report (local_cleanup_failed x reason) = record {
  is_ok = false;
  status = "local_cleanup_failed";
  server_session_revoked = is_revoked x;
  local_session_removed = false;
  local_derived_state_cleared = false;
  proof_level = "host_decision";
  error_kind = some reason;
  exit_code = 3;
}
logout_report (unavailable f) = record {
  is_ok = false;
  status = "unavailable";
  server_session_revoked = false;
  local_session_removed = false;
  local_derived_state_cleared = false;
  proof_level = "surface";
  error_kind = some f.kind;
  exit_code = 3;
}

-- writeLogoutUnavailable
unfoldable pub logout_failure : String → FailureClass
logout_failure reason =
    if has
      ("home_unavailable" ∷ "invalid_store" ∷ "refresh_busy" ∷ "session_load_failed"
        ∷ "session_revocation_unavailable" ∷ "session_runtime_unavailable" ∷ "unsafe_store" ∷ [])
      reason
    then classify_client_session_failure reason
    else record {
      kind = if safe_code reason then reason else "session_revocation_rejected";
      retryable = false;
    }

-- revokeClientSession: how the session ended, or the reason why it did not
abbrev pub logout_revocation : Revocation → Outcome String Disposition
logout_revocation done = ok revoked
logout_revocation (denied code) = if is_retired code then ok already_unusable else err code
logout_revocation (transport reason) = err reason

abbrev pub lock_failed : Thrown → Action Logout
lock_failed e =
    pure (unavailable (logout_failure (session_store_failure_code e "session_save_failed")))

module _ (d : Dependencies) where
  -- clearLogoutDerivedState
  unfoldable pub clear_logout_derived_state : Action Bool
  clear_logout_derived_state = elim d.remove_discovery_cache [
    | some _ ↦ clear_session_derived_state d
    | none ↦ elim d.remove_receipt_spool [
      | some _ ↦ clear_session_derived_state d
      | none ↦ pure true
    ]
  ]

  unfoldable pub finish_logout : Outcome String Disposition → Action Logout
  finish_logout (err reason) = pure (unavailable (logout_failure reason))
  finish_logout (ok disposition) =
      attempt (remove d.faults)
        (λ e.
          pure (
            local_cleanup_failed disposition
              (session_store_failure_code e "session_remove_failed")))
        (λ _. do cleared ← clear_session_derived_state d; pure (logged_out disposition cleared))

  unfoldable pub logout_loaded : Option StoredSession → Action Logout
  logout_loaded none = do cleared ← clear_logout_derived_state; pure (already_logged_out cleared)
  logout_loaded (some s) = do
    outcome ← request_revocation d s
    finish_logout (logout_revocation outcome)

  -- logoutFromStore
  unfoldable pub logout_from_store : Action Logout
  logout_from_store =
      attempt (load d.faults)
        (λ e.
          pure (unavailable (logout_failure (session_store_failure_code e "session_load_failed"))))
        logout_loaded

  -- runSessionLogoutWithDependencies
  unfoldable pub run_session_logout : Action Logout
  run_session_logout = catch (with_state_lock d.faults logout_from_store) lock_failed
