-- ===== src/Session/Renewal.antt =====
-- packages/ceal-worker-cli/src/client-session.ts: ensureCurrentSessionWithDependencies and
-- renewSession, the rotation of the one-time refresh credential with its attempt journal.
pub mod Causes
pub mod Steps
pub mod Calls
pub mod History
use ceal_cli.Base.{
  ℕ, ◌+◌, String, List, [], ◌∷◌, Option, none, some, Bool, true, false, not, ◌&&◌, ◌||◌, str_eq,
  ltb, if◌then◌else◌,
}
use ceal_cli.Base.Outcome.{Outcome, ok, err}
use ceal_cli.Platform.{Platform}
use ceal_cli.Session.{StoredSession, BlockedReason, outcome_unknown, reason_text}
use ceal_cli.Session.Failure.{
  Thrown, client, session_store_failure_code, TransportError, client_session_transport_failure,
}
use ceal_cli.Session.World.{
  World, Faults, Action, ◌>>=◌, ◌>>◌, pure, throw, catch, load, replace, send, Request, refresh,
  with_state_lock,
}

-- The Gateway's answer to a refresh, as the protocol decodes it.
pub record RotationResponse : Type 0 where
  pub refresh_attempt_ref : Option String
  pub profile_ref : String
  pub membership_ref : String
  pub registration_ref : String
  pub client_ref : String
  pub subject_ref : String
  pub instance_ref : String
  pub access_token : String
  pub expires_at : String
  pub refresh_token : String
  pub refresh_token_idle_expires_at : String
  pub refresh_token_absolute_expires_at : String

pub data RefreshReply : Type 0 where
  rotated : RotationResponse → RefreshReply
  -- error.code "refresh_recovery_unavailable"
  recovery_unavailable : RefreshReply
  -- any other error.code
  denied : BlockedReason → RefreshReply
  -- the client threw: no usable response
  lost : TransportError → RefreshReply

-- What the command takes from outside: the platform, the faults of the file system, the Gateway,
-- and the next random attempt reference.
pub record Host : Type 0 where
  pub platform : Platform
  pub faults : Faults
  pub gateway : String → String → RefreshReply
  pub fresh_attempt : String

module _ (p : Platform) where
  unfoldable pub session_is_current : StoredSession → ℕ → Bool
  session_is_current s now = elim (p.parse_date s.expires_at) [
    | none ↦ false
    | some t ↦ ltb (now + 60_000) t
  ]

  -- requireRefreshContext
  unfoldable pub require_refresh_context : StoredSession → Action String
  require_refresh_context s = elim (p.parse_date s.refresh_token_absolute_expires_at) [
    | none ↦ throw (client "refresh_expired")
    | some _ ↦ pure s.refresh_token
  ]

-- `some(([actual, expected]) => actual !== expected)`
abbrev pub all_equal : List (String × String) → Bool
all_equal [] = true
all_equal ((a, b) ∷ rest) = str_eq a b && all_equal rest

-- assertSessionBindings
abbrev pub bindings_hold : StoredSession → RotationResponse → String → Bool
bindings_hold s r attempt =
    elim r.refresh_attempt_ref [ none ↦ false | some a ↦ str_eq a attempt ]
    && all_equal (
        (r.profile_ref, s.profile_ref)
        ∷ (r.membership_ref, s.membership_ref)
        ∷ (r.registration_ref, s.registration_ref)
        ∷ (r.client_ref, s.client_ref)
        ∷ (r.subject_ref, s.subject_ref)
        ∷ (r.instance_ref, s.instance_ref)
        ∷ [])

abbrev pub assert_that : Bool → Action (Unit {0})
assert_that b = if b then pure tt else throw (client "binding_changed")

-- assertSessionIdentity
abbrev pub identity_holds : StoredSession → StoredSession → Bool
identity_holds c e = all_equal (
    (c.gateway_endpoint, e.gateway_endpoint)
    ∷ (c.profile_ref, e.profile_ref)
    ∷ (c.membership_ref, e.membership_ref)
    ∷ (c.registration_ref, e.registration_ref)
    ∷ (c.client_ref, e.client_ref)
    ∷ (c.subject_ref, e.subject_ref)
    ∷ (c.instance_ref, e.instance_ref)
    ∷ [])

abbrev pub rotated_session : StoredSession → RotationResponse → StoredSession
rotated_session s r = record s {
  access_token = r.access_token;
  expires_at = r.expires_at;
  refresh_token = r.refresh_token;
  refresh_token_idle_expires_at = r.refresh_token_idle_expires_at;
  refresh_token_absolute_expires_at = r.refresh_token_absolute_expires_at;
  refresh_attempt_ref = none;
  renewal_blocked_reason = none;
}

-- { ...session, refreshAttemptRef, renewalBlockedReason: "outcome_unknown" }
abbrev pub journaled : StoredSession → String → StoredSession
journaled s a = record s {
  refresh_attempt_ref = some a;
  renewal_blocked_reason = some outcome_unknown;
}

-- { ...unattempted, renewalBlockedReason: response.error.code }
abbrev pub blocked : StoredSession → BlockedReason → StoredSession
blocked s r = record s { refresh_attempt_ref = none; renewal_blocked_reason = some r }

-- The code that a blocked session without an attempt is refused with.
abbrev pub blocked_code : BlockedReason → String
blocked_code outcome_unknown = "session_renewal_unavailable"
blocked_code r = reason_text r

-- `renewalBlockedReason && !refreshAttemptRef`
abbrev pub blocked_without_attempt : StoredSession → Option BlockedReason
blocked_without_attempt s = elim s.refresh_attempt_ref [
  | none ↦ s.renewal_blocked_reason
  | some _ ↦ none
]

abbrev pub refuse_blocked : Option BlockedReason → Action (Unit {0})
refuse_blocked none = pure tt
refuse_blocked (some r) = throw (client (blocked_code r))

-- catch (error) { throw new CealClientSessionError(sessionStoreFailureCode(error)) }
abbrev pub as_client_error : {A : Type 0} → Thrown → Action A
as_client_error e = throw (client (session_store_failure_code e "session_save_failed"))

-- The code of a response that never came: the attempt may be resumed.
abbrev pub lost_code : TransportError → String
lost_code e =
    let failure = client_session_transport_failure e "session_renewal_unavailable" in
    if str_eq failure "session_renewal_unavailable"
    then "session_refresh_attempt_unknown"
    else failure

module _ (h : Host) where
  -- save: store.replace(current.refreshToken, …), where `current` is the session that renews
  unfoldable pub commit : StoredSession → StoredSession → Action (Unit {0})
  commit current s = replace h.platform h.faults current.refresh_token s

  -- What renewSession does with the answer.
  unfoldable pub finish_renewal : StoredSession → String → RefreshReply → Action StoredSession
  finish_renewal s attempt (lost e) = throw (client (lost_code e))
  finish_renewal s attempt recovery_unavailable = throw (client "refresh_recovery_unavailable")
  finish_renewal s attempt (denied r) = do
    catch (commit s (blocked s r)) as_client_error
    throw (client (reason_text r))
  finish_renewal s attempt (rotated r) = do
    assert_that (bindings_hold s r attempt)
    commit s (rotated_session s r)
    pure (rotated_session s r)

  -- session.refreshAttemptRef ?? newRefreshAttemptRef()
  abbrev pub attempt_of : StoredSession → String
  attempt_of s = elim s.refresh_attempt_ref [ none ↦ h.fresh_attempt | some a ↦ a ]

  -- From the journal to the answer: write before send.
  unfoldable pub rotate : StoredSession → String → String → Action StoredSession
  rotate s token attempt = do
    catch (commit s (journaled s attempt)) as_client_error
    reply ← send (refresh token attempt) (h.gateway token attempt)
    finish_renewal s attempt reply

  unfoldable pub renew_session : StoredSession → ℕ → Bool → Action StoredSession
  renew_session s now force =
      if not force && session_is_current h.platform s now then pure s else do
        refuse_blocked (blocked_without_attempt s)
        token ← require_refresh_context h.platform s
        rotate s token (attempt_of s)

  unfoldable pub require_current : Option StoredSession → Action StoredSession
  require_current none = throw (client "reenrollment_required")
  require_current (some c) = pure c

  -- The action under the lock.
  unfoldable pub renew_stored : StoredSession → ℕ → Bool → Action StoredSession
  renew_stored expected now force = do
    stored ← load h.faults
    current ← require_current stored
    assert_that (identity_holds current expected)
    renew_session current now (force && str_eq current.refresh_token expected.refresh_token)

  -- A CealClientSessionError passes, anything else becomes one.
  abbrev pub to_client_error : {A : Type 0} → Thrown → Action A
  to_client_error (client c) = throw (client c)
  to_client_error e = as_client_error e

  -- ensureCurrentSessionWithDependencies
  unfoldable pub ensure_current_session : StoredSession → ℕ → Bool → Action StoredSession
  ensure_current_session s now force =
      if not force && session_is_current h.platform s now
      then pure s
      else catch (with_state_lock h.faults (renew_stored s now force)) to_client_error
