-- ===== src/Session/Renewal/Causes.antt =====
-- When a renewal starts, and why it fails: the conditions of its steps.
use ceal_cli.Base.{
  ℕ, ap, eq_refl, String, Option, none, some, Bool, true, false, not, ◌&&◌, ◌≡◌, ◌≢◌, refl, ◌∙◌,
  sym, ◌⊎◌, inl, inr, arith, eq_iff, str_eq, false≢true, Bool-cases,
}
use ceal_cli.Session.{StoredSession, BlockedReason}
use ceal_cli.Session.Failure.{Thrown, client, session_store_failure_code, TransportError}
use ceal_cli.Session.World.{World}
use ceal_cli.Session.Renewal.{
  Host, RotationResponse, RefreshReply, rotated, recovery_unavailable, denied, lost, bindings_hold,
  identity_holds, session_is_current, blocked_without_attempt, blocked_code, lost_code,
}

-- The stored session and the caller's are of one Gateway, profile, membership, registration, client,
-- subject and instance.
pub record IsSameSession (c e : StoredSession) : Type 0 where
  pub same_gateway_endpoint : c.gateway_endpoint ≡ e.gateway_endpoint
  pub same_profile_ref : c.profile_ref ≡ e.profile_ref
  pub same_membership_ref : c.membership_ref ≡ e.membership_ref
  pub same_registration_ref : c.registration_ref ≡ e.registration_ref
  pub same_client_ref : c.client_ref ≡ e.client_ref
  pub same_subject_ref : c.subject_ref ≡ e.subject_ref
  pub same_instance_ref : c.instance_ref ≡ e.instance_ref

-- A rotation is for this session and this attempt.
pub record IsBound (c : StoredSession) (r : RotationResponse) (attempt : String) : Type 0 where
  pub of_attempt : r.refresh_attempt_ref ≡ some attempt
  pub of_profile_ref : r.profile_ref ≡ c.profile_ref
  pub of_membership_ref : r.membership_ref ≡ c.membership_ref
  pub of_registration_ref : r.registration_ref ≡ c.registration_ref
  pub of_client_ref : r.client_ref ≡ c.client_ref
  pub of_subject_ref : r.subject_ref ≡ c.subject_ref
  pub of_instance_ref : r.instance_ref ≡ c.instance_ref

pub identity_holds-IsSameSession :
    (c e : StoredSession) → identity_holds c e ≡ true → IsSameSession c e
identity_holds-IsSameSession c e h = record {
  same_gateway_endpoint = (eq_iff c.gateway_endpoint e.gateway_endpoint).0 (ground arith);
  same_profile_ref = (eq_iff c.profile_ref e.profile_ref).0 (ground arith);
  same_membership_ref = (eq_iff c.membership_ref e.membership_ref).0 (ground arith);
  same_registration_ref = (eq_iff c.registration_ref e.registration_ref).0 (ground arith);
  same_client_ref = (eq_iff c.client_ref e.client_ref).0 (ground arith);
  same_subject_ref = (eq_iff c.subject_ref e.subject_ref).0 (ground arith);
  same_instance_ref = (eq_iff c.instance_ref e.instance_ref).0 (ground arith);
}

IsSameSession-identity_holds : (c e : StoredSession) → IsSameSession c e → identity_holds c e ≡ true
IsSameSession-identity_holds c e s =
    let h0 : str_eq c.gateway_endpoint e.gateway_endpoint ≡ true =
      (eq_iff c.gateway_endpoint e.gateway_endpoint).1 s.same_gateway_endpoint in
    let h1 : str_eq c.profile_ref e.profile_ref ≡ true =
      (eq_iff c.profile_ref e.profile_ref).1 s.same_profile_ref in
    let h2 : str_eq c.membership_ref e.membership_ref ≡ true =
      (eq_iff c.membership_ref e.membership_ref).1 s.same_membership_ref in
    let h3 : str_eq c.registration_ref e.registration_ref ≡ true =
      (eq_iff c.registration_ref e.registration_ref).1 s.same_registration_ref in
    let h4 : str_eq c.client_ref e.client_ref ≡ true =
      (eq_iff c.client_ref e.client_ref).1 s.same_client_ref in
    let h5 : str_eq c.subject_ref e.subject_ref ≡ true =
      (eq_iff c.subject_ref e.subject_ref).1 s.same_subject_ref in
    let h6 : str_eq c.instance_ref e.instance_ref ≡ true =
      (eq_iff c.instance_ref e.instance_ref).1 s.same_instance_ref in
    rw (h0, h1, h2, h3, h4, h5, h6) refl

pub other_session : (c e : StoredSession) → identity_holds c e ≡ false → ¬ IsSameSession c e
other_session c e h s = false≢true (sym h ∙ IsSameSession-identity_holds c e s)

attempt_bound :
    (a : Option String) (attempt : String)
    → (elim a [ none ↦ false | some x ↦ str_eq x attempt ]) ≡ true
    → a ≡ some attempt
attempt_bound none attempt h = cc
attempt_bound (some x) attempt h = ap some ((eq_iff x attempt).0 h)

pub bindings_hold-IsBound :
    (c : StoredSession) (r : RotationResponse) (attempt : String)
    → bindings_hold c r attempt ≡ true
    → IsBound c r attempt
bindings_hold-IsBound c r attempt h = record {
  of_attempt = attempt_bound r.refresh_attempt_ref attempt (ground arith);
  of_profile_ref = (eq_iff r.profile_ref c.profile_ref).0 (ground arith);
  of_membership_ref = (eq_iff r.membership_ref c.membership_ref).0 (ground arith);
  of_registration_ref = (eq_iff r.registration_ref c.registration_ref).0 (ground arith);
  of_client_ref = (eq_iff r.client_ref c.client_ref).0 (ground arith);
  of_subject_ref = (eq_iff r.subject_ref c.subject_ref).0 (ground arith);
  of_instance_ref = (eq_iff r.instance_ref c.instance_ref).0 (ground arith);
}

IsBound-bindings_hold :
    (c : StoredSession) (r : RotationResponse) (attempt : String)
    → IsBound c r attempt
    → bindings_hold c r attempt ≡ true
IsBound-bindings_hold c r attempt s =
    let a : r.refresh_attempt_ref ≡ some attempt = s.of_attempt in
    let g : str_eq attempt attempt ≡ true = eq_refl attempt in
    let h0 : str_eq r.profile_ref c.profile_ref ≡ true =
      (eq_iff r.profile_ref c.profile_ref).1 s.of_profile_ref in
    let h1 : str_eq r.membership_ref c.membership_ref ≡ true =
      (eq_iff r.membership_ref c.membership_ref).1 s.of_membership_ref in
    let h2 : str_eq r.registration_ref c.registration_ref ≡ true =
      (eq_iff r.registration_ref c.registration_ref).1 s.of_registration_ref in
    let h3 : str_eq r.client_ref c.client_ref ≡ true =
      (eq_iff r.client_ref c.client_ref).1 s.of_client_ref in
    let h4 : str_eq r.subject_ref c.subject_ref ≡ true =
      (eq_iff r.subject_ref c.subject_ref).1 s.of_subject_ref in
    let h5 : str_eq r.instance_ref c.instance_ref ≡ true =
      (eq_iff r.instance_ref c.instance_ref).1 s.of_instance_ref in
    ground arith

pub not-IsBound :
    (c : StoredSession) (r : RotationResponse) (attempt : String)
    → bindings_hold c r attempt ≡ false
    → ¬ IsBound c r attempt
not-IsBound c r attempt h s = false≢true (sym h ∙ IsBound-bindings_hold c r attempt s)

-- What a thrown error becomes for the caller.
abbrev pub IsError : Thrown → Thrown → Type 0
IsError x e = (e ≡ x) ⊎ (e ≡ client (session_store_failure_code x "session_save_failed"))

module _ (h : Host) (expected : StoredSession) (now : ℕ) (force : Bool) where
  -- The stored session is used up, or the caller forces the renewal of the token that it holds itself.
  abbrev pub IsDue : StoredSession → Type 0
  IsDue c =
      (session_is_current h.platform c now ≡ false)
      ⊎ ((force ≡ true) × (c.refresh_token ≡ expected.refresh_token))

  abbrev pub IsFresh : StoredSession → Type 0
  IsFresh c =
      (session_is_current h.platform c now ≡ true)
      × ((force ≡ false) ⊎ (c.refresh_token ≢ expected.refresh_token))

  abbrev pub Starts : StoredSession → Type 0
  Starts c = IsSameSession c expected × IsDue c

  pub IsDue-cases :
      (c : StoredSession)
      → ((not (force && str_eq c.refresh_token expected.refresh_token)
              && session_is_current h.platform c now
            ≡ true)
          × IsFresh c)
        ⊎ ((not (force && str_eq c.refresh_token expected.refresh_token)
                && session_is_current h.platform c now
              ≡ false)
            × IsDue c)
  IsDue-cases c = elim (Bool-cases (session_is_current h.platform c now)) [
    | inr e ↦ inr (ground arith, inl e)
    | inl e ↦ elim (Bool-cases force) [
      | inr f ↦ inl (ground arith, (e, inl f))
      | inl f ↦ elim (Bool-cases (str_eq c.refresh_token expected.refresh_token)) [
        | inl g ↦ inr (ground arith, inr (f, (eq_iff c.refresh_token expected.refresh_token).0 g))
        | inr g ↦ inl (
          ground arith,
          (
            e,
            inr (λ same.
                false≢true (sym g ∙ (eq_iff c.refresh_token expected.refresh_token).1 same)),
          ),
        )
      ]
    ]
  ]

  -- Why nothing is sent.
  pub data Refuses (w : World) (e : Thrown) : Type 0 where
    -- the lock or the first read throws
    is_faulted :
        (x : Thrown)
        → (h.faults.lock ≡ some x) ⊎ (h.faults.read w.reads ≡ some x)
        → IsError x e
        → Refuses w e
    is_absent : w.stored ≡ none → e ≡ client "reenrollment_required" → Refuses w e
    is_other :
        (c : StoredSession)
        → w.stored ≡ some c
        → ¬ IsSameSession c expected
        → e ≡ client "binding_changed"
        → Refuses w e
    is_blocked :
        (c : StoredSession) (r : BlockedReason)
        → w.stored ≡ some c
        → Starts c
        → blocked_without_attempt c ≡ some r
        → e ≡ client (blocked_code r)
        → Refuses w e
    is_expired :
        (c : StoredSession)
        → w.stored ≡ some c
        → Starts c
        → h.platform.parse_date c.refresh_token_absolute_expires_at ≡ none
        → e ≡ client "refresh_expired"
        → Refuses w e
    -- the write of the attempt throws
    is_unwritten :
        (c : StoredSession)
        → w.stored ≡ some c
        → Starts c
        → blocked_without_attempt c ≡ none
        → Refuses w e

-- Why a call fails after its request, for this answer.
pub data FailsAfter (c : StoredSession) (attempt : String) (e : Thrown)
    : RefreshReply → Type 0 where
  was_lost : (t : TransportError) → e ≡ client (lost_code t) → FailsAfter c attempt e (lost t)
  no_recovery :
      e ≡ client "refresh_recovery_unavailable" → FailsAfter c attempt e recovery_unavailable
  -- the write of the denial, or of the rotated session, throws
  denial_unwritten : (r : BlockedReason) → FailsAfter c attempt e (denied r)
  rotation_unwritten :
      (r : RotationResponse) → IsBound c r attempt → FailsAfter c attempt e (rotated r)
  was_unbound :
      (r : RotationResponse)
      → ¬ IsBound c r attempt
      → e ≡ client "binding_changed"
      → FailsAfter c attempt e (rotated r)
