-- ===== src/Session/Identity.antt =====
-- packages/ceal-worker-cli/src/session-identity.ts: the five bindings that make a stored session
-- one operator's. SHA-256 over `JSON.stringify` is the platform's: the parameter `digest`.
use ceal_cli.Base.{String, List, [], ◌∷◌, true, false, str_eq, ◌≡◌, ◌↔◌, arith, eq_iff}
use ceal_cli.Session.{StoredSession}

-- SESSION_IDENTITY_BINDINGS, at one session
pub session_identity_bindings : StoredSession → List (String × String)
session_identity_bindings s =
    ("gateway_endpoint", s.gateway_endpoint)
    ∷ ("profile_ref", s.profile_ref)
    ∷ ("membership_ref", s.membership_ref)
    ∷ ("subject_ref", s.subject_ref)
    ∷ ("instance_ref", s.instance_ref)
    ∷ []

-- The names whose values differ, in the order of the table.
changed_names : List (String × String) → List (String × String) → List String
changed_names [] js = []
changed_names (i ∷ is) [] = []
changed_names ((name, value) ∷ is) ((_, other) ∷ js) = elim (str_eq value other) [
  | true ↦ changed_names is js
  | false ↦ name ∷ changed_names is js
]

unfoldable pub changed_session_identity_bindings : StoredSession → StoredSession → List String
unfolding session_identity_bindings changed_names
changed_session_identity_bindings current incoming =
    changed_names (session_identity_bindings current) (session_identity_bindings incoming)

pub session_identity_discriminator : (List (String × String) → String) → StoredSession → String
unfolding session_identity_bindings
session_identity_discriminator digest s = digest (session_identity_bindings s)

-- Two sessions of one operator identity.
pub record SameIdentity (s t : StoredSession) : Type 0 where
  pub gateway : s.gateway_endpoint ≡ t.gateway_endpoint
  pub profile : s.profile_ref ≡ t.profile_ref
  pub membership : s.membership_ref ≡ t.membership_ref
  pub subject : s.subject_ref ≡ t.subject_ref
  pub instance_ : s.instance_ref ≡ t.instance_ref

-- No binding is reported as changed exactly when the identity is the same.
pub changed-SameIdentity :
    (s t : StoredSession) → (changed_session_identity_bindings s t ≡ []) ↔ SameIdentity s t
unfolding changed_session_identity_bindings
changed-SameIdentity s t =
    let e = eq_iff s.gateway_endpoint t.gateway_endpoint in
    let f = eq_iff s.profile_ref t.profile_ref in
    let g = eq_iff s.membership_ref t.membership_ref in
    let h = eq_iff s.subject_ref t.subject_ref in
    let k = eq_iff s.instance_ref t.instance_ref in ground arith

-- The discriminator of a session-derived store does not change within one identity.
pub SameIdentity-discriminator :
    (digest : List (String × String) → String) (s t : StoredSession)
    → SameIdentity s t
    → session_identity_discriminator digest s ≡ session_identity_discriminator digest t
unfolding session_identity_discriminator
SameIdentity-discriminator digest s t h = ground arith
