-- ===== src/Session/Logout/Ends.antt =====
-- What a logout leaves of the session, for each of its answers.
use ceal_cli.Base.{
  String, ◌∷◌, false≢true, str_eq, eq_iff, sym, suc, ◌⊎◌, Bool-cases, Option, none, some, Bool,
  true, ◌≡◌, refl, ◌∙◌, subst, arith, inl, inr, Option-cases,
}
use ceal_cli.Base.Outcome.{ok, err}
use ceal_cli.Session.{StoredSession}
use ceal_cli.Session.Failure.{Thrown, session_store_failure_code, client_session_transport_failure}
use ceal_cli.Session.World.{World, Result, remove, send, load, recover}
use ceal_cli.Session.World.Rules.{lock_fault_rule}
use ceal_cli.Session.Replacement.{
  Dependencies, Disposition, RevokeReply, accepted, rejected, failed, is_retired, revoked,
  already_unusable, revocation_of, request_revocation, clear_session_derived_state,
}
use ceal_cli.Session.Replacement.Steps.{revocation, cleared}
use ceal_cli.Session.Logout.{
  Logout, already_logged_out, logged_out, local_cleanup_failed, unavailable, logout_revocation,
  clear_logout_derived_state, finish_logout, logout_loaded, logout_from_store, logout_failure,
  lock_failed, run_session_logout,
}

-- The codes by which the Gateway says that a refresh token can be used no more
pub data IsUnusable : String → Type 0 where
  was_revoked : IsUnusable "refresh_revoked"
  was_invalid : IsUnusable "refresh_invalid"
  was_expired : IsUnusable "refresh_expired"
  was_replayed : IsUnusable "refresh_replayed"

-- The Gateway's answer ends the session: it accepts the revocation, or the token is unusable.
abbrev pub HasEnded : RevokeReply → Disposition → Type 0
HasEnded accepted x = x ≡ revoked
HasEnded (rejected code) x = IsUnusable code × (x ≡ already_unusable)
HasEnded (failed e) x = ⊥

-- The Gateway's answer does not end the session, for this reason: it rejects the revocation by any
-- other code, or the request failed.
abbrev pub StaysOpen : RevokeReply → String → Type 0
StaysOpen accepted reason = ⊥
StaysOpen (rejected code) reason = (¬ IsUnusable code) × (reason ≡ code)
StaysOpen (failed e) reason =
    reason ≡ client_session_transport_failure e "session_revocation_unavailable"

abbrev pub reply_to : Dependencies → StoredSession → RevokeReply
reply_to d s = d.revoke_reply s.refresh_token

-- The fault that kept a logout from the file, and the code that it is reported by
abbrev pub IsFault : Dependencies → World → String → Type 0
IsFault d w reason =
    ((e : Thrown) × (d.faults.lock ≡ some e)
      × (reason ≡ session_store_failure_code e "session_save_failed"))
    ⊎ ((e : Thrown) × (d.faults.read w.reads ≡ some e)
        × (reason ≡ session_store_failure_code e "session_load_failed"))

unusable_lem : (code : String) → is_retired code ≡ true → IsUnusable code
unusable_lem code h = elim (Bool-cases (str_eq code "refresh_revoked")) [
  | inl e ↦ subst IsUnusable (sym ((eq_iff code "refresh_revoked").0 e)) was_revoked
  | inr a ↦ elim (Bool-cases (str_eq code "refresh_invalid")) [
    | inl e ↦ subst IsUnusable (sym ((eq_iff code "refresh_invalid").0 e)) was_invalid
    | inr b ↦ elim (Bool-cases (str_eq code "refresh_expired")) [
      | inl e ↦ subst IsUnusable (sym ((eq_iff code "refresh_expired").0 e)) was_expired
      | inr c ↦ elim (Bool-cases (str_eq code "refresh_replayed")) [
        | inl e ↦ subst IsUnusable (sym ((eq_iff code "refresh_replayed").0 e)) was_replayed
        | inr e ↦ absurd (ground arith)
      ]
    ]
  ]
]

retired_lem : (code : String) → IsUnusable code → is_retired code ≡ true
retired_lem _ was_revoked = refl
retired_lem _ was_invalid = refl
retired_lem _ was_expired = refl
retired_lem _ was_replayed = refl

reply_cases :
    (r : RevokeReply)
    → ((x : Disposition) × (logout_revocation (revocation_of r) ≡ ok x) × HasEnded r x)
      ⊎ ((e : String) × (logout_revocation (revocation_of r) ≡ err e) × StaysOpen r e)
reply_cases accepted = inl (revoked, refl, refl)
reply_cases (rejected code) = elim (Bool-cases (is_retired code)) [
  | inl e ↦ inl (already_unusable, rw e refl, (unusable_lem code e, refl))
  | inr e ↦ inr (code, rw e refl, ((λ u. false≢true (sym e ∙ retired_lem code u)), refl))
]
reply_cases (failed e) = inr (_, refl, refl)

-- `o` is the answer and the state that a logout leaves, from the state `w`.
pub data Ends (d : Dependencies) (w : World) (o : Result Logout) : Type 0 where
  -- nothing was stored, and nothing is sent
  nothing_stored :
      (c : Bool)
      → w.stored ≡ none
      → o.0 ≡ ok (already_logged_out c)
      → o.1.stored ≡ none
      → o.1.sent ≡ w.sent
      → Ends d w o
  -- the Gateway ended the session, and the file is gone
  ended :
      (s : StoredSession) (x : Disposition)
      → w.stored ≡ some s
      → HasEnded (reply_to d s) x
      → o.0 ≡ ok (logged_out x (cleared d))
      → o.1.stored ≡ none
      → o.1.sent ≡ revocation s (some s) ∷ w.sent
      → Ends d w o
  -- the Gateway ended the session, and the file could not be removed
  left_behind :
      (s : StoredSession) (x : Disposition) (reason : String)
      → w.stored ≡ some s
      → HasEnded (reply_to d s) x
      → o.0 ≡ ok (local_cleanup_failed x reason)
      → o.1.stored ≡ some s
      → o.1.sent ≡ revocation s (some s) ∷ w.sent
      → Ends d w o
  -- the Gateway did not end the session, which stays in the file
  refused :
      (s : StoredSession) (reason : String)
      → w.stored ≡ some s
      → StaysOpen (reply_to d s) reason
      → o.0 ≡ ok (unavailable (logout_failure reason))
      → o.1.stored ≡ some s
      → o.1.sent ≡ revocation s (some s) ∷ w.sent
      → Ends d w o
  -- the lock or the read threw, and nothing is sent
  unopened :
      (reason : String)
      → IsFault d w reason
      → o.0 ≡ ok (unavailable (logout_failure reason))
      → o.1.stored ≡ w.stored
      → o.1.sent ≡ w.sent
      → Ends d w o

module _ (d : Dependencies) (w : World) where
  empty-Ends :
      (v : World)
      → w.stored ≡ none
      → v.stored ≡ w.stored
      → v.sent ≡ w.sent
      → Ends d w (logout_loaded d none v)
  unfolding logout_loaded clear_logout_derived_state clear_session_derived_state
  empty-Ends v here s q = elim (Option-cases d.remove_discovery_cache) [
    | inr (b, x) ↦ rw (x, clear_logout_derived_state) (nothing_stored _ here refl (s ∙ here) q)
    | inl x ↦ elim (Option-cases d.remove_receipt_spool) [
      | inr (b, y) ↦ rw (x, y, clear_logout_derived_state) (nothing_stored _ here refl (s ∙ here) q)
      | inl y ↦ rw (x, y, clear_logout_derived_state) (nothing_stored true here refl (s ∙ here) q)
    ]
  ]

  removed-Ends :
      (s : StoredSession) (x : Disposition) (v : World)
      → w.stored ≡ some s
      → HasEnded (reply_to d s) x
      → v.stored ≡ some s
      → v.sent ≡ revocation s (some s) ∷ w.sent
      → Ends d w (finish_logout d (ok x) v)
  unfolding finish_logout remove clear_session_derived_state
  removed-Ends s x v here e t q = elim (Option-cases d.faults.remove) [
    | inl f ↦ rw (f, remove) (ended s x here e refl refl q)
    | inr (k, f) ↦ rw (f, remove) (left_behind s x _ here e refl t q)
  ]

  stored-Ends :
      (s : StoredSession) (v : World)
      → w.stored ≡ some s
      → v.stored ≡ w.stored
      → v.sent ≡ w.sent
      → Ends d w (logout_loaded d (some s) v)
  unfolding logout_loaded request_revocation send finish_logout
  stored-Ends s v here t q = elim (reply_cases (reply_to d s)) [
    | inl (x, e, g) ↦ rw e (removed-Ends s x _ here g (t ∙ here) (cc))
    | inr (r, e, g) ↦ rw e (refused s r here g refl (t ∙ here) (cc))
  ]

  loaded-Ends :
      (stored : Option StoredSession) (v : World)
      → w.stored ≡ stored
      → v.stored ≡ w.stored
      → v.sent ≡ w.sent
      → Ends d w (logout_loaded d stored v)
  loaded-Ends none v here s q = empty-Ends v here s q
  loaded-Ends (some c) v here s q = stored-Ends c v here s q

  from_store-Ends : Ends d w (logout_from_store d w)
  unfolding logout_from_store load
  from_store-Ends = elim (Option-cases (d.faults.read w.reads)) [
    | inl e ↦ rw (e, load) (loaded-Ends w.stored (record w { reads = suc w.reads }) refl refl refl)
    | inr (x, e) ↦ rw (e, load) (unopened _ (inr (x, e, refl)) refl refl refl)
  ]

  -- A logout that has the lock answers.
  recover-Ends :
      (handler : Thrown → World → Result Logout) (o : Result Logout)
      → Ends d w o
      → Ends d w (recover handler o)
  recover-Ends handler (ok a, v) h = h
  recover-Ends handler (err e, v) (nothing_stored c a b s q) = cc
  recover-Ends handler (err e, v) (ended c x a g b s q) = cc
  recover-Ends handler (err e, v) (left_behind c x r a g b s q) = cc
  recover-Ends handler (err e, v) (refused c r a g b s q) = cc
  recover-Ends handler (err e, v) (unopened r i b s q) = cc

  logout-Ends : Ends d w (run_session_logout d w)
  unfolding run_session_logout
  logout-Ends =
      lock_fault_rule (λ o. Ends d w (recover lock_failed o)) d.faults (logout_from_store d) w
        (recover-Ends lock_failed (logout_from_store d w) from_store-Ends)
        (λ e here. unopened _ (inl (e, here, refl)) refl refl refl)

  gone_only_ended :
      (s : StoredSession) (o : Result Logout)
      → w.stored ≡ some s
      → o.1.stored ≡ none
      → Ends d w o
      → (x : Disposition) × (HasEnded (reply_to d s) x)
  gone_only_ended s o here gone (nothing_stored c a b t q) = cc
  gone_only_ended s o here gone (ended c x a g b t q) =
      let same : c ≡ s = cc in (x, subst (λ z. HasEnded (reply_to d z) x) same g)
  gone_only_ended s o here gone (left_behind c x r a g b t q) = cc
  gone_only_ended s o here gone (refused c r a g b t q) = cc
  gone_only_ended s o here gone (unopened r i b t q) = cc

pub run_logout-Ends : (d : Dependencies) (w : World) → Ends d w (run_session_logout d w)
run_logout-Ends d w = logout-Ends d w

-- A logout removes the stored session only after the Gateway has ended it: the Gateway accepted the
-- revocation, or it rejected it by one of the four codes that say that the refresh token is unusable.
pub removed_is_ended :
    (d : Dependencies) (w : World) (s : StoredSession)
    → w.stored ≡ some s
    → (run_session_logout d w).1.stored ≡ none
    → (x : Disposition) × HasEnded (reply_to d s) x
removed_is_ended d w s here gone = gone_only_ended d w s _ here gone (logout-Ends d w)
