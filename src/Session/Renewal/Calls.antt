-- ===== src/Session/Renewal/Calls.antt =====
-- The command as a whole: the lock, the translation of errors, and what its callers rely on.
use ceal_cli.Base.{
  ℕ, String, ap, subst, some, Bool, true, false, not, ◌&&◌, ◌≡◌, refl, ◌⊎◌, inl, inr, arith,
  Bool-cases,
}
use ceal_cli.Base.Outcome.{ok, err}
use ceal_cli.Session.{StoredSession, BlockedReason, reason_text}
use ceal_cli.Session.Failure.{Thrown, client, store, other, session_store_failure_code}
use ceal_cli.Session.World.{World, with_state_lock}
use ceal_cli.Session.World.Rules.{lock_fault_rule, catch_rule}
use ceal_cli.Session.Renewal.{
  Host, renew_stored, ensure_current_session, session_is_current, to_client_error,
  blocked_without_attempt, attempt_of, RefreshReply,
}
use ceal_cli.Session.Renewal.Steps.{
  Renews, idle, kept, pending, refused, renewed, answer, renew_stored-Renews,
}
use ceal_cli.Session.Renewal.Causes.{
  Refuses, is_faulted, is_absent, is_other, is_blocked, is_expired, is_unwritten, FailsAfter,
  was_lost, no_recovery, denial_unwritten, rotation_unwritten, was_unbound,
}

-- An error that is no client error, and what becomes of it
abbrev NoClient : Thrown → Type 0
NoClient x = (c : String) → ¬ (x ≡ client c)

abbrev reported : Thrown → Thrown
reported x = client (session_store_failure_code x "session_save_failed")

module _ (h : Host) (s : StoredSession) (now : ℕ) (force : Bool) where
  Refuses-reported :
      (x : Thrown) (w : World)
      → NoClient x
      → Refuses h s now force w x
      → Refuses h s now force w (reported x)
  Refuses-reported x w n (is_faulted y cause (inl e)) = is_faulted y cause (inr (ap reported e))
  Refuses-reported x w n (is_faulted y cause (inr e)) = absurd (n _ e)
  Refuses-reported x w n (is_absent a e) = absurd (n _ e)
  Refuses-reported x w n (is_other c a b e) = absurd (n _ e)
  Refuses-reported x w n (is_blocked c r a b u e) = absurd (n _ e)
  Refuses-reported x w n (is_expired c a b u e) = absurd (n _ e)
  Refuses-reported x w n (is_unwritten c a b u) = is_unwritten c a b u

  FailsAfter-reported :
      (c : StoredSession) (attempt : String) (x : Thrown) (reply : RefreshReply)
      → NoClient x
      → FailsAfter c attempt x reply
      → FailsAfter c attempt (reported x) reply
  FailsAfter-reported c attempt x _ n (was_lost t e) = absurd (n _ e)
  FailsAfter-reported c attempt x _ n (no_recovery e) = absurd (n _ e)
  FailsAfter-reported c attempt x _ n (denial_unwritten r) = denial_unwritten r
  FailsAfter-reported c attempt x _ n (rotation_unwritten r b) = rotation_unwritten r b
  FailsAfter-reported c attempt x _ n (was_unbound r b e) = absurd (n _ e)

  step-reported :
      (w v : World) (x : Thrown)
      → NoClient x
      → Renews h s now force w (err x, v)
      → Renews h s now force w (err (reported x), v)
  step-reported w v x n (idle e i p t q) =
      let same : e ≡ x = cc in
      idle _ (Refuses-reported x w n (subst (λ (y : Thrown). Refuses h s now force w y) same i))
        refl t q
  step-reported w v x n (kept c here i p t q) = cc
  step-reported w v x n (pending c e here i u k p t q) =
      let same : e ≡ x = cc in
      pending c _ here i u
        (FailsAfter-reported c (attempt_of h c) x (answer h c) n
          (subst (λ (y : Thrown). FailsAfter c (attempt_of h c) y (answer h c)) same k))
        refl t q
  step-reported w v x n (refused c r here i u g p t q) =
      let same : x ≡ client (reason_text r) = cc in absurd (n _ same)
  step-reported w v x n (renewed c r here i u g b p t q) = cc

  translated :
      (w v : World) (e : Thrown)
      → Renews h s now force w (err e, v)
      → Renews h s now force w (to_client_error h e v)
  translated w v (client c) r = r
  translated w v (store x) r = step-reported w v (store x) (λ c. cc) r
  translated w v other r = step-reported w v other (λ c. cc) r

  locked-Renews :
      (w : World) → Renews h s now force w (with_state_lock h.faults (renew_stored h s now force) w)
  locked-Renews w =
      lock_fault_rule (Renews h s now force w) h.faults (renew_stored h s now force) w
        (renew_stored-Renews h s now force w)
        (λ e here. idle e (is_faulted e (inl here) (inl refl)) refl refl refl)

module _ (h : Host) where
  pub ensure-Renews :
      (s : StoredSession) (now : ℕ) (force : Bool) (w : World)
      → ((session_is_current h.platform s now ≡ true)
          × (force ≡ false)
          × (ensure_current_session h s now force w ≡ (ok s, w)))
        ⊎ Renews h s now force w (ensure_current_session h s now force w)
  unfolding ensure_current_session
  ensure-Renews s now force w =
      elim (Bool-cases (not force && session_is_current h.platform s now)) [
        | inl e ↦ inl (ground arith, ground arith, rw e)
        | inr e ↦ inr (
            rw e (
              catch_rule (Renews h s now force w)
                (with_state_lock h.faults (renew_stored h s now force)) (to_client_error h) w
                (λ a v p. rw p at (locked-Renews h s now force w))
                (λ x v p.
                  translated h s now force w v x (rw p at (locked-Renews h s now force w)))))
      ]

  -- A session that is blocked and has no attempt is never sent to the Gateway, and stays as it is.
  pub blocked_never_sent :
      (s c : StoredSession) (now : ℕ) (force : Bool) (w : World) (r : BlockedReason)
      → w.stored ≡ some c
      → blocked_without_attempt c ≡ some r
      → ((ensure_current_session h s now force w).1.sent ≡ w.sent)
        × ((ensure_current_session h s now force w).1.stored ≡ w.stored)
  blocked_never_sent s c now force w r here b = elim (ensure-Renews s now force w) [
    | inl (_, _, e) ↦ rw e (refl, refl)
    | inr step ↦ stays step
  ]
    where
      stays :
          Renews h s now force w (ensure_current_session h s now force w)
          → ((ensure_current_session h s now force w).1.sent ≡ w.sent)
            × ((ensure_current_session h s now force w).1.stored ≡ w.stored)
      stays (idle e i p t q) = (q, t)
      stays (kept d there i p t q) = (q, t)
      stays (pending d e there i u k p t q) = let x : c ≡ d = ground arith in cc (rw x at b)
      stays (refused d e there i u g p t q) = let x : c ≡ d = ground arith in cc (rw x at b)
      stays (renewed d e there i u g f p t q) = let x : c ≡ d = ground arith in cc (rw x at b)

  -- A forced call that returns a session has it in the file.
  pub forced_is_stored :
      (s t : StoredSession) (now : ℕ) (w : World)
      → (ensure_current_session h s now true w).0 ≡ ok t
      → (ensure_current_session h s now true w).1.stored ≡ some t
  forced_is_stored s t now w e = elim (ensure-Renews s now true w) [
    | inl (_, f, _) ↦ cc
    | inr step ↦ holds step
  ]
    where
      holds :
          Renews h s now true w (ensure_current_session h s now true w)
          → (ensure_current_session h s now true w).1.stored ≡ some t
      holds (idle x i p v q) = cc
      holds (kept d there i p v q) = ground arith
      holds (pending d x there i u k p v q) = cc
      holds (refused d r there i u g p v q) = cc
      holds (renewed d r there i u g f p v q) = ground arith
