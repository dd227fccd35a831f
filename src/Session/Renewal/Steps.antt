-- ===== src/Session/Renewal/Steps.antt =====
-- What a renewal does to the session file and to the Gateway, as one of five steps.
use ceal_cli.Base.{
  ℕ, List, ◌∷◌, Option, none, some, Bool, ◌&&◌, ◌≡◌, refl, suc, subst, sym, ◌∙◌, inl, inr,
  Option-cases, Bool-cases, str_eq,
}
use ceal_cli.Base.Outcome.{ok, err}
use ceal_cli.Session.{StoredSession, BlockedReason, reason_text}
use ceal_cli.Session.Failure.{Thrown, client}
use ceal_cli.Session.World.{
  World, Result, Action, Request, refresh, ◌>>=◌, ◌>>◌, catch, throw, pure, send, load,
}
use ceal_cli.Session.World.Rules.{catch_rule}
use ceal_cli.Session.World.Writes.{Written, done, failed, replace-Written, write_rule}
use ceal_cli.Session.Renewal.Causes.{
  IsSameSession, IsBound, identity_holds-IsSameSession, other_session, bindings_hold-IsBound,
  not-IsBound, IsFresh, Starts, IsDue-cases, Refuses, is_faulted, is_absent, is_other, is_blocked,
  is_expired, is_unwritten, FailsAfter, was_lost, no_recovery, denial_unwritten, rotation_unwritten,
  was_unbound,
}
use ceal_cli.Session.Renewal.{
  Host, RotationResponse, RefreshReply, rotated, recovery_unavailable, denied, lost, journaled,
  blocked, rotated_session, bindings_hold, attempt_of, commit, finish_renewal, rotate,
  renew_session, renew_stored, as_client_error, assert_that, identity_holds,
  blocked_without_attempt, refuse_blocked, require_refresh_context, require_current,
}

-- The requests after the one refresh of `c`: at that moment the file holds the attempt.
abbrev pub one_refresh : Host → StoredSession → World → List (Request × Option StoredSession)
one_refresh h c w =
    (refresh c.refresh_token (attempt_of h c), some (journaled c (attempt_of h c))) ∷ w.sent

abbrev pub answer : Host → StoredSession → RefreshReply
answer h c = h.gateway c.refresh_token (attempt_of h c)

-- `o` is the result and the state that a renewal of the stored session leaves, from the state `w`, for
-- a caller that expects this session.
pub data Renews (h : Host) (expected : StoredSession) (now : ℕ) (force : Bool) (w : World)
    (o : Result StoredSession) : Type 0 where
  -- nothing is sent or written, and the call throws for one of the reasons to
  idle :
      (e : Thrown)
      → Refuses h expected now force w e
      → o.0 ≡ err e
      → o.1.stored ≡ w.stored
      → o.1.sent ≡ w.sent
      → Renews h expected now force w o
  -- the stored session of the caller's identity is still fresh, and is returned as it is
  kept :
      (c : StoredSession)
      → w.stored ≡ some c
      → IsSameSession c expected × IsFresh h expected now force c
      → o.0 ≡ ok c
      → o.1.stored ≡ w.stored
      → o.1.sent ≡ w.sent
      → Renews h expected now force w o
  -- the request is sent, the call throws, and the attempt stays in the file
  pending :
      (c : StoredSession) (e : Thrown)
      → w.stored ≡ some c
      → Starts h expected now force c
      → blocked_without_attempt c ≡ none
      → FailsAfter c (attempt_of h c) e (answer h c)
      → o.0 ≡ err e
      → o.1.stored ≡ some (journaled c (attempt_of h c))
      → o.1.sent ≡ one_refresh h c w
      → Renews h expected now force w o
  -- the Gateway denies, and the file blocks the next renewal
  refused :
      (c : StoredSession) (r : BlockedReason)
      → w.stored ≡ some c
      → Starts h expected now force c
      → blocked_without_attempt c ≡ none
      → answer h c ≡ denied r
      → o.0 ≡ err (client (reason_text r))
      → o.1.stored ≡ some (blocked c r)
      → o.1.sent ≡ one_refresh h c w
      → Renews h expected now force w o
  -- the Gateway rotates for the same identity and this attempt, and the file holds what is returned
  renewed :
      (c : StoredSession) (r : RotationResponse)
      → w.stored ≡ some c
      → Starts h expected now force c
      → blocked_without_attempt c ≡ none
      → answer h c ≡ rotated r
      → IsBound c r (attempt_of h c)
      → o.0 ≡ ok (rotated_session c r)
      → o.1.stored ≡ some (rotated_session c r)
      → o.1.sent ≡ one_refresh h c w
      → Renews h expected now force w o

caught-Written :
    (s : StoredSession) (w : World) (m : Action (Unit {0}))
    → Written s w (m w)
    → Written s w (catch m as_client_error w)
caught-Written s w m h =
    catch_rule (Written s w) m as_client_error w (λ a v e. rw e at h) (λ x v e. thrown (rw e at h))
  where
    thrown : {x : Thrown} {v : World} → Written s w (err x, v) → Written s w (as_client_error x v)
    thrown (done r a b) = cc
    thrown (failed y r a b) = failed _ refl a b

commit-Written : (h : Host) (c s : StoredSession) (w : World) → Written s w (commit h c s w)
unfolding commit
commit-Written h c s w = replace-Written h.platform h.faults s c.refresh_token w

module _ (h : Host) (expected : StoredSession) (now : ℕ) (force : Bool) (c : StoredSession)
    (w : World) (here : w.stored ≡ some c) (starts : Starts h expected now force c)
    (unblocked : blocked_without_attempt c ≡ none) where
  fails_after :
      {e : Thrown} {reply : RefreshReply}
      → answer h c ≡ reply
      → FailsAfter c (attempt_of h c) e reply
      → FailsAfter c (attempt_of h c) e (answer h c)
  fails_after {e} g f = subst (λ (x : RefreshReply). FailsAfter c (attempt_of h c) e x) (sym g) f

  finish-Renews :
      (reply : RefreshReply) (v : World)
      → answer h c ≡ reply
      → v.stored ≡ some (journaled c (attempt_of h c))
      → v.sent ≡ one_refresh h c w
      → Renews h expected now force w (finish_renewal h c (attempt_of h c) reply v)
  unfolding finish_renewal
  finish-Renews (lost e) v g s q =
      pending c _ here starts unblocked (fails_after g (was_lost e refl)) refl s q
  finish-Renews recovery_unavailable v g s q =
      pending c _ here starts unblocked (fails_after g (no_recovery refl)) refl s q
  finish-Renews (denied r) v g s q =
      write_rule (Renews h expected now force w) (blocked c r) v
        (catch (commit h c (blocked c r)) as_client_error) (λ _. throw (client (reason_text r)))
        (caught-Written _ v (commit h c (blocked c r)) (commit-Written h c (blocked c r) v))
        (λ u a b. refused c r here starts unblocked g refl a (b ∙ q))
        (λ e u a b.
          pending c e here starts unblocked (fails_after g (denial_unwritten r)) refl (a ∙ s)
            (b ∙ q))
  finish-Renews (rotated r) v g s q = elim (Bool-cases (bindings_hold c r (attempt_of h c))) [
    | inl e ↦
        let b : IsBound c r (attempt_of h c) = bindings_hold-IsBound c r (attempt_of h c) e in
        rw e (
          write_rule (Renews h expected now force w) (rotated_session c r) v
            (commit h c (rotated_session c r)) (λ _. pure (rotated_session c r))
            (commit-Written h c (rotated_session c r) v)
            (λ u a k. renewed c r here starts unblocked g b refl a (k ∙ q))
            (λ x u a k.
              pending c x here starts unblocked (fails_after g (rotation_unwritten r b)) refl
                (a ∙ s) (k ∙ q)))
    | inr e ↦ rw e (
        pending c (client "binding_changed") here starts unblocked
          (fails_after g (was_unbound r (not-IsBound c r (attempt_of h c) e) refl)) refl s q)
  ]

  rotate-Renews :
      (v : World)
      → v.stored ≡ w.stored
      → v.sent ≡ w.sent
      → Renews h expected now force w (rotate h c c.refresh_token (attempt_of h c) v)
  unfolding rotate send
  rotate-Renews v s q =
      write_rule (Renews h expected now force w) (journaled c (attempt_of h c)) v
        (catch (commit h c (journaled c (attempt_of h c))) as_client_error)
        (λ _.
          send (refresh c.refresh_token (attempt_of h c)) (answer h c)
          >>= finish_renewal h c (attempt_of h c))
        (caught-Written _ v (commit h c (journaled c (attempt_of h c)))
          (commit-Written h c (journaled c (attempt_of h c)) v))
        (λ u a b. finish-Renews _ _ refl a (cc))
        (λ e u a b. idle e (is_unwritten c here starts unblocked) refl (a ∙ s) (b ∙ q))

module _ (h : Host) (expected : StoredSession) (now : ℕ) (force : Bool) (c : StoredSession)
    (w : World) (here : w.stored ≡ some c) where
  refuse-Renews :
      (v : World)
      → Starts h expected now force c
      → v.stored ≡ w.stored
      → v.sent ≡ w.sent
      → Renews h expected now force w (
          (do
            refuse_blocked (blocked_without_attempt c)
            token ← require_refresh_context h.platform c
            rotate h c token (attempt_of h c))
            v)
  unfolding require_refresh_context
  refuse-Renews v starts s q = elim (Option-cases (blocked_without_attempt c)) [
    | inr (r, e) ↦ rw e (idle _ (is_blocked c r here starts e refl) refl s q)
    | inl e ↦ elim (Option-cases (h.platform.parse_date c.refresh_token_absolute_expires_at)) [
      | inl d ↦
          rw (e, require_refresh_context, d) (idle _ (is_expired c here starts d refl) refl s q)
      | inr (_, d) ↦
          rw (e, require_refresh_context, d)
            (rotate-Renews h expected now force c w here starts e v s q)
    ]
  ]

  renew-Renews :
      (v : World)
      → IsSameSession c expected
      → v.stored ≡ w.stored
      → v.sent ≡ w.sent
      → Renews h expected now force w
          (renew_session h c now (force && str_eq c.refresh_token expected.refresh_token) v)
  unfolding renew_session
  renew-Renews v same s q = elim (IsDue-cases h expected now force c) [
    | inl (e, fresh) ↦ rw e (kept c here (same, fresh) refl s q)
    | inr (e, due) ↦ rw e (refuse-Renews v (same, due) s q)
  ]

module _ (h : Host) (expected : StoredSession) (now : ℕ) (force : Bool) where
  stored-Renews :
      (w v : World) (stored : Option StoredSession)
      → w.stored ≡ stored
      → v.stored ≡ w.stored
      → v.sent ≡ w.sent
      → Renews h expected now force w (
          (do
            current ← require_current h stored
            assert_that (identity_holds current expected)
            renew_session h current now
                (force && str_eq current.refresh_token expected.refresh_token))
            v)
  unfolding require_current
  stored-Renews w v none here s q = idle _ (is_absent here refl) refl s q
  stored-Renews w v (some c) here s q = elim (Bool-cases (identity_holds c expected)) [
    | inl e ↦ rw e (
        renew-Renews h expected now force c w here v (identity_holds-IsSameSession c expected e) s
          q)
    | inr e ↦ rw e (idle _ (is_other c here (other_session c expected e) refl) refl s q)
  ]

  -- Every locked renewal is one of the five steps.
  pub renew_stored-Renews :
      (w : World) → Renews h expected now force w (renew_stored h expected now force w)
  unfolding renew_stored load
  renew_stored-Renews w = elim (Option-cases (h.faults.read w.reads)) [
    | inl e ↦
        rw (e, load) (stored-Renews w (record w { reads = suc w.reads }) w.stored refl refl refl)
    | inr (x, e) ↦ rw (e, load) (idle x (is_faulted x (inr e) (inl refl)) refl refl refl)
  ]
