-- ===== src/Session/Replacement/Commits.antt =====
-- Every commit of session-replacement.ts is one of the six steps.
use ceal_cli.Base.{
  String, List, [], ◌∷◌, Option, none, some, Bool, true, false, ◌≡◌, refl, ◌≢◌, ◌∙◌,
}
use ceal_cli.Base.Outcome.{ok, err}
use ceal_cli.Session.{StoredSession}
use ceal_cli.Session.Identity.{changed_session_identity_bindings}
use ceal_cli.Session.Failure.{Thrown}
use ceal_cli.Session.World.{World, Result, revoke, send, ◌>>=◌, pure, with_state_lock}
use ceal_cli.Session.World.Rules.{catch_rule, lock_rule}
use ceal_cli.Session.World.Writes.{save-Written, load_rule, branch_Written}
use ceal_cli.Session.Replacement.{
  Dependencies, SessionCommit, store_failure, not_applicable, code_of, revoke_session,
  request_revocation, clear_session_derived_state, revoke_current, after_save, after_failed_save,
  write_incoming, decide, commit_locked, commit_enrolled_session,
}
use ceal_cli.Session.Replacement.Steps.{
  disposition, Commits, first, renewal, substitution, conflict, unwritten, unopened, same_changed,
}

module _ (d : Dependencies) (incoming : StoredSession) (force : Bool) (w : World) where
  -- With nothing stored there is nothing to revoke.
  fresh-Commits :
      (v : World)
      → w.stored ≡ none
      → v.stored ≡ w.stored
      → v.sent ≡ w.sent
      → Commits d incoming force w (write_incoming d incoming none false v)
  unfolding write_incoming revoke_current after_save after_failed_save revoke_session
      request_revocation clear_session_derived_state send
  fresh-Commits v here s q =
      branch_Written (Commits d incoming force w) incoming v
        (λ _. after_save d none false not_applicable) (after_failed_save d incoming not_applicable)
        _ (save-Written d.platform d.faults incoming v) (λ u a b. first here refl a (b ∙ q))
        (λ e u a b. unwritten (code_of e) (λ c g f. cc) (rw here refl) (a ∙ s) (rw here (cc)))

  -- The world after the stored session has been revoked.
  abbrev revoked_world : World → StoredSession → World
  revoked_world v c = record v { sent = (revoke c.refresh_token, v.stored) ∷ v.sent }

  -- The stored session is revoked first, whatever the write does then.
  kept-Commits :
      (c : StoredSession) (v : World)
      → w.stored ≡ some c
      → v.stored ≡ w.stored
      → v.sent ≡ w.sent
      → changed_session_identity_bindings c incoming ≡ []
      → Commits d incoming force w (write_incoming d incoming (some c) false v)
  unfolding write_incoming revoke_current after_save after_failed_save revoke_session
      request_revocation send
  kept-Commits c v here s q same =
      branch_Written (Commits d incoming force w) incoming (revoked_world v c)
        (λ _. after_save d (some c) false (disposition d c))
        (after_failed_save d incoming (disposition d c)) _
        (save-Written d.platform d.faults incoming (revoked_world v c))
        (λ u a b. renewal c here same refl a (b ∙ cc))
        (λ e u a b.
          unwritten (code_of e) (λ k g f. same_changed incoming w c k here g same) (rw here refl)
            (a ∙ s) (rw here (cc)))

  substitution-Commits :
      (c : StoredSession) (v : World)
      → w.stored ≡ some c
      → v.stored ≡ w.stored
      → v.sent ≡ w.sent
      → changed_session_identity_bindings c incoming ≢ []
      → force ≡ true
      → Commits d incoming force w (write_incoming d incoming (some c) true v)
  unfolding write_incoming revoke_current after_save after_failed_save revoke_session
      request_revocation clear_session_derived_state send
  substitution-Commits c v here s q other forced =
      branch_Written (Commits d incoming force w) incoming (revoked_world v c)
        (λ _. after_save d (some c) true (disposition d c))
        (after_failed_save d incoming (disposition d c)) _
        (save-Written d.platform d.faults incoming (revoked_world v c))
        (λ u a b. substitution c here other forced refl a (b ∙ cc))
        (λ e u a b. unwritten (code_of e) (λ k g f. cc) (rw here refl) (a ∙ s) (rw here (cc)))

  changed-Commits :
      (c : StoredSession) (v : World) (f : Bool) (names : List String) (n : String)
      → force ≡ f
      → w.stored ≡ some c
      → v.stored ≡ w.stored
      → v.sent ≡ w.sent
      → changed_session_identity_bindings c incoming ≡ n ∷ names
      → Commits d incoming force w (decide d incoming f (some c) v)
  unfolding decide revoke_session request_revocation send
  changed-Commits c v true names n forced here s q e =
      rw (e, decide) (substitution-Commits c v here s q (λ z. cc) forced)
  changed-Commits c v false names n unforced here s q e =
      rw (e, decide) (conflict c here (λ z. cc) unforced (rw e refl) s (cc))

  decide-Commits :
      (current : Option StoredSession) (v : World)
      → w.stored ≡ current
      → v.stored ≡ w.stored
      → v.sent ≡ w.sent
      → Commits d incoming force w (decide d incoming force current v)
  unfolding decide
  decide-Commits none v here s q = fresh-Commits v here s q
  decide-Commits (some c) v here s q = split (changed_session_identity_bindings c incoming) refl
    where
      split :
          (names : List String)
          → changed_session_identity_bindings c incoming ≡ names
          → Commits d incoming force w (decide d incoming force (some c) v)
      split [] e = rw (e, decide) (kept-Commits c v here s q e)
      split (n ∷ names) e = changed-Commits c v force names n refl here s q e

-- What the locked part leaves: a step, or an error before anything was displaced.
data Locked (d : Dependencies) (incoming : StoredSession) (force : Bool) (w : World)
    (o : Result SessionCommit) : Type 0 where
  closed : Commits d incoming force w o → Locked d incoming force w o
  thrown :
      (e : Thrown)
      → o.0 ≡ err e
      → o.1.stored ≡ w.stored
      → o.1.sent ≡ w.sent
      → Locked d incoming force w o

module _ (d : Dependencies) (incoming : StoredSession) (force : Bool) (w : World) where
  commit_locked-Locked :
      Locked d incoming force w (with_state_lock d.faults (commit_locked d incoming force) w)
  unfolding commit_locked
  commit_locked-Locked =
      lock_rule (Locked d incoming force w) d.faults (commit_locked d incoming force) w
        (load_rule (Locked d incoming force w) d.faults w (decide d incoming force)
          (λ v s q. closed (decide-Commits d incoming force w w.stored v refl s q))
          (λ e v s q. thrown e refl s q))
        (λ e. thrown e refl refl refl)

  -- A step returns.
  Commits-returns :
      {A : Type 0} (e : Thrown) (v : World) → Commits d incoming force w (err e, v) → A
  Commits-returns e v (first a b s q) = cc
  Commits-returns e v (renewal c a x b s q) = cc
  Commits-returns e v (substitution c a x f b s q) = cc
  Commits-returns e v (conflict c a x f b s q) = cc
  Commits-returns e v (unwritten c o b s q) = cc
  Commits-returns e v (unopened c b s q) = cc

  Locked-value :
      (a : SessionCommit) (v : World)
      → Locked d incoming force w (ok a, v)
      → Commits d incoming force w (ok a, v)
  Locked-value a v (closed h) = h
  Locked-value a v (thrown e b s q) = cc

  refused-Commits :
      (e : Thrown) (v : World)
      → Locked d incoming force w (err e, v)
      → Commits d incoming force w
          ((do issued ← revoke_session d incoming; pure (store_failure (code_of e) false issued)) v)
  unfolding revoke_session request_revocation send
  refused-Commits e v (closed h) = Commits-returns e v h
  refused-Commits e v (thrown x b s q) = unopened (code_of e) refl s (cc)

  pub commit-Commits : Commits d incoming force w (commit_enrolled_session d incoming force w)
  unfolding commit_enrolled_session
  commit-Commits =
      catch_rule (Commits d incoming force w)
        (with_state_lock d.faults (commit_locked d incoming force)) _ w
        (λ a v e. Locked-value a v (rw e at commit_locked-Locked))
        (λ x v e. refused-Commits x v (rw e at commit_locked-Locked))
