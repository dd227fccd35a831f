-- ===== src/Session/Replacement/Custody.antt =====
-- Who names a session's refresh token after a commit of session-replacement.ts: this host's file,
-- or a revocation request.
use ceal_cli.Base.{[], ◌∷◌, some, Bool, false, ◌≡◌, ◌≢◌, ◌⊎◌, inl, inr, ◌∙◌}
use ceal_cli.Session.{StoredSession}
use ceal_cli.Session.Identity.{changed_session_identity_bindings}
use ceal_cli.Session.World.{World, Result}
use ceal_cli.Session.Replacement.{Dependencies, SessionCommit, commit_enrolled_session}
use ceal_cli.Session.Replacement.Steps.{
  Sent, revocation, sent_before, Commits, first, renewal, substitution, conflict, unwritten,
  unopened, same_changed,
}
use ceal_cli.Session.Replacement.Commits.{commit-Commits}

module _ (d : Dependencies) (incoming : StoredSession) (force : Bool) (w : World) where
  named :
      (o : Result SessionCommit)
      → Commits d incoming force w o
      → (o.1.stored ≡ some incoming)
        ⊎ ((o.1.stored ≡ w.stored)
            × ((earlier : Sent) × (o.1.sent ≡ revocation incoming w.stored ∷ earlier)))
  named o (first a b s q) = inl s
  named o (renewal c a x b s q) = inl s
  named o (substitution c a x f b s q) = inl s
  named o (conflict c a x f b s q) = inr (s, (w.sent, cc))
  named o (unwritten c g b s q) = inr (s, (sent_before w, q))
  named o (unopened c b s q) = inr (s, (w.sent, q))

  displaced :
      (c : StoredSession) (o : Result SessionCommit)
      → w.stored ≡ some c
      → Commits d incoming force w o
      → (o.1.stored ≡ some c) ⊎ (o.1.sent ≡ revocation c (some c) ∷ w.sent)
  displaced c o here (first a b s q) = cc
  displaced c o here (renewal e a x b s q) = inr (cc)
  displaced c o here (substitution e a x f b s q) = inr (cc)
  displaced c o here (conflict e a x f b s q) = inl (s ∙ here)
  displaced c o here (unwritten e g b s q) = inl (s ∙ here)
  displaced c o here (unopened e b s q) = inl (s ∙ here)

  protected :
      (c : StoredSession) (o : Result SessionCommit)
      → force ≡ false
      → w.stored ≡ some c
      → changed_session_identity_bindings c incoming ≢ []
      → Commits d incoming force w o
      → (o.1.stored ≡ some c) × (o.1.sent ≡ revocation incoming (some c) ∷ w.sent)
  protected c o unforced here x (first a b s q) = cc
  protected c o unforced here x (renewal e a y b s q) =
      absurd (x (same_changed incoming w e c a here y))
  protected c o unforced here x (substitution e a y f b s q) = cc
  protected c o unforced here x (conflict e a y f b s q) = (s ∙ here, cc)
  protected c o unforced here x (unwritten e g b s q) = absurd (x (g c here unforced))
  protected c o unforced here x (unopened e b s q) = (s ∙ here, cc)

-- Whatever fails, a commit leaves the incoming session in the file, or it leaves the file as it was
-- and the last request of all is the revocation of the incoming session.
pub incoming_is_named :
    (d : Dependencies) (incoming : StoredSession) (force : Bool) (w : World)
    → ((commit_enrolled_session d incoming force w).1.stored ≡ some incoming)
      ⊎ (((commit_enrolled_session d incoming force w).1.stored ≡ w.stored)
          × ((earlier : Sent) × ((commit_enrolled_session d incoming force w).1.sent
                ≡ revocation incoming w.stored ∷ earlier)))
incoming_is_named d incoming force w =
    named d incoming force w _ (commit-Commits d incoming force w)

-- A commit either leaves the stored session in the file, or the one request that it has sent is
-- the revocation of that session, made while the file still held it.
pub displaced_is_revoked :
    (d : Dependencies) (incoming : StoredSession) (force : Bool) (w : World) (c : StoredSession)
    → w.stored ≡ some c
    → ((commit_enrolled_session d incoming force w).1.stored ≡ some c)
      ⊎ ((commit_enrolled_session d incoming force w).1.sent ≡ revocation c (some c) ∷ w.sent)
displaced_is_revoked d incoming force w c here =
    displaced d incoming force w c _ here (commit-Commits d incoming force w)

-- Without force, a stored session whose identity differs from the incoming one's stays in the
-- file, and the one request that the commit sends is the revocation of the incoming session.
pub unforced_conflict_keeps :
    (d : Dependencies) (incoming : StoredSession) (force : Bool) (w : World) (c : StoredSession)
    → force ≡ false
    → w.stored ≡ some c
    → changed_session_identity_bindings c incoming ≢ []
    → ((commit_enrolled_session d incoming force w).1.stored ≡ some c)
      × ((commit_enrolled_session d incoming force w).1.sent
          ≡ revocation incoming (some c) ∷ w.sent)
unforced_conflict_keeps d incoming force w c unforced here x =
    protected d incoming force w c _ unforced here x (commit-Commits d incoming force w)
