-- ===== src/Session/Logout/Truthful.antt =====
-- What a logout prints is what it did.
use ceal_cli.Base.{none, some, true, ◌≡◌, refl}
use ceal_cli.Base.Outcome.{ok}
use ceal_cli.Session.{StoredSession}
use ceal_cli.Session.World.{World, Result}
use ceal_cli.Session.Replacement.{
  Dependencies, Disposition, already_unusable, RevokeReply, accepted, rejected, failed,
}
use ceal_cli.Session.Logout.{
  Logout, logged_out, local_cleanup_failed, is_revoked, logout_report, run_session_logout,
}
use ceal_cli.Session.Replacement.Steps.{cleared}
use ceal_cli.Session.Logout.Ends.{
  Ends, nothing_stored, ended, left_behind, refused, unopened, HasEnded, run_logout-Ends,
}

-- The gateway accepted the revocation of the stored session.
abbrev pub WasAccepted : Dependencies → World → Type 0
WasAccepted d w =
    (s : StoredSession) × (w.stored ≡ some s) × (d.revoke_reply s.refresh_token ≡ accepted)

revoked-accepted :
    (reply : RevokeReply) (x : Disposition)
    → HasEnded reply x
    → is_revoked x ≡ true
    → reply ≡ accepted
revoked-accepted accepted x e r = refl
revoked-accepted (rejected code) x (u, e) r =
    let no : is_revoked already_unusable ≡ true = rw e at r in cc
revoked-accepted (failed t) x e r = absurd e

module _ (d : Dependencies) (w : World) (r : Logout) where
  says_revoked :
      (o : Result Logout)
      → Ends d w o
      → o.0 ≡ ok r
      → (logout_report r).server_session_revoked ≡ true
      → WasAccepted d w
  unfolding logout_report
  says_revoked o (nothing_stored c a b s q) e t = cc
  says_revoked o (ended c x a g b s q) e t =
      let same : logged_out x (cleared d) ≡ r = cc in
      (c, a, revoked-accepted (d.revoke_reply c.refresh_token) x g (rw (← same) at t))
  says_revoked o (left_behind c x reason a g b s q) e t =
      let same : local_cleanup_failed x reason ≡ r = cc in
      (c, a, revoked-accepted (d.revoke_reply c.refresh_token) x g (rw (← same) at t))
  says_revoked o (refused c reason a g b s q) e t = cc
  says_revoked o (unopened reason i b s q) e t = cc

  says_ok :
      (o : Result Logout)
      → Ends d w o
      → o.0 ≡ ok r
      → (logout_report r).is_ok ≡ true
      → o.1.stored ≡ none
  unfolding logout_report
  says_ok o (nothing_stored c a b s q) e t = s
  says_ok o (ended c x a g b s q) e t = s
  says_ok o (left_behind c x reason a g b s q) e t = cc
  says_ok o (refused c reason a g b s q) e t = cc
  says_ok o (unopened reason i b s q) e t = cc

-- A logout that reports the server session as revoked had a session in the file, and the Gateway
-- accepted the revocation of its refresh token.
pub reported_revoked :
    (d : Dependencies) (w : World) (r : Logout)
    → (run_session_logout d w).0 ≡ ok r
    → (logout_report r).server_session_revoked ≡ true
    → WasAccepted d w
reported_revoked d w r e t = says_revoked d w r _ (run_logout-Ends d w) e t

-- After a logout that reports success no session is in the file.
pub reported_ok :
    (d : Dependencies) (w : World) (r : Logout)
    → (run_session_logout d w).0 ≡ ok r
    → (logout_report r).is_ok ≡ true
    → (run_session_logout d w).1.stored ≡ none
reported_ok d w r e t = says_ok d w r _ (run_logout-Ends d w) e t
