-- ===== src/Session/Replacement/Steps.antt =====
-- What a commit does, as one of six steps, each with the requests that it has sent.
use ceal_cli.Base.{
  String, List, [], ◌∷◌, Option, none, some, Bool, true, false, ◌&&◌, ◌≡◌, subst, ◌≢◌,
}
use ceal_cli.Base.Outcome.{ok}
use ceal_cli.Session.{StoredSession}
use ceal_cli.Session.Identity.{changed_session_identity_bindings}
use ceal_cli.Session.World.{World, Result, Request, revoke}
use ceal_cli.Session.Replacement.{
  Dependencies, Disposition, SessionCommit, committed, identity_conflict, store_failure,
  first_session, same_identity, replaced, disposition_of, revocation_of, not_applicable, is_ended,
  remover_result,
}

abbrev pub Sent : Type 0
Sent = List (Request × Option StoredSession)

-- The revocation of `s`, sent while the file held `file`.
abbrev pub revocation : StoredSession → Option StoredSession → Request × Option StoredSession
revocation s file = (revoke s.refresh_token, file)

abbrev pub disposition : Dependencies → StoredSession → Disposition
disposition d s = disposition_of (revocation_of (d.revoke_reply s.refresh_token))

abbrev pub cleared : Dependencies → Bool
cleared d = remover_result d.remove_discovery_cache && remover_result d.remove_receipt_spool

-- The requests that end what is stored, and what they answer.
abbrev pub sent_before : World → Sent
sent_before w = elim w.stored [ none ↦ w.sent | some c ↦ revocation c (some c) ∷ w.sent ]

abbrev pub was_ended : Dependencies → World → Bool
was_ended d w = elim w.stored [ none ↦ false | some c ↦ is_ended (disposition d c) ]

-- The commit may overwrite what is stored.
abbrev pub Overwrites : StoredSession → Bool → World → Type 0
Overwrites incoming force w =
    (c : StoredSession)
    → w.stored ≡ some c
    → force ≡ false
    → changed_session_identity_bindings c incoming ≡ []

-- `o` is the result and the state that a commit of `incoming` leaves, from the state `w`.
pub data Commits (d : Dependencies) (incoming : StoredSession) (force : Bool) (w : World)
    (o : Result SessionCommit) : Type 0 where
  -- nothing was stored
  first :
      w.stored ≡ none
      → o.0 ≡ ok (committed first_session not_applicable (cleared d))
      → o.1.stored ≡ some incoming
      → o.1.sent ≡ w.sent
      → Commits d incoming force w o
  -- the stored session has the same identity: it is revoked before it is overwritten
  renewal :
      (c : StoredSession)
      → w.stored ≡ some c
      → changed_session_identity_bindings c incoming ≡ []
      → o.0 ≡ ok (committed same_identity (disposition d c) false)
      → o.1.stored ≡ some incoming
      → o.1.sent ≡ revocation c (some c) ∷ w.sent
      → Commits d incoming force w o
  -- another identity, replaced by force: revoked before it is overwritten
  substitution :
      (c : StoredSession)
      → w.stored ≡ some c
      → changed_session_identity_bindings c incoming ≢ []
      → force ≡ true
      → o.0 ≡ ok (committed replaced (disposition d c) (cleared d))
      → o.1.stored ≡ some incoming
      → o.1.sent ≡ revocation c (some c) ∷ w.sent
      → Commits d incoming force w o
  -- another identity, without force: the incoming session is revoked and the file stays
  conflict :
      (c : StoredSession)
      → w.stored ≡ some c
      → changed_session_identity_bindings c incoming ≢ []
      → force ≡ false
      → o.0
        ≡ ok (
            identity_conflict
              (changed_session_identity_bindings c incoming)
              (disposition d incoming))
      → o.1.stored ≡ w.stored
      → o.1.sent ≡ revocation incoming (some c) ∷ w.sent
      → Commits d incoming force w o
  -- the write threw: whatever was displaced is ended, and the incoming session is revoked
  unwritten :
      (code : String)
      → Overwrites incoming force w
      → o.0 ≡ ok (store_failure code (was_ended d w) (disposition d incoming))
      → o.1.stored ≡ w.stored
      → o.1.sent ≡ revocation incoming w.stored ∷ sent_before w
      → Commits d incoming force w o
  -- the lock or the read threw: nothing was displaced
  unopened :
      (code : String)
      → o.0 ≡ ok (store_failure code false (disposition d incoming))
      → o.1.stored ≡ w.stored
      → o.1.sent ≡ revocation incoming w.stored ∷ w.sent
      → Commits d incoming force w o

pub same_changed :
    (incoming : StoredSession) (w : World) (c k : StoredSession)
    → w.stored ≡ some c
    → w.stored ≡ some k
    → changed_session_identity_bindings c incoming ≡ []
    → changed_session_identity_bindings k incoming ≡ []
same_changed incoming w c k here there same =
    let e : c ≡ k = cc in subst (λ z. changed_session_identity_bindings z incoming ≡ []) e same
