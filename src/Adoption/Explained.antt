-- ===== src/Adoption/Explained.antt =====
-- Every end of an adoption: a refusal that leaves the session's state, or a commit of a session that
-- this device was given.
use ceal_cli.Base.{
  ℕ, String, List, [], ◌∷◌, Option, none, some, Bool, true, false, ◌≡◌, refl, sym, ap, subst, ◌∙◌,
  arith, inl, inr, Bool-cases,
}
use ceal_cli.Base.Outcome.{Outcome, ok, err}
use ceal_cli.Session.{StoredSession}
use ceal_cli.Session.Failure.{Thrown}
use ceal_cli.Session.Replacement.{
  Dependencies, SessionCommit, commit_enrolled_session, commit_locked, revoke_session,
  request_revocation,
}
use ceal_cli.Session.World.{World, Action, recover, with_state_lock, load, send}
use ceal_cli.Adoption.Polling.{
  sealed, Entry, started_request, presented, opened, Delivery, Wait, WaitEnd, gave_up, delivered,
  wait_from, poll_retry_floor_ms,
}
use ceal_cli.Adoption.{
  Host, AdoptionOptions, Started, SealedPayload, stored_of, Ended, AdoptionResult, refused,
  bad_usage, finished, after_start, after_load, after_session, after_options, adopt_session,
  parse_adoption_options, after_polling, complete_adoption, read_plaintext, commit_payload,
  report_commit,
}
use ceal_cli.Adoption.Bound.{
  All, IsAccepted, IsDelivery, IsBound, IsCommitted, Waited, wait_from-Waited,
}

recover_ok :
    {A : Type 0} (handler : Thrown → Action A)
    → ((e : Thrown) (w : World) → (a : A) × ((handler e w).0 ≡ ok a))
    → (r : Outcome Thrown A × World) → (a : A) × ((recover handler r).0 ≡ ok a)
recover_ok handler h (ok a, w) = (a, refl)
recover_ok handler h (err e, w) = h e w

-- A commit returns an outcome: what its steps throw, it catches.
commit_never_throws :
    (d : Dependencies) (s : StoredSession) (force : Bool) (w : World)
    → (c : SessionCommit) × ((commit_enrolled_session d s force w).0 ≡ ok c)
unfolding commit_enrolled_session revoke_session request_revocation send
commit_never_throws d s force w =
    recover_ok _ (λ e x. (_, refl)) (with_state_lock d.faults (commit_locked d s force) w)

abbrev pub Untouched : World → World → Type 0
Untouched w x = (x.stored ≡ w.stored) × (x.sent ≡ w.sent)

-- A refusal leaves the session file as it was and sends no request for a session; any other end is
-- that of a commit.
abbrev pub Explains :
    Host → AdoptionOptions → World → Ended → Outcome Thrown AdoptionResult → Type 0
Explains h a w e (ok (refused code)) = Untouched w e.world
Explains h a w e (ok bad_usage) = ⊥
Explains h a w e (ok (finished c)) = IsCommitted h a w e c
Explains h a w e (err x) = ⊥

abbrev pub IsExplained : Host → AdoptionOptions → World → Ended → Type 0
IsExplained h a w e = All (IsBound h a) e.log × Explains h a w e e.result

module _ (h : Host) (d : Dependencies) (a : AdoptionOptions) (s : Started) (w x : World)
    (capable : h.session ≡ some d) (accepted : IsAccepted h a s) (kept : Untouched w x) where
  commit-IsExplained :
      (v : Delivery) (plaintext : String) (payload : SealedPayload) (log : List Entry)
      (r : Outcome Thrown SessionCommit × World)
      → IsDelivery h a s v
      → h.open_sealed h.keys.recipient_private_key v ≡ some plaintext
      → h.decode_payload plaintext ≡ some payload
      → h.payload_bound v.binding payload ≡ true
      → commit_enrolled_session d (stored_of a.gateway payload) a.force x ≡ r
      → All (IsBound h a) log
      → IsExplained h a w (report_commit log r)
  commit-IsExplained v plaintext payload log (ok c, y) checked opens decodes bound commits l = (
    l,
    record {
      capability = d;
      started = s;
      delivery = v;
      plaintext = plaintext;
      payload = payload;
      loaded = x;
      capable = capable;
      accepted = accepted;
      checked = checked;
      decrypted = opens;
      decoded = decodes;
      bound = bound;
      kept = kept;
      committed = commits;
    },
  )
  commit-IsExplained v plaintext payload log (err e, y) checked opens decodes bound commits l =
      let (c, returned) = commit_never_throws d (stored_of a.gateway payload) a.force x in
      let thrown : (commit_enrolled_session d (stored_of a.gateway payload) a.force x).0 ≡ err e =
        ap (λ z. z.0) commits in
      cc

  payload-IsExplained :
      (v : Delivery) (plaintext : String) (o : Option SealedPayload) (log : List Entry)
      → IsDelivery h a s v
      → h.open_sealed h.keys.recipient_private_key v ≡ some plaintext
      → h.decode_payload plaintext ≡ o
      → All (IsBound h a) log
      → IsExplained h a w (commit_payload h d a s v.binding x log o)
  payload-IsExplained v plaintext none log checked opens decodes l = (l, kept)
  payload-IsExplained v plaintext (some payload) log checked opens decodes l =
      elim (Bool-cases (h.payload_bound v.binding payload)) [
        | inl e ↦ rw e (
            commit-IsExplained v plaintext payload log
              (commit_enrolled_session d (stored_of a.gateway payload) a.force x) checked opens
              decodes e refl l)
        | inr e ↦ rw e (l, kept)
      ]

  plaintext-IsExplained :
      (v : Delivery) (o : Option String) (log : List Entry)
      → IsDelivery h a s v
      → h.open_sealed h.keys.recipient_private_key v ≡ o
      → All (IsBound h a) log
      → IsExplained h a w (read_plaintext h d a s v.binding x log o)
  plaintext-IsExplained v none log checked opens l = (l, kept)
  plaintext-IsExplained v (some plaintext) log checked opens l =
      payload-IsExplained v plaintext (h.decode_payload plaintext) log checked opens refl l

  complete-IsExplained :
      (v : Delivery) (log : List Entry)
      → ((k : ℕ) × (h.clock.reply k ≡ sealed v))
      → All (IsBound h a) log
      → IsExplained h a w (complete_adoption h d a s v x log)
  unfolding complete_adoption
  complete-IsExplained v log sent l =
      elim (Bool-cases (h.delivery_bound v.binding a.origin s h.keys)) [
        | inl e ↦ rw e (
            plaintext-IsExplained v (h.open_sealed h.keys.recipient_private_key v) (opened v ∷ log)
              (e, sent) refl ((s, accepted, (e, sent)), l))
        | inr e ↦ rw e (l, kept)
      ]

abbrev Explained : Host → AdoptionOptions → World → Option Ended → Type 0
Explained h a w none = Unit {0}
Explained h a w (some e) = IsExplained h a w e

module _ (h : Host) (a : AdoptionOptions) (w : World) (fuel : ℕ) where
  wait-Explained :
      (d : Dependencies) (s : Started) (x : World) (o : Option (WaitEnd × Wait))
      → h.session ≡ some d
      → IsAccepted h a s
      → Untouched w x
      → Waited h.clock (IsBound h a) tt tt (λ ms. tt) o
      → Explained h a w (after_polling h d a s x o)
  wait-Explained d s x none capable accepted kept waited = tt
  wait-Explained d s x (some (gave_up code, t)) capable accepted kept waited = (waited, kept)
  wait-Explained d s x (some (delivered v, t)) capable accepted kept waited =
      complete-IsExplained h d a s w x capable accepted kept v t.log waited.1 waited.0

  start-Explained :
      (d : Dependencies) (x : World) (log : List Entry) (r : Outcome (Option String) Started)
      → h.session ≡ some d
      → Untouched w x
      → h.start_reply ≡ r
      → All (IsBound h a) log
      → Explained h a w (after_start h fuel d a x log r)
  start-Explained d x log (err e) capable kept replied l = (l, kept)
  start-Explained d x log (ok s) capable kept replied l =
      elim (Bool-cases (h.start_bound s a.origin h.keys)) [
        | inr e ↦ rw e (l, kept)
        | inl e ↦
            let t : Wait = record {
              now = h.clock.begun;
              retry_after_ms = poll_retry_floor_ms;
              announced = false;
              log = presented s.browser_session_url ∷ log;
            } in
            rw e (
              wait-Explained d s x (wait_from h.clock fuel 0 t) capable (replied, e) kept
                (wait_from-Waited h.clock (IsBound h a) tt tt (λ ms. tt) fuel 0 t
                  ((s, (replied, e), refl), l)))
      ]

  load-Explained :
      (d : Dependencies) (r : Outcome Thrown (Option StoredSession) × World)
      → h.session ≡ some d
      → Untouched w r.1
      → Explained h a w (after_load h fuel d a r)
  load-Explained d (err e, x) capable kept = (tt, kept)
  load-Explained d (ok c, x) capable kept =
      start-Explained d x (started_request a.email ∷ []) h.start_reply capable kept refl (tt, tt)

  load_keeps : (d : Dependencies) → Untouched w (load d.faults w).1
  unfolding load
  load_keeps d = ground arith

  session-Explained :
      (m : Option Dependencies) → h.session ≡ m → Explained h a w (after_session h fuel a w m)
  session-Explained none capable = (tt, (refl, refl))
  session-Explained (some d) capable = load-Explained d (load d.faults w) capable (load_keeps d)

-- Every end of an adoption with valid options. What the log shows as the page to open is the page of
-- an accepted start response, and what was decrypted is a delivery of the Gateway that was checked
-- first. A refusal leaves the session file and sends nothing for a session; any other end is that of
-- a commit, of a session that this device's key opened and that is bound to the delivery.
pub adopt_session-IsExplained :
    (h : Host) (options : List String) (a : AdoptionOptions) (w : World) (fuel : ℕ) (e : Ended)
    → parse_adoption_options h options ≡ some a
    → adopt_session h fuel options w ≡ some e
    → IsExplained h a w e
unfolding adopt_session
adopt_session-IsExplained h options a w fuel e parsed ended =
    subst (Explained h a w) there (session-Explained h a w fuel h.session refl)
  where
    there : after_session h fuel a w h.session ≡ some e
    there = ap (after_options h fuel w) (sym parsed) ∙ ended
