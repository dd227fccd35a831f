-- ===== src/Adoption/Bound.antt =====
-- What an adoption shows, decrypts and stores, and on which of the protocol's checks that rests.
use ceal_cli.Base.{
  ℕ, zero, suc, ◌+◌, String, List, [], ◌∷◌, Option, none, some, true, false, ◌≡◌, refl, sym, subst,
  arith, inl, inr, Bool-cases, ltb,
}
use ceal_cli.Base.Outcome.{ok}
use ceal_cli.Session.Replacement.{Dependencies, SessionCommit, commit_enrolled_session}
use ceal_cli.Session.World.{World}
use ceal_cli.Adoption.Polling.{
  Entry, presented, announced_approval, polled, slept, opened, Delivery, PollReply, thrown, failed,
  sealed, pending, approval_required, Clock, Wait, WaitEnd, gave_up, delivered, is_retried,
  transport_outcome, at_poll, announce, deadline, sleep, sleep_or_stop, remember, handle, poll,
  wait_from,
}
use ceal_cli.Adoption.{Host, AdoptionOptions, Started, SealedPayload, stored_of, Ended}

-- What holds of every entry of a log.
abbrev pub All : (Entry → Type 0) → List Entry → Type 0
All P [] = Unit {0}
All P (e ∷ es) = P e × All P es

announced_log : (t : Wait) → t.announced ≡ true → (announce t).log ≡ t.log
announced_log t e = ground arith

announcing_log : (t : Wait) → t.announced ≡ false → (announce t).log ≡ announced_approval ∷ t.log
announcing_log t e = ground arith

-- The wait keeps what holds of the log, and a sealed delivery is an answer of the Gateway.
module _ (c : Clock) (P : Entry → Type 0) (of_poll : P polled) (of_approval : P announced_approval)
    (of_sleep : (ms : ℕ) → P (slept ms)) where
  abbrev pub Waited : Option (WaitEnd × Wait) → Type 0
  Waited none = Unit {0}
  Waited (some (gave_up code, t)) = All P t.log
  Waited (some (delivered v, t)) = All P t.log × ((k : ℕ) × (c.reply k ≡ sealed v))

  sleep_or_stop-Waited :
      (k ms : ℕ) (t : Wait) (next : Wait → Option (WaitEnd × Wait))
      → All P t.log
      → ((u : Wait) → All P u.log → Waited (next u))
      → Waited (sleep_or_stop c k ms next t)
  sleep_or_stop-Waited k ms t next l waits = elim (Bool-cases (ltb (deadline c) (t.now + ms))) [
    | inl e ↦ rw e l
    | inr e ↦ rw e (waits (sleep c k ms t) (of_sleep ms, l))
  ]

  announce-All : (t : Wait) → All P t.log → All P (announce t).log
  announce-All t l = elim (Bool-cases t.announced) [
    | inl e ↦ subst (All P) (sym (announced_log t e)) l
    | inr e ↦ subst (All P) (sym (announcing_log t e)) (of_approval, l)
  ]

  handle-Waited :
      (k : ℕ) (t : Wait) (next : Wait → Option (WaitEnd × Wait)) (r : PollReply)
      → c.reply k ≡ r
      → All P t.log
      → ((u : Wait) → All P u.log → Waited (next u))
      → Waited (handle c k next r t)
  handle-Waited k t next (thrown e) q l waits =
      elim (Bool-cases (is_retried (transport_outcome at_poll e))) [
        | inl b ↦ rw b (sleep_or_stop-Waited k t.retry_after_ms t next l waits)
        | inr b ↦ rw b l
      ]
  handle-Waited k t next (failed code) q l waits = l
  handle-Waited k t next (sealed v) q l waits = (l, (k, q))
  handle-Waited k t next (pending ms) q l waits =
      sleep_or_stop-Waited k ms (remember c ms t) next l waits
  handle-Waited k t next (approval_required ms) q l waits =
      sleep_or_stop-Waited k ms (announce (remember c ms t)) next (announce-All (remember c ms t) l)
        waits

  pub wait_from-Waited : (fuel k : ℕ) (t : Wait) → All P t.log → Waited (wait_from c fuel k t)
  unfolding wait_from
  wait_from-Waited zero k t l = tt
  wait_from-Waited (suc fuel) k t l =
      handle-Waited k (poll c k t) (wait_from c fuel (suc k)) (c.reply k) refl (of_poll, l)
        (λ u m. wait_from-Waited fuel (suc k) u m)

-- The start response that was accepted: it binds this origin and these keys.
abbrev pub IsAccepted : Host → AdoptionOptions → Started → Type 0
IsAccepted h a s = (h.start_reply ≡ ok s) × (h.start_bound s a.origin h.keys ≡ true)

-- A delivery that the Gateway sent and that belongs to this transaction and these keys.
abbrev pub IsDelivery : Host → AdoptionOptions → Started → Delivery → Type 0
IsDelivery h a s v =
    (h.delivery_bound v.binding a.origin s h.keys ≡ true) × ((k : ℕ) × (h.clock.reply k ≡ sealed v))

-- A page that is shown is that of an accepted response, and what is decrypted is a delivery that was
-- checked.
abbrev pub IsBound : Host → AdoptionOptions → Entry → Type 0
IsBound h a (presented url) = (s : Started) × IsAccepted h a s × (url ≡ s.browser_session_url)
IsBound h a (opened v) = (s : Started) × IsAccepted h a s × IsDelivery h a s v
IsBound h a _ = Unit {0}

-- What a commit rests on: an accepted response, a checked delivery that this device's key opens, and
-- a payload that is bound to it; what is committed is that payload's session.
pub record IsCommitted (h : Host) (a : AdoptionOptions) (w : World) (e : Ended) (c : SessionCommit)
    : Type 0 where
  pub capability : Dependencies
  pub started : Started
  pub delivery : Delivery
  pub plaintext : String
  pub payload : SealedPayload
  pub loaded : World
  pub capable : h.session ≡ some capability
  pub accepted : IsAccepted h a started
  pub checked : IsDelivery h a started delivery
  pub decrypted : h.open_sealed h.keys.recipient_private_key delivery ≡ some plaintext
  pub decoded : h.decode_payload plaintext ≡ some payload
  pub bound : h.payload_bound delivery.binding payload ≡ true
  pub kept : (loaded.stored ≡ w.stored) × (loaded.sent ≡ w.sent)
  pub committed :
      commit_enrolled_session capability (stored_of a.gateway payload) a.force loaded
      ≡ (ok c, e.world)
