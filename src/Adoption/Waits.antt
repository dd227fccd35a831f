-- ===== src/Adoption/Waits.antt =====
-- The wait of an adoption ends, and ends in time.
use ceal_cli.Base.{
  ℕ, zero, suc, ◌+◌, ◌≤◌, ◌<◌, String, List, [], ◌∷◌, Option, none, some, false, ◌≡◌, ◌≢◌, refl,
  arith, inl, inr, Bool-cases, ltb,
}
use ceal_cli.Base.Outcome.{Outcome, ok, err}
use ceal_cli.Session.{StoredSession}
use ceal_cli.Session.Failure.{Thrown}
use ceal_cli.Session.Replacement.{Dependencies}
use ceal_cli.Session.World.{World, load}
use ceal_cli.Adoption.Polling.{
  Entry, started_request, presented, PollReply, thrown, failed, sealed, pending, approval_required,
  Clock, Wait, WaitEnd, gave_up, delivered, is_retried, transport_outcome, at_poll, announce,
  deadline, sleep, sleep_or_stop, remember, handle, poll, wait_from, wait, max_local_wait_ms,
}
use ceal_cli.Adoption.{
  Host, AdoptionOptions, Started, after_start, after_load, after_session, after_options,
  adopt_session, parse_adoption_options, after_polling,
}

-- Every poll takes time.
abbrev pub TakesTime : Clock → Type 0
TakesTime c = (k : ℕ) → 0 < c.took_ms k

module _ (c : Clock) (takes : TakesTime c) where
  sleep_or_stop-ends :
      (k ms now : ℕ) (t : Wait) (next : Wait → Option (WaitEnd × Wait))
      → now < t.now
      → ((u : Wait) → now < u.now → t.now ≤ deadline c → next u ≢ none)
      → sleep_or_stop c k ms next t ≢ none
  sleep_or_stop-ends k ms now t next later ends =
      elim (Bool-cases (ltb (deadline c) (t.now + ms))) [
        | inl e ↦ rw e (λ h. cc)
        | inr e ↦ rw e (ends (sleep c k ms t) (omega arith) (ground arith))
      ]

  handle-ends :
      (k now : ℕ) (t : Wait) (next : Wait → Option (WaitEnd × Wait)) (r : PollReply)
      → now < t.now
      → ((u : Wait) → now < u.now → t.now ≤ deadline c → next u ≢ none)
      → handle c k next r t ≢ none
  handle-ends k now t next (thrown e) later ends =
      elim (Bool-cases (is_retried (transport_outcome at_poll e))) [
        | inl q ↦ rw q (sleep_or_stop-ends k t.retry_after_ms now t next later ends)
        | inr q ↦ rw q (λ h. cc)
      ]
  handle-ends k now t next (failed code) later ends = λ h. cc
  handle-ends k now t next (sealed v) later ends = λ h. cc
  handle-ends k now t next (pending ms) later ends =
      sleep_or_stop-ends k ms now (remember c ms t) next later ends
  handle-ends k now t next (approval_required ms) later ends =
      let u : Wait = announce (remember c ms t) in
      let same : u.now ≡ t.now = ground arith in
      sleep_or_stop-ends k ms now u next (ground arith)
        (λ x after early. ends x after (ground arith))

  wait_from-ends :
      (fuel k : ℕ) (t : Wait)
      → 0 < fuel
      → deadline c + 2 ≤ t.now + fuel
      → wait_from c fuel k t ≢ none
  unfolding wait_from
  wait_from-ends zero k t some_fuel enough = absurd (omega arith)
  wait_from-ends (suc fuel) k t some_fuel enough =
      let took : 0 < c.took_ms k = takes k in
      handle-ends k t.now (poll c k t) (wait_from c fuel (suc k)) (c.reply k) (omega arith)
        (λ u later early. wait_from-ends fuel (suc k) u (omega arith) (omega arith))

after_polling-ends :
    (h : Host) (d : Dependencies) (a : AdoptionOptions) (s : Started) (w : World)
    (o : Option (WaitEnd × Wait))
    → o ≢ none
    → after_polling h d a s w o ≢ none
after_polling-ends h d a s w none e = absurd (e refl)
after_polling-ends h d a s w (some (gave_up code, t)) e = λ q. cc
after_polling-ends h d a s w (some (delivered v, t)) e = λ q. cc

module _ (h : Host) (fuel : ℕ) (takes : TakesTime h.clock)
    (enough : max_local_wait_ms + 2 ≤ fuel) where
  wait-ends : (log : List Entry) → wait h.clock fuel log ≢ none
  wait-ends log =
      let t : Wait = record {
        now = h.clock.begun;
        retry_after_ms = 1000;
        announced = false;
        log = log;
      } in
      wait_from-ends h.clock takes fuel 0 t (omega arith) (omega arith)

  start-ends :
      (d : Dependencies) (a : AdoptionOptions) (w : World) (log : List Entry)
      (r : Outcome (Option String) Started)
      → after_start h fuel d a w log r ≢ none
  start-ends d a w log (err e) = λ q. cc
  start-ends d a w log (ok s) =
      let shown : List Entry = presented s.browser_session_url ∷ log in
      elim (Bool-cases (h.start_bound s a.origin h.keys)) [
        | inr e ↦ rw e (λ q. cc)
        | inl e ↦ rw e (after_polling-ends h d a s w (wait h.clock fuel shown) (wait-ends shown))
      ]

  load-ends :
      (d : Dependencies) (a : AdoptionOptions) (r : Outcome Thrown (Option StoredSession) × World)
      → after_load h fuel d a r ≢ none
  load-ends d a (err e, w) = λ q. cc
  load-ends d a (ok c, w) = start-ends d a w (started_request a.email ∷ []) h.start_reply

  session-ends :
      (a : AdoptionOptions) (w : World) (m : Option Dependencies)
      → after_session h fuel a w m ≢ none
  session-ends a w none = λ q. cc
  session-ends a w (some d) = load-ends d a (load d.faults w)

  options-ends : (w : World) (o : Option AdoptionOptions) → after_options h fuel w o ≢ none
  options-ends w none = λ q. cc
  options-ends w (some a) = session-ends a w h.session

-- With fuel for the local ceiling an adoption ends, if every poll takes at least a millisecond.
pub adopt_session-ends :
    (h : Host) (options : List String) (w : World) (fuel : ℕ)
    → TakesTime h.clock
    → max_local_wait_ms + 2 ≤ fuel
    → adopt_session h fuel options w ≢ none
unfolding adopt_session
adopt_session-ends h options w fuel takes enough =
    options-ends h fuel takes enough w (parse_adoption_options h options)
