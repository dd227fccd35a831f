-- ===== src/Session/Renewal/History.antt =====
-- Any sequence of renewals, each at its own time, host and random attempt reference: a one-time
-- refresh credential is sent under one attempt reference only.
use ceal_cli.Base.{
  ℕ, String, List, [], ◌∷◌, Option, none, some, Bool, ◌≡◌, refl, ◌≢◌, inl, inr, arith, sym, ◌∙◌,
}
use ceal_cli.Session.{StoredSession}
use ceal_cli.Session.World.{World, Request, refresh, revoke}
use ceal_cli.Session.Renewal.{
  Host, RotationResponse, rotated, ensure_current_session, blocked_without_attempt, attempt_of,
  journaled,
}
use ceal_cli.Session.Renewal.Steps.{
  Renews, idle, kept, pending, refused, renewed, one_refresh, answer,
}
use ceal_cli.Session.Renewal.Calls.{ensure-Renews}

abbrev pub Sent : Type 0
Sent = List (Request × Option StoredSession)

-- Every request of the token carries the attempt.
abbrev pub Carries : String → String → Sent → Type 0
Carries token attempt [] = Unit
Carries token attempt ((refresh t a, _) ∷ rest) =
    (t ≡ token → a ≡ attempt) × Carries token attempt rest
Carries token attempt ((revoke t, _) ∷ rest) = Carries token attempt rest

abbrev pub Unsent : String → Sent → Type 0
Unsent token [] = Unit
Unsent token ((refresh t a, _) ∷ rest) = (t ≢ token) × Unsent token rest
Unsent token ((revoke t, _) ∷ rest) = Unsent token rest

-- No token was sent under two attempts, and the file named the attempt whenever one was sent.
abbrev pub OneAttempt : Sent → Type 0
OneAttempt [] = Unit
OneAttempt ((refresh t a, file) ∷ rest) =
    Carries t a rest
    × ((c : StoredSession) × (file ≡ some c)
        × (c.refresh_token ≡ t)
        × (c.refresh_attempt_ref ≡ some a))
    × OneAttempt rest
OneAttempt ((revoke t, file) ∷ rest) = OneAttempt rest

-- How the stored session stands to the requests that were sent.
pub data Live (c : StoredSession) (sent : Sent) : Type 0 where
  stopped : blocked_without_attempt c ≢ none → Live c sent
  under_way :
      (a : String) → c.refresh_attempt_ref ≡ some a → Carries c.refresh_token a sent → Live c sent
  untried : Unsent c.refresh_token sent → Live c sent

pub record IsOrderly (w : World) : Type 0 where
  pub one : OneAttempt w.sent
  pub live : (c : StoredSession) → w.stored ≡ some c → Live c w.sent

-- What is assumed of the Gateway: a rotation answers with a refresh token that was never sent.
abbrev pub RotatesFresh : Host → World → Type 0
RotatesFresh h w =
    (c : StoredSession) (r : RotationResponse)
    → w.stored ≡ some c
    → answer h c ≡ rotated r
    → Unsent r.refresh_token (one_refresh h c w)

Unsent-Carries : (t a : String) (sent : Sent) → Unsent t sent → Carries t a sent
Unsent-Carries t a [] u = tt
Unsent-Carries t a ((refresh s b, _) ∷ rest) u = (λ e. absurd (u.0 e), Unsent-Carries t a rest u.1)
Unsent-Carries t a ((revoke s, _) ∷ rest) u = Unsent-Carries t a rest u

attempt_of_eq :
    (h : Host) (c : StoredSession) (a : String)
    → c.refresh_attempt_ref ≡ some a
    → attempt_of h c ≡ a
attempt_of_eq h c a e = rw e

-- The attempt that goes out agrees with whatever was sent under its token.
sends_Carries :
    (h : Host) (c : StoredSession) (sent : Sent)
    → blocked_without_attempt c ≡ none
    → Live c sent
    → Carries c.refresh_token (attempt_of h c) sent
sends_Carries h c sent u (stopped n) = absurd (n u)
sends_Carries h c sent u (under_way a e k) = rw (attempt_of_eq h c a e) k
sends_Carries h c sent u (untried f) = Unsent-Carries _ _ sent f

module _ (h : Host) (c : StoredSession) (w : World) (here : w.stored ≡ some c)
    (unblocked : blocked_without_attempt c ≡ none) (orderly : IsOrderly w) where
  sent_Carries : Carries c.refresh_token (attempt_of h c) w.sent
  sent_Carries = sends_Carries h c w.sent unblocked (orderly.live c here)

  one_refresh-OneAttempt : OneAttempt (one_refresh h c w)
  one_refresh-OneAttempt =
      (sent_Carries, (journaled c (attempt_of h c), refl, refl, refl), orderly.one)

stored_Live :
    (v : World) (sent : Sent) (c : StoredSession)
    → v.sent ≡ sent
    → v.stored ≡ some c
    → OneAttempt sent
    → Live c sent
    → IsOrderly v
stored_Live v sent c q s one live = record {
  one = rw q one;
  live = λ d e. let x : c ≡ d = ground arith in rw (q, ← x) live;
}

unchanged-IsOrderly :
    (w v : World) → v.stored ≡ w.stored → v.sent ≡ w.sent → IsOrderly w → IsOrderly v
unchanged-IsOrderly w v s q o = record {
  one = rw q o.one;
  live = λ d e. rw q (o.live d (sym s ∙ e));
}

module _ (h : Host) (s : StoredSession) (now : ℕ) (force : Bool) (w : World) where
  step-IsOrderly :
      Renews h s now force w (ensure_current_session h s now force w)
      → RotatesFresh h w
      → IsOrderly w
      → IsOrderly (ensure_current_session h s now force w).1
  step-IsOrderly (idle e i p t q) fresh o = unchanged-IsOrderly w _ t q o
  step-IsOrderly (kept c here i p t q) fresh o = unchanged-IsOrderly w _ t q o
  step-IsOrderly (pending c e here i u k p t q) fresh o =
      stored_Live _ _ _ q t (one_refresh-OneAttempt h c w here u o)
        (under_way (attempt_of h c) refl ((λ _. refl), sent_Carries h c w here u o))
  step-IsOrderly (refused c r here i u g p t q) fresh o =
      stored_Live _ _ _ q t (one_refresh-OneAttempt h c w here u o) (stopped (λ e. cc))
  step-IsOrderly (renewed c r here i u g b p t q) fresh o =
      stored_Live _ _ _ q t (one_refresh-OneAttempt h c w here u o) (untried (fresh c r here g))

  pub ensure-IsOrderly :
      RotatesFresh h w → IsOrderly w → IsOrderly (ensure_current_session h s now force w).1
  ensure-IsOrderly fresh o = elim (ensure-Renews h s now force w) [
    | inl (_, _, e) ↦ rw e o
    | inr step ↦ step-IsOrderly step fresh o
  ]

-- One command of a history: who runs it, with which session, when, and forced or not.
pub record Call : Type 0 where
  pub host : Host
  pub session : StoredSession
  pub now : ℕ
  pub force : Bool

abbrev pub after : Call → World → World
after c w = (ensure_current_session c.host c.session c.now c.force w).1

pub run : List Call → World → World
run [] w = w
run (c ∷ cs) w = run cs (after c w)

-- Each call of the history meets a Gateway that rotates to a fresh token.
abbrev pub AllFresh : List Call → World → Type 0
AllFresh [] w = Unit
AllFresh (c ∷ cs) w = RotatesFresh c.host w × AllFresh cs (after c w)

-- From an orderly state, and with a Gateway that rotates to tokens never sent, every history of
-- renewals keeps the requests orderly: no refresh token is sent under two attempt references, and
-- at every request the session file held that token and that attempt.
pub run-IsOrderly :
    (cs : List Call) (w : World) → AllFresh cs w → IsOrderly w → IsOrderly (run cs w)
unfolding run
run-IsOrderly [] w f o = o
run-IsOrderly (c ∷ cs) w f o =
    run-IsOrderly cs (after c w) f.1 (ensure-IsOrderly c.host c.session c.now c.force w f.0 o)
