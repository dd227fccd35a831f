-- ===== src/Session/World.antt =====
-- The state that the session commands change, and the actions on it: a value or a thrown error,
-- and the state that is left. All of them run under the store's lock.
pub mod Rules
pub mod Writes
use ceal_cli.Base.{ℕ, suc, String, List, ◌∷◌, Option, none, some, Bool, str_eq, if◌then◌else◌}
use ceal_cli.Base.Outcome.{Outcome, ok, err}
use ceal_cli.Platform.{Platform}
use ceal_cli.Session.{StoredSession, candidate, validate_session, invalid_store}
use ceal_cli.Session.Failure.{Thrown, store}

-- One request to the Gateway's session routes.
pub data Request : Type 0 where
  refresh : String → String → Request
  revoke : String → Request

pub record World : Type 0 where
  -- the session file: none is an absent file
  pub stored : Option StoredSession
  -- requests sent, the latest first, each with the session file at that moment
  pub sent : List (Request × Option StoredSession)
  -- how often the file was read and written, which indexes the faults below
  pub reads : ℕ
  pub writes : ℕ
  -- whether the discovery cache and the receipt spool, which sessions fill, hold anything
  pub discovery_cache : Bool
  pub receipt_spool : Bool

-- What the file system may do to a command: the error of the n-th read or write, if any.
pub record Faults : Type 0 where
  pub lock : Option Thrown
  pub read : ℕ → Option Thrown
  pub write : ℕ → Option Thrown
  pub remove : Option Thrown

abbrev pub Action : Type 0 → Type 0
Action A = World → Outcome Thrown A × World

abbrev pub Result : Type 0 → Type 0
Result A = Outcome Thrown A × World

abbrev pub follow : {A B : Type 0} → (A → Action B) → Result A → Result B
follow f (ok a, w) = f a w
follow f (err e, w) = (err e, w)

infixl 5 ◌>>=◌ ◌>>◌
abbrev pub ◌>>=◌ : {A B : Type 0} → Action A → (A → Action B) → Action B
◌>>=◌ m f w = follow f (m w)

abbrev pub ◌>>◌ : {B : Type 0} → Action (Unit {0}) → Action B → Action B
m >> k = m >>= λ _. k

abbrev pub pure : {A : Type 0} → A → Action A
pure a w = (ok a, w)

abbrev pub throw : {A : Type 0} → Thrown → Action A
throw e w = (err e, w)

abbrev pub recover : {A : Type 0} → (Thrown → Action A) → Result A → Result A
recover handler (ok a, w) = (ok a, w)
recover handler (err e, w) = handler e w

-- try { m } catch (error) { handler(error) }
abbrev pub catch : {A : Type 0} → Action A → (Thrown → Action A) → Action A
catch m handler w = recover handler (m w)

abbrev pub branch : {A B : Type 0} → (A → Action B) → (Thrown → Action B) → Result A → Result B
branch next handler (ok a, w) = next a w
branch next handler (err e, w) = handler e w

-- try { a = m } catch (error) { return handler(error) } next(a)
abbrev pub attempt : {A B : Type 0} → Action A → (Thrown → Action B) → (A → Action B) → Action B
attempt m handler next w = branch next handler (m w)

abbrev pub faulted : Option Thrown → Action (Unit {0})
faulted none w = (ok tt, w)
faulted (some e) w = (err e, w)

-- store.load: readSessionFile
unfoldable pub load : Faults → Action (Option StoredSession)
load f w =
    let w' : World = record w { reads = suc w.reads } in
    elim (f.read w.reads) [ none ↦ (ok w.stored, w') | some e ↦ (err e, w') ]

-- store.save: writeSessionFile
unfoldable pub save : Platform → Faults → StoredSession → Action (Unit {0})
save p f s w = elim (validate_session p (candidate s)) [
  | err e ↦ (err (store e), w)
  | ok _ ↦
      let w' : World = record w { writes = suc w.writes } in
      elim (f.write w.writes) [
        | none ↦ (ok tt, record w' { stored = some s })
        | some e ↦ (err e, w')
      ]
]

unfoldable pub expect_token : String → Option StoredSession → Action (Unit {0})
expect_token expected none = throw (store invalid_store)
expect_token expected (some c) =
    if str_eq c.refresh_token expected then pure tt else throw (store invalid_store)

-- store.replace: replaceSessionFile, a write that expects the refresh token that it replaces
unfoldable pub replace : Platform → Faults → String → StoredSession → Action (Unit {0})
replace p f expected s = do current ← load f; expect_token expected current; save p f s

-- store.remove: removeSessionFile
unfoldable pub remove : Faults → Action (Unit {0})
remove f w = elim f.remove [ none ↦ (ok tt, record w { stored = none }) | some e ↦ (err e, w) ]

-- A request to the Gateway: it is recorded, and the answer is the environment's.
unfoldable pub send : {A : Type 0} → Request → A → Action A
send r answer w = (ok answer, record w { sent = (r, w.stored) ∷ w.sent })

-- store.withStateLock(action)
unfoldable pub with_state_lock : {A : Type 0} → Faults → Action A → Action A
with_state_lock f action = do faulted f.lock; action
