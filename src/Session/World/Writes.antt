-- ===== src/Session/World/Writes.antt =====
-- What a write of the session file leaves, whether it succeeds or throws.
use ceal_cli.Base.{
  String, Option, none, some, ◌≡◌, refl, inl, inr, arith, Option-cases, Bool-cases, str_eq,
}
use ceal_cli.Base.Outcome.{ok, err, Outcome-cases}
use ceal_cli.Platform.{Platform}
use ceal_cli.Session.{StoredSession, candidate, validate_session, invalid_store}
use ceal_cli.Session.Failure.{Thrown, store}
use ceal_cli.Session.World.{
  World, Faults, Action, Result, follow, branch, load, save, replace, expect_token, ◌>>=◌, ◌>>◌,
}
use ceal_cli.Session.World.Rules.{bind_rule}

-- The session is in the file, or the file is as it was; no request is sent.
pub data Written (s : StoredSession) (w : World) (o : Result (Unit {0})) : Type 0 where
  done : o.0 ≡ ok tt → o.1.stored ≡ some s → o.1.sent ≡ w.sent → Written s w o
  failed : (e : Thrown) → o.0 ≡ err e → o.1.stored ≡ w.stored → o.1.sent ≡ w.sent → Written s w o

-- A read returns the file's session or throws, and changes neither file nor requests.
pub data Loaded (w : World) (o : Result (Option StoredSession)) : Type 0 where
  read : o.0 ≡ ok w.stored → o.1.stored ≡ w.stored → o.1.sent ≡ w.sent → Loaded w o
  unread : (e : Thrown) → o.0 ≡ err e → o.1.stored ≡ w.stored → o.1.sent ≡ w.sent → Loaded w o

pub load-Loaded : (f : Faults) (w : World) → Loaded w (load f w)
unfolding load
load-Loaded f w = elim (Option-cases (f.read w.reads)) [
  | inl e ↦ rw (e, load) (read refl refl refl)
  | inr (x, e) ↦ rw (e, load) (unread x refl refl refl)
]

module _ (p : Platform) (f : Faults) (s : StoredSession) where
  pub save-Written : (w : World) → Written s w (save p f s w)
  unfolding save
  save-Written w = elim (Outcome-cases (validate_session p (candidate s))) [
    | inr (e, x) ↦ rw (x, save) (failed (store e) refl refl refl)
    | inl (u, x) ↦ elim (Option-cases (f.write w.writes)) [
      | inl y ↦ rw (x, y, save) (done refl refl refl)
      | inr (e, y) ↦ rw (x, y, save) (failed e refl refl refl)
    ]
  ]

  expect_save-Written :
      (expected : String) (current : Option StoredSession) (w : World)
      → Written s w ((expect_token expected current >> save p f s) w)
  unfolding expect_token
  expect_save-Written expected none w = failed (store invalid_store) refl refl refl
  expect_save-Written expected (some c) w = elim (Bool-cases (str_eq c.refresh_token expected)) [
    | inl e ↦ rw e (save-Written w)
    | inr e ↦ rw e (failed (store invalid_store) refl refl refl)
  ]

  Written-before :
      (v w : World) (o : Result (Unit {0}))
      → v.stored ≡ w.stored
      → v.sent ≡ w.sent
      → Written s v o
      → Written s w o
  Written-before v w o e g (done r a b) = done r a (cc)
  Written-before v w o e g (failed x r a b) = failed x r (cc) (cc)

  -- A failed read, or another refresh token than the expected one, writes nothing.
  pub replace-Written : (expected : String) (w : World) → Written s w (replace p f expected s w)
  unfolding replace
  replace-Written expected w =
      bind_rule (Written s w) (load f) _ w
        (λ current v e. keep (rw e at (load-Loaded f w)) (expect_save-Written expected current v))
        (λ x v e. fails (rw e at (load-Loaded f w)))
    where
      keep :
          {current : Option StoredSession} {v : World} {o : Result (Unit {0})}
          → Loaded w (ok current, v)
          → Written s v o
          → Written s w o
      keep (read r a b) h = Written-before _ w _ a b h
      keep (unread x r a b) h = Written-before _ w _ a b h

      fails : {x : Thrown} {v : World} → Loaded w (err x, v) → Written s w (err x, v)
      fails {x} (read r a b) = failed x refl a b
      fails {x} (unread y r a b) = failed x refl a b

module _ {ℓ} {A : Type 0} (P : Result A → Type ℓ) where
  follow_Written :
      (s : StoredSession) (w : World) (f : Unit {0} → Action A) (o : Result (Unit {0}))
      → Written s w o
      → ((v : World) → v.stored ≡ some s → v.sent ≡ w.sent → P (f tt v))
      → ((e : Thrown) (v : World) → v.stored ≡ w.stored → v.sent ≡ w.sent → P (err e, v))
      → P (follow f o)
  follow_Written s w f (ok tt, v) (done r a b) good bad = good v a b
  follow_Written s w f (ok tt, v) (failed e r a b) good bad = cc
  follow_Written s w f (err x, v) (done r a b) good bad = cc
  follow_Written s w f (err x, v) (failed e r a b) good bad = bad x v a b

  -- A write, and what follows it.
  pub write_rule :
      (s : StoredSession) (w : World) (m : Action (Unit {0})) (f : Unit {0} → Action A)
      → Written s w (m w)
      → ((v : World) → v.stored ≡ some s → v.sent ≡ w.sent → P (f tt v))
      → ((e : Thrown) (v : World) → v.stored ≡ w.stored → v.sent ≡ w.sent → P (err e, v))
      → P ((m >>= f) w)
  write_rule s w m f h = follow_Written s w f (m w) h

  follow_Loaded :
      (w : World) (f : Option StoredSession → Action A) (o : Result (Option StoredSession))
      → Loaded w o
      → ((v : World) → v.stored ≡ w.stored → v.sent ≡ w.sent → P (f w.stored v))
      → ((e : Thrown) (v : World) → v.stored ≡ w.stored → v.sent ≡ w.sent → P (err e, v))
      → P (follow f o)
  follow_Loaded w f (ok c, v) (read r a b) good bad =
      let e : c ≡ w.stored = ground arith in rw e (good v a b)
  follow_Loaded w f (ok c, v) (unread e r a b) good bad = cc
  follow_Loaded w f (err x, v) (read r a b) good bad = cc
  follow_Loaded w f (err x, v) (unread e r a b) good bad = bad x v a b

  -- A read, and what follows it.
  pub load_rule :
      (faults : Faults) (w : World) (f : Option StoredSession → Action A)
      → ((v : World) → v.stored ≡ w.stored → v.sent ≡ w.sent → P (f w.stored v))
      → ((e : Thrown) (v : World) → v.stored ≡ w.stored → v.sent ≡ w.sent → P (err e, v))
      → P ((load faults >>= f) w)
  load_rule faults w f = follow_Loaded w f (load faults w) (load-Loaded faults w)

  pub branch_Written :
      (s : StoredSession) (w : World) (next : Unit {0} → Action A) (handler : Thrown → Action A)
      (o : Result (Unit {0}))
      → Written s w o
      → ((v : World) → v.stored ≡ some s → v.sent ≡ w.sent → P (next tt v))
      → ((e : Thrown) (v : World) → v.stored ≡ w.stored → v.sent ≡ w.sent → P (handler e v))
      → P (branch next handler o)
  branch_Written s w next handler (ok tt, v) (done r a b) good bad = good v a b
  branch_Written s w next handler (ok tt, v) (failed e r a b) good bad = cc
  branch_Written s w next handler (err x, v) (done r a b) good bad = cc
  branch_Written s w next handler (err x, v) (failed e r a b) good bad = bad x v a b
