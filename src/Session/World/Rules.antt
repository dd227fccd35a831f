-- ===== src/Session/World/Rules.antt =====
-- One rule for each way to build an action, for a property of the result and the state it leaves.
use ceal_cli.Base.{◌≡◌, refl, Option, none, some}
use ceal_cli.Base.Outcome.{ok, err}
use ceal_cli.Session.Failure.{Thrown}
use ceal_cli.Session.World.{
  World, Faults, Action, Result, ◌>>=◌, ◌>>◌, follow, catch, recover, faulted, with_state_lock,
}

module _ {ℓ} {A B : Type 0} (P : Result B → Type ℓ) where
  follow_rule :
      (f : A → Action B) (r : Result A)
      → ((a : A) (w : World) → r ≡ (ok a, w) → P (f a w))
      → ((e : Thrown) (w : World) → r ≡ (err e, w) → P (err e, w))
      → P (follow f r)
  follow_rule f (ok a, w) good bad = good a w refl
  follow_rule f (err e, w) good bad = bad e w refl

  pub bind_rule :
      (m : Action A) (f : A → Action B) (w : World)
      → ((a : A) (w' : World) → m w ≡ (ok a, w') → P (f a w'))
      → ((e : Thrown) (w' : World) → m w ≡ (err e, w') → P (err e, w'))
      → P ((m >>= f) w)
  bind_rule m f w = follow_rule f (m w)

module _ {ℓ} {A : Type 0} (P : Result A → Type ℓ) where
  recover_rule :
      (handler : Thrown → Action A) (r : Result A)
      → ((a : A) (w : World) → r ≡ (ok a, w) → P (ok a, w))
      → ((e : Thrown) (w : World) → r ≡ (err e, w) → P (handler e w))
      → P (recover handler r)
  recover_rule handler (ok a, w) good bad = good a w refl
  recover_rule handler (err e, w) good bad = bad e w refl

  pub catch_rule :
      (m : Action A) (handler : Thrown → Action A) (w : World)
      → ((a : A) (w' : World) → m w ≡ (ok a, w') → P (ok a, w'))
      → ((e : Thrown) (w' : World) → m w ≡ (err e, w') → P (handler e w'))
      → P (catch m handler w)
  catch_rule m handler w = recover_rule handler (m w)

module _ {ℓ} {A : Type 0} (P : Result A → Type ℓ) where
  faulted_rule :
      (fault : Option Thrown) (action : Action A) (w : World)
      → P (action w)
      → ((e : Thrown) → fault ≡ some e → P (err e, w))
      → P ((faulted fault >> action) w)
  faulted_rule none action w good bad = good
  faulted_rule (some e) action w good bad = bad e refl

  -- An action under the store's lock, with the fault that kept the lock from it.
  pub lock_fault_rule :
      (f : Faults) (action : Action A) (w : World)
      → P (action w)
      → ((e : Thrown) → f.lock ≡ some e → P (err e, w))
      → P (with_state_lock f action w)
  unfolding with_state_lock
  lock_fault_rule f action w = faulted_rule f.lock action w

  -- An action under the store's lock.
  pub lock_rule :
      (f : Faults) (action : Action A) (w : World)
      → P (action w)
      → ((e : Thrown) → P (err e, w))
      → P (with_state_lock f action w)
  lock_rule f action w good bad = lock_fault_rule f action w good (λ e _. bad e)
