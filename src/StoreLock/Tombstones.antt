-- ===== src/StoreLock/Tombstones.antt =====
-- The tombstones of quarantined locks: a reclamation happens once for one owner.
use ceal_cli.Base.{
  String, ◌∷◌, none, some, true, false, ◌≡◌, arith, inl, inr, Bool-cases, Option-cases, eq_refl,
  eq_iff, ap, subst,
}
use ceal_cli.Base.Outcome.{ok, Outcome-cases}
use ceal_cli.StoreLock.Reclaim.{
  Stale, owned, invalid_generation, initializing, gone, find_reclaimed, same_suffix, suffix_of,
  quarantine_stale_lock, remove_stale_lock, reclaim, reclaim_owned, process_missing,
  stale_lock_owner,
}
use ceal_cli.StoreLock.{
  Owner, Directory, Suffix, of_nonce, of_generation, Paths, Attempt, rename_onto, create_lock,
  release_lock,
}

-- A tombstone of this owner's nonce is there, and it is not empty.
abbrev pub IsQuarantined : Owner → Paths → Type 0
IsQuarantined q s =
    (t : Directory) × (find_reclaimed (of_nonce q.nonce) s.reclaimed ≡ some t)
    × (t.is_empty ≡ false)

-- The quarantine of an owner whose tombstone is there changes nothing.
pub quarantine-IsQuarantined :
    (a : Attempt) (q : Owner) (s : Paths)
    → IsQuarantined q s
    → (quarantine_stale_lock a (owned q) s).1 ≡ s
unfolding quarantine_stale_lock
quarantine-IsQuarantined a q s (t, there, full) = ground arith

same_suffix-same : (n : String) (x : Suffix) → same_suffix (of_nonce n) x ≡ true → of_nonce n ≡ x
same_suffix-same n (of_nonce m) h = ap of_nonce ((eq_iff n m).0 h)
same_suffix-same n (of_generation g) h = cc

module _ (q : Owner) where
  -- A directory that is moved away onto no tombstone, or an empty one, hides none of `q`.
  moved-keeps :
      (x : Suffix) (d moved : Directory) (s : Paths)
      → IsQuarantined q s
      → rename_onto d (find_reclaimed x s.reclaimed) ≡ some moved
      → IsQuarantined q (record s { lock = none; reclaimed = (x, moved) ∷ s.reclaimed })
  moved-keeps x d moved s (t, there, full) h =
      elim (Bool-cases (same_suffix (of_nonce q.nonce) x)) [
        | inr e ↦ (t, rw e there, full)
        | inl e ↦
            let same : find_reclaimed x s.reclaimed ≡ some t =
              subst (λ (y : Suffix). find_reclaimed y s.reclaimed ≡ some t)
                (same_suffix-same q.nonce x e) there in
            absurd (ground arith)
      ]

  -- A quarantine of any owner or generation keeps the tombstone.
  quarantine-keeps :
      (a : Attempt) (x : Stale) (s : Paths)
      → IsQuarantined q s
      → IsQuarantined q (quarantine_stale_lock a x s).1
  unfolding quarantine_stale_lock
  quarantine-keeps a x s h = elim (Option-cases s.lock) [
    | inl e ↦ rw (e, quarantine_stale_lock) h
    | inr (d, e) ↦ elim (Bool-cases a.rename_fails) [
      | inl f ↦ rw (e, f, quarantine_stale_lock) h
      | inr f ↦ elim (Option-cases (rename_onto d (find_reclaimed (suffix_of x) s.reclaimed))) [
        | inl g ↦ rw (e, f, g, quarantine_stale_lock) h
        | inr (moved, g) ↦
            rw (e, f, g, quarantine_stale_lock) (moved-keeps (suffix_of x) d moved s h g)
      ]
    ]
  ]

  reclaim-keeps :
      (a : Attempt) (x : Stale) (s : Paths) → IsQuarantined q s → IsQuarantined q (reclaim a x s).1
  reclaim-keeps a (owned o) s h = elim (Outcome-cases (process_missing (a.probe o.pid))) [
    | inr (e, x) ↦ rw (x, reclaim_owned) h
    | inl (true, x) ↦ rw (x, reclaim_owned) (quarantine-keeps a (owned o) s h)
    | inl (false, x) ↦ rw (x, reclaim_owned) h
  ]
  reclaim-keeps a (invalid_generation g) s h = quarantine-keeps a (invalid_generation g) s h
  reclaim-keeps a initializing s h = h
  reclaim-keeps a gone s h = h

  remove_stale-keeps :
      (a : Attempt) (s : Paths) → IsQuarantined q s → IsQuarantined q (remove_stale_lock a s).1
  unfolding remove_stale_lock
  remove_stale-keeps a s h = elim (Outcome-cases (stale_lock_owner s.lock)) [
    | inr (e, x) ↦ rw (x, remove_stale_lock) h
    | inl (stale, x) ↦ rw (x, remove_stale_lock) (reclaim-keeps a stale s h)
  ]

  -- Neither an attempt nor a release touches the tombstones.
  create_lock-reclaimed : (a : Attempt) (s : Paths) → (create_lock a s).1.reclaimed ≡ s.reclaimed
  unfolding create_lock
  create_lock-reclaimed a s = ground arith

  release_lock-reclaimed : (n : String) (s : Paths) → (release_lock n s).reclaimed ≡ s.reclaimed
  unfolding release_lock
  release_lock-reclaimed n s = ground arith

-- One step of any process: an attempt, a reclamation from its start, or from the verdict that an
-- owner is dead or a generation invalid, which may be an old one, or a release.
pub data Step : Paths → Paths → Type 0 where
  attempts : (a : Attempt) (s : Paths) → Step s (create_lock a s).1
  reclaims_stale : (a : Attempt) (s : Paths) → Step s (remove_stale_lock a s).1
  quarantines : (a : Attempt) (x : Stale) (s : Paths) → Step s (quarantine_stale_lock a x s).1
  releases_nonce : (nonce : String) (s : Paths) → Step s (release_lock nonce s)

pub data Steps : Paths → Paths → Type 0 where
  no_step : (s : Paths) → Steps s s
  next_step : (s t u : Paths) → Step s t → Steps t u → Steps s u

Step-keeps : (q : Owner) (s t : Paths) → Step s t → IsQuarantined q s → IsQuarantined q t
Step-keeps q s t (attempts a _) (d, there, full) = (d, rw (create_lock-reclaimed q a s) there, full)
Step-keeps q s t (reclaims_stale a _) h = remove_stale-keeps q a s h
Step-keeps q s t (quarantines a x _) h = quarantine-keeps q a x s h
Step-keeps q s t (releases_nonce n _) (d, there, full) =
    (d, rw (release_lock-reclaimed q n s) there, full)

Steps-keep : (q : Owner) (s t : Paths) → Steps s t → IsQuarantined q s → IsQuarantined q t
Steps-keep q s t (no_step _) h = h
Steps-keep q s t (next_step _ u _ x xs) h = Steps-keep q u t xs (Step-keeps q s u x h)

-- A quarantine that works leaves the lock as a tombstone of its owner.
quarantined :
    (a : Attempt) (q : Owner) (s : Paths) (d : Directory)
    → s.lock ≡ some d
    → d.is_empty ≡ false
    → (quarantine_stale_lock a (owned q) s).0 ≡ ok true
    → IsQuarantined q (quarantine_stale_lock a (owned q) s).1
unfolding quarantine_stale_lock
quarantined a q s d here full h = (d, ground (arith, eq_refl q.nonce), full)

-- Once a contender has taken away the lock of a dead owner, the end of every other reclamation of
-- that owner, however late, changes nothing: whatever attempts, reclamations and releases came
-- between, a lock that was taken since stays.
pub reclaimed_once :
    (a b : Attempt) (q : Owner) (s t : Paths) (d : Directory)
    → s.lock ≡ some d
    → d.is_empty ≡ false
    → (quarantine_stale_lock a (owned q) s).0 ≡ ok true
    → Steps (quarantine_stale_lock a (owned q) s).1 t
    → (quarantine_stale_lock b (owned q) t).1 ≡ t
reclaimed_once a b q s t d here full h steps =
    quarantine-IsQuarantined b q t (
      Steps-keep q (quarantine_stale_lock a (owned q) s).1 t steps
        (quarantined a q s d here full h))
