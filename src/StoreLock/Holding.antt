-- ===== src/StoreLock/Holding.antt =====
-- A lock whose holder lives stays with its holder.
use ceal_cli.Base.{
  String, none, some, true, false, ◌≡◌, ◌≢◌, refl, sym, ◌∙◌, false≢true, arith, str_eq, eq_iff, ◌⊎◌,
  inl, inr, Bool-cases,
}
use ceal_cli.Base.Outcome.{ok}
use ceal_cli.StoreLock.Reclaim.{
  owned, stale_owner_of, stale_lock_owner, process_missing, quarantine_stale_lock,
  remove_stale_lock,
}
use ceal_cli.StoreLock.Tombstones.{IsQuarantined}
use ceal_cli.StoreLock.{
  Owner, OwnerFile, absent, unsafe_file, unreadable, contents, Directory, Paths, Attempt, Probe,
  alive, eperm, read_lock_owner, candidate, create_lock, release_lock,
}

-- The lock's directory is private and names the owner.
pub record IsHeld (o : Owner) (d : Directory) : Type 0 where
  pub closed : d.is_private ≡ true
  pub filled : d.is_empty ≡ false
  pub named : read_lock_owner d.owner_file ≡ some o

abbrev pub Held : Owner → Paths → Type 0
Held o s = (d : Directory) × (s.lock ≡ some d) × IsHeld o d

stale_owner-IsHeld :
    (o : Owner) (d : Directory) (f : OwnerFile)
    → read_lock_owner f ≡ some o
    → stale_owner_of d f ≡ ok (owned o)
unfolding read_lock_owner
stale_owner-IsHeld o d absent h = cc
stale_owner-IsHeld o d unsafe_file h = cc
stale_owner-IsHeld o d unreadable h = cc
stale_owner-IsHeld o d (contents j) h = rw (h, stale_owner_of) refl

-- What kill(2) answers with signal 0 for a process that runs: it works, or it is not permitted.
abbrev pub Lives : Probe → Type 0
Lives p = (p ≡ alive) ⊎ (p ≡ eperm)

Lives-not_missing : (p : Probe) → Lives p → process_missing p ≡ ok false
Lives-not_missing p (inl e) = rw e refl
Lives-not_missing p (inr e) = rw e refl

module _ (o : Owner) (d : Directory) (s : Paths) (here : s.lock ≡ some d) (h : IsHeld o d) where
  pub create_lock-IsHeld : (a : Attempt) → create_lock a s ≡ (ok none, s)
  unfolding create_lock
  create_lock-IsHeld a =
      let c : d.is_private ≡ true = h.closed in
      let f : d.is_empty ≡ false = h.filled in ground arith

  release_lock-IsHeld : (nonce : String) → o.nonce ≢ nonce → release_lock nonce s ≡ s
  unfolding release_lock
  release_lock-IsHeld nonce other =
      let n : read_lock_owner d.owner_file ≡ some o = h.named in
      let differ : str_eq o.nonce nonce ≡ false = elim (Bool-cases (str_eq o.nonce nonce)) [
        | inl e ↦ absurd (other ((eq_iff o.nonce nonce).0 e))
        | inr e ↦ e
      ] in
      ground arith

  pub remove_stale-IsHeld :
      (a : Attempt) → Lives (a.probe o.pid) → remove_stale_lock a s ≡ (ok false, s)
  unfolding remove_stale_lock stale_lock_owner
  remove_stale-IsHeld a lives =
      let live : process_missing (a.probe o.pid) ≡ ok false =
        Lives-not_missing (a.probe o.pid) lives in
      let c : d.is_private ≡ true = h.closed in
      let n : stale_owner_of d d.owner_file ≡ ok (owned o) =
        stale_owner-IsHeld o d d.owner_file h.named in
      ground arith

-- One step of another process, while the process `o.pid` lives: an attempt, a reclamation, the end of
-- a reclamation that found an earlier owner to be dead, whose lock others have quarantined since, or
-- the release of another nonce.
pub data Other (o : Owner) : Paths → Paths → Type 0 where
  tries : (a : Attempt) (s : Paths) → Other o s (create_lock a s).1
  reclaims : (a : Attempt) (s : Paths) → Lives (a.probe o.pid) → Other o s (remove_stale_lock a s).1
  ends_late :
      (a : Attempt) (q : Owner) (s : Paths)
      → IsQuarantined q s
      → Other o s (quarantine_stale_lock a (owned q) s).1
  releases : (nonce : String) (s : Paths) → o.nonce ≢ nonce → Other o s (release_lock nonce s)

-- Any number of such steps.
pub data Others (o : Owner) : Paths → Paths → Type 0 where
  stop : (s : Paths) → Others o s s
  next : (s t u : Paths) → Other o s t → Others o t u → Others o s u

-- The owner record that an attempt publishes.
abbrev pub owner : Attempt → Owner
owner a = record { pid = a.pid; nonce = a.nonce }

-- An attempt that returns a nonce has published its own record.
pub create_lock-Held :
    (a : Attempt) (s : Paths) (n : String)
    → read_lock_owner (candidate a).owner_file ≡ some (owner a)
    → (create_lock a s).0 ≡ ok (some n)
    → Held (owner a) (create_lock a s).1
unfolding create_lock
create_lock-Held a s n well h =
    let there : (create_lock a s).1.lock ≡ some (candidate a) = ground arith in
    (candidate a, there, record { closed = refl; filled = refl; named = well })

-- The holder's release frees the lock, and the release of any other nonce changes nothing.
pub release_own_only :
    (o : Owner) (s : Paths) (nonce : String)
    → Held o s
    → ((nonce ≡ o.nonce) × ((release_lock nonce s).lock ≡ none))
      ⊎ ((o.nonce ≢ nonce) × (release_lock nonce s ≡ s))
unfolding release_lock
release_own_only o s nonce (d, here, h) = elim (Bool-cases (str_eq o.nonce nonce)) [
  | inl e ↦
      let n : read_lock_owner d.owner_file ≡ some o = h.named in
      inl (sym ((eq_iff o.nonce nonce).0 e), ground arith)
  | inr e ↦
      let other : o.nonce ≢ nonce = (λ x. false≢true (sym e ∙ (eq_iff o.nonce nonce).1 x)) in
      inr (other, release_lock-IsHeld o d s here h nonce other)
]
