-- ===== src/StoreFile/Sweep.antt =====
-- What the sweep of temporary files takes away, and what it leaves.
use ceal_cli.Base.{
  ℕ, ◌+◌, ◌<◌, ◌↔◌, subst, sym, inl, inr, Bool-cases, suc, List, [], ◌∷◌, Option, none, some, Bool,
  true, false, ◌&&◌, ◌||◌, ◌≡◌, refl, ◌∙◌, arith, if◌then◌else◌,
}
use ceal_cli.StoreFile.Calls.{
  Name, same_name, File, plain, symlink, directory, Node, find, Entries, Disk, works, Ended, done,
  thrown, killed, Action, Environment, stat, delete, names, follow,
}
use ceal_cli.StoreFile.Names.{IsTemporaryName, is_temporary_iff}
use ceal_cli.StoreFile.Lookup.{same_name_iff, find-without}
use ceal_cli.StoreFile.{is_temporary, is_stale, sweep_one, sweep_names, sweep_stale_temporaries}

-- A stale plain file under the name of a temporary of the prefix.
abbrev pub is_swept : ℕ → List ℕ → Name → Option Node → Bool
is_swept now prefix n none = false
is_swept now prefix n (some node) = is_temporary prefix n && is_stale now node

-- A plain file more than an hour old, under `.prefix.`, something, and `.tmp`.
pub record IsLeftOver (now : ℕ) (prefix : List ℕ) (n : Name) (found : Option Node) : Type 0 where
  pub file : File
  pub is_plain : found ≡ some (plain file)
  pub is_old : file.modified + 3600000 < now
  pub is_named : IsTemporaryName prefix n

left_over :
    (now : ℕ) (prefix : List ℕ) (n : Name) (found : Option Node)
    → (is_swept now prefix n found ≡ true) ↔ IsLeftOver now prefix n found
left_over now prefix n none = (λ h. cc, λ h. let e : none ≡ some (plain h.file) = h.is_plain in cc)
left_over now prefix n (some directory) = (
  λ h. absurd (ground arith),
  λ h. let e : some directory ≡ some (plain h.file) = h.is_plain in cc,
)
left_over now prefix n (some (symlink b)) = (
  λ h. absurd (ground arith),
  λ h. let e : some (symlink b) ≡ some (plain h.file) = h.is_plain in cc,
)
left_over now prefix n (some (plain f)) = (
  λ h. record {
    file = f;
    is_plain = refl;
    is_old = ground arith;
    is_named = (is_temporary_iff prefix n).0 (ground arith);
  },
  λ h.
      let same : f ≡ h.file = let e : some (plain f) ≡ some (plain h.file) = h.is_plain in cc in
      let old : h.file.modified + 3600000 < now = h.is_old in
      let aged : f.modified + 3600000 < now =
        subst (λ (x : File). x.modified + 3600000 < now) (sym same) old in
      let named : is_temporary prefix n ≡ true = (is_temporary_iff prefix n).1 h.is_named in
      ground arith,
)

-- What a name stands for is kept by two actions if it is kept by each.
pub follow_keeps :
    (n : Name) (found : Option Node) (k : Unit {0} → Action (Unit {0}))
    (r : Ended (Unit {0}) × Disk)
    → find n r.1.entries ≡ found
    → ((c : Disk) → find n c.entries ≡ found → find n (k tt c).1.entries ≡ found)
    → find n (follow k r).1.entries ≡ found
follow_keeps n found k (done u, c) e next = next c e
follow_keeps n found k (thrown x, c) e next = e
follow_keeps n found k (killed, c) e next = e

pub follow-done :
    (k : Unit {0} → Action (Unit {0})) (r : Ended (Unit {0}) × Disk)
    → r.0 ≡ done tt
    → follow k r ≡ k tt r.1
follow-done k (done _, d) h = refl
follow-done k (thrown x, d) h = cc
follow-done k (killed, d) h = cc

module _ (v : Environment) (prefix : List ℕ) where
  sweep_one_keeps :
      (n m : Name) (d : Disk)
      → is_swept v.now prefix n (find n d.entries) ≡ false
      → find n (sweep_one v prefix m d).1.entries ≡ find n d.entries
  unfolding stat delete
  sweep_one_keeps n m d h = ground (arith, find-without n m d.entries, same_name_iff m n)

  sweep_names_keep :
      (n : Name) (ms : List Name) (d : Disk)
      → is_swept v.now prefix n (find n d.entries) ≡ false
      → find n (sweep_names v prefix ms d).1.entries ≡ find n d.entries
  unfolding sweep_names
  sweep_names_keep n [] d h = refl
  sweep_names_keep n (m ∷ ms) d h =
      follow_keeps n (find n d.entries) (λ _. sweep_names v prefix ms) (sweep_one v prefix m d)
        (sweep_one_keeps n m d h)
        (λ (c : Disk) (e : find n c.entries ≡ find n d.entries).
          let same : is_swept v.now prefix n (find n c.entries) ≡ false = rw e h in
          sweep_names_keep n ms c same ∙ e)

  -- Whatever fails, the sweep removes nothing but stale plain files that have the name of a
  -- temporary of this prefix.
  pub sweep_keeps :
      (d : Disk) (n : Name)
      → is_swept v.now prefix n (find n d.entries) ≡ false
      → find n (sweep_stale_temporaries v prefix d).1.entries ≡ find n d.entries
  unfolding sweep_stale_temporaries
  sweep_keeps d n h =
      ground (arith, sweep_names_keep n (names d.entries) (record d { calls = suc d.calls }))

abbrev pub has_name : Name → List Name → Bool
has_name n [] = false
has_name n (m ∷ ms) = same_name m n || has_name n ms

has_name_of :
    (now : ℕ) (prefix : List ℕ) (n : Name) (es : Entries)
    → is_swept now prefix n (find n es) ≡ true
    → has_name n (names es) ≡ true
unfolding find
has_name_of now prefix n [] h = cc
has_name_of now prefix n ((m, node) ∷ es) h = ground (arith, has_name_of now prefix n es)

module _ (v : Environment) (prefix : List ℕ) (fine : (k : ℕ) → v.fault k ≡ works) where
  abbrev kept_by : List Name → Name → Option Node → Option Node
  kept_by ms n found = if has_name n ms && is_swept v.now prefix n found then none else found

  sweep_one_lem :
      (n m : Name) (d : Disk)
      → ((sweep_one v prefix m d).0 ≡ done tt)
        × (find n (sweep_one v prefix m d).1.entries ≡ kept_by (m ∷ []) n (find n d.entries))
  unfolding stat delete
  sweep_one_lem n m d =
      ground
        (arith, find-without n m d.entries, same_name_iff m n, fine d.calls, fine (suc d.calls))

  sweep_names_lem :
      (n : Name) (ms : List Name) (d : Disk)
      → ((sweep_names v prefix ms d).0 ≡ done tt)
        × (find n (sweep_names v prefix ms d).1.entries ≡ kept_by ms n (find n d.entries))
  unfolding sweep_names
  sweep_names_lem n [] d = ground arith
  sweep_names_lem n (m ∷ ms) d =
      let (ended, swept) = sweep_one_lem n m d in
      let c : Disk = (sweep_one v prefix m d).1 in
      let rest = sweep_names_lem n ms c in
      rw (follow-done (λ _. sweep_names v prefix ms) (sweep_one v prefix m d) ended) (ground arith)

  sweep_removes :
      (d : Disk) (n : Name)
      → find n (sweep_stale_temporaries v prefix d).1.entries
        ≡ (if is_swept v.now prefix n (find n d.entries) then none else find n d.entries)
  unfolding sweep_stale_temporaries
  sweep_removes d n =
      let c : Disk = record d { calls = suc d.calls } in
      ground (
        arith,
        fine d.calls,
        sweep_names_lem n (names d.entries) c,
        has_name_of v.now prefix n d.entries,
      )

  -- If nothing fails, the sweep removes the plain files that are more than an hour old and have a name
  -- of the form `.prefix.….tmp` with something between the dots, and leaves every other name as it is.
  pub sweep_exact :
      (d : Disk) (n : Name)
      → (IsLeftOver v.now prefix n (find n d.entries)
          → find n (sweep_stale_temporaries v prefix d).1.entries ≡ none)
        × ((¬ IsLeftOver v.now prefix n (find n d.entries))
            → find n (sweep_stale_temporaries v prefix d).1.entries ≡ find n d.entries)
  sweep_exact d n =
      let removed = sweep_removes d n in
      (
        λ h.
            let e : is_swept v.now prefix n (find n d.entries) ≡ true =
              (left_over v.now prefix n (find n d.entries)).1 h in
            removed ∙ rw e refl,
        λ other. elim (Bool-cases (is_swept v.now prefix n (find n d.entries))) [
          | inl e ↦ absurd (other ((left_over v.now prefix n (find n d.entries)).0 e))
          | inr e ↦ removed ∙ rw e refl
        ],
      )

  pub sweep-done : (d : Disk) → (sweep_stale_temporaries v prefix d).0 ≡ done tt
  unfolding sweep_stale_temporaries
  sweep-done d =
      let c : Disk = record d { calls = suc d.calls } in
      ground (arith, fine d.calls, sweep_names_lem [] (names d.entries) c)
