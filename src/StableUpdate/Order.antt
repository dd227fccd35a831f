-- ===== src/StableUpdate/Order.antt =====
-- The comparison of two versions is the lexicographic order of their numbers.
use ceal_cli.Base.{
  ℕ, ◌<◌, ◌≤◌, subst, String, List, [], ◌∷◌, map, true, ◌==◌, ◌≡◌, ◌↔◌, ◌⊎◌, refl, arith,
  if◌then◌else◌,
}
use ceal_cli.Base.Outcome.{Outcome, ok}
use ceal_cli.StableUpdate.Version.{
  ℤ, pos, sub_ℕ, is_negative, split, number, are_three_numbers, is_version, compare_parts,
  compare_versions, Rounding, max_safe_integer,
}

-- The numbers of a version.
abbrev pub numbers : List ℕ → List ℕ
numbers text = map number (split b'.' text)

-- The lexicographic order of lists of one length.
abbrev pub Precedes : List ℕ → List ℕ → Type 0
Precedes (a ∷ more) (b ∷ rest) = (a < b) ⊎ ((a ≡ b) × Precedes more rest)
Precedes _ _ = ⊥

-- A difference that tells how two lists of numbers are ordered.
pub record Compares (ls rs : List ℕ) (r : Outcome String ℤ) : Type 0 where
  pub difference : ℤ
  pub returned : r ≡ ok difference
  pub negative : (is_negative difference ≡ true) ↔ Precedes ls rs
  pub equal : (difference ≡ pos 0) ↔ (ls ≡ rs)

-- The numbers of two triples, apart from their texts.
abbrev difference_of : List ℕ → List ℕ → ℤ
difference_of (a ∷ more) (b ∷ rest) = if a == b then difference_of more rest else sub_ℕ a b
difference_of _ _ = pos 0

difference_lem :
    (a b c x y z : ℕ)
    → let d = difference_of (a ∷ b ∷ c ∷ []) (x ∷ y ∷ z ∷ []) in
      ((is_negative d ≡ true) ↔ Precedes (a ∷ b ∷ c ∷ []) (x ∷ y ∷ z ∷ []))
      × ((d ≡ pos 0) ↔ (◌≡◌ {A = List ℕ} (a ∷ b ∷ c ∷ []) (x ∷ y ∷ z ∷ [])))
difference_lem a b c x y z =
    ((λ e. ground arith, λ p. ground arith), (λ e. ground arith, λ e. ground arith))

-- A version's parts are three numbers.
three_parts :
    (ps : List (List ℕ))
    → are_three_numbers ps ≡ true
    → (a : List ℕ) × (b : List ℕ) × (c : List ℕ) × (ps ≡ a ∷ b ∷ c ∷ [])
three_parts [] h = cc
three_parts (a ∷ []) h = cc
three_parts (a ∷ b ∷ []) h = cc
three_parts (a ∷ b ∷ c ∷ []) h = (a, b, c, refl)
three_parts (a ∷ b ∷ c ∷ d ∷ ps) h = cc

-- Doubles hold the integers up to the greatest safe one exactly.
abbrev pub IsExact : Rounding → Type 0
IsExact round = (n : ℕ) → n ≤ max_safe_integer → round n ≡ n

-- Every part of a version is a safe integer.
abbrev pub AreSafe : List ℕ → Type 0
AreSafe [] = Unit
AreSafe (n ∷ more) = (n ≤ max_safe_integer) × AreSafe more

module _ (round : Rounding) (exact : IsExact round) where
  compare_triples :
      (a b c x y z : List ℕ)
      → AreSafe (map number (a ∷ b ∷ c ∷ []))
      → AreSafe (map number (x ∷ y ∷ z ∷ []))
      → Compares
          (map number (a ∷ b ∷ c ∷ []))
          (map number (x ∷ y ∷ z ∷ []))
          (compare_parts round 3 (a ∷ b ∷ c ∷ []) (x ∷ y ∷ z ∷ []))
  compare_triples a b c x y z (sa, (sb, (sc, _))) (sx, (sy, (sz, _))) =
      let ls : List ℕ = map number (a ∷ b ∷ c ∷ []) in
      let rs : List ℕ = map number (x ∷ y ∷ z ∷ []) in
      let (negative, equal) =
        difference_lem (number a) (number b) (number c) (number x) (number y) (number z) in
      record {
        difference = difference_of ls rs;
        returned =
            rw
              (
                exact (number a) sa,
                exact (number b) sb,
                exact (number c) sc,
                exact (number x) sx,
                exact (number y) sy,
                exact (number z) sz,
              )
              (ground arith);
        negative = negative;
        equal = equal;
      }

  compare_split :
      (ps qs : List (List ℕ))
      → are_three_numbers ps ≡ true
      → are_three_numbers qs ≡ true
      → AreSafe (map number ps)
      → AreSafe (map number qs)
      → Compares (map number ps) (map number qs) (compare_parts round 3 ps qs)
  compare_split ps qs hp hq sp sq =
      let (a, b, c, p) = three_parts ps hp in
      let (x, y, z, q) = three_parts qs hq in
      rw (p, q)
        (compare_triples a b c x y z (subst (λ (l : List (List ℕ)). AreSafe (map number l)) p sp)
          (subst (λ (l : List (List ℕ)). AreSafe (map number l)) q sq))

-- compareVersions does not throw on two versions whose parts are safe integers; its difference is
-- negative exactly if the first one is lower in the lexicographic order of the numbers, and 0 exactly
-- if the numbers are equal. `Number` is exact on safe integers.
pub compare_versions-Compares :
    (round : Rounding) (left right : List ℕ)
    → IsExact round
    → is_version left ≡ true
    → is_version right ≡ true
    → AreSafe (numbers left)
    → AreSafe (numbers right)
    → Compares (numbers left) (numbers right) (compare_versions round left right)
unfolding compare_versions is_version
compare_versions-Compares round left right exact hl hr sl sr =
    compare_split round exact (split b'.' left) (split b'.' right) hl hr sl sr
