-- ===== src/StableUpdate/Version.antt =====
-- compareVersions of packages/ceal-worker-cli/src/stable-update.ts, on texts as code points. `Number`
-- reads a part of a version as a double: how it rounds the decimal number is a parameter.
use ceal_cli.Base.{
  ℕ, zero, suc, ◌+◌, ◌*◌, ◌-◌, String, List, [], ◌∷◌, all, Bool, true, false, ◌&&◌, ◌==◌, leb,
  is_digit, if◌then◌else◌,
}
use ceal_cli.Base.Outcome.{Outcome, ok, err}

-- An integer: `negsuc n` is -(n + 1).
pub data ℤ : Type 0 where
  pos : ℕ → ℤ
  negsuc : ℕ → ℤ

abbrev pub sub_ℕ : ℕ → ℕ → ℤ
sub_ℕ a b = if leb b a then pos (a - b) else negsuc (b - a - 1)

abbrev pub is_negative : ℤ → Bool
is_negative (pos n) = false
is_negative (negsuc n) = true

-- text.split(c)
abbrev pub extend : ℕ → List (List ℕ) → List (List ℕ)
extend c [] = (c ∷ []) ∷ []
extend c (part ∷ parts) = (c ∷ part) ∷ parts

unfoldable pub split : ℕ → List ℕ → List (List ℕ)
split sep [] = [] ∷ []
split sep (c ∷ cs) = if c == sep then [] ∷ split sep cs else extend c (split sep cs)

-- The decimal number that digits write
unfoldable pub number_from : ℕ → List ℕ → ℕ
number_from n [] = n
number_from n (c ∷ cs) = number_from (10 * n + (c - b'0')) cs

abbrev pub number : List ℕ → ℕ
number cs = number_from 0 cs

abbrev pub is_number : List ℕ → Bool
is_number [] = false
is_number (c ∷ cs) = all is_digit (c ∷ cs)

abbrev pub are_three_numbers : List (List ℕ) → Bool
are_three_numbers (a ∷ b ∷ c ∷ []) = is_number a && is_number b && is_number c
are_three_numbers _ = false

-- /^\d+\.\d+\.\d+$/u
unfoldable pub is_version : List ℕ → Bool
is_version text = are_three_numbers (split b'.' text)

-- Number: the double that is nearest to a natural number
abbrev pub Rounding : Type 0
Rounding = ℕ → ℕ

-- Number.MAX_SAFE_INTEGER
abbrev pub max_safe_integer : ℕ
max_safe_integer = 9007199254740991

module _ (round : Rounding) where
  -- The loop of compareVersions, over the indices that are left.
  abbrev pub compare_parts : ℕ → List (List ℕ) → List (List ℕ) → Outcome String ℤ
  compare_parts zero ls rs = ok (pos 0)
  compare_parts (suc n) (l ∷ ls) (r ∷ rs) =
      let rest = compare_parts n ls rs in
      let left_value = round (number l) in
      let right_value = round (number r) in
      if left_value == right_value then rest else ok (sub_ℕ left_value right_value)
  compare_parts (suc n) _ _ = err "invalid_version_parts"

  -- compareVersions
  unfoldable pub compare_versions : List ℕ → List ℕ → Outcome String ℤ
  unfolding split
  compare_versions left right = compare_parts 3 (split b'.' left) (split b'.' right)
