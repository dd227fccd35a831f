-- ===== src/Base/Text.antt =====
-- Text walked by code points, the character classes that the source's patterns use, and the
-- lexicographic `sort` of keys.
use Prim.Native.Nat.{ℕ, Ordering}
use Prim.Native.Char.{code}
use Prim.Native.String.{String, compare}
use mathlib.Core.Bool.{Bool, true, false, ◌&&◌, ◌||◌}
use mathlib.Core.List.{List, [], ◌∷◌}
use mathlib.Core.Option.{Option, none, some}
use text.Mathlib.Text.{◌==◌ as str_eq}
use ceal_cli.Base.Tests.{leb, ◌==◌}
use ceal_cli.Base.Lists.{length, all, any}

abbrev pub codes : String → List ℕ
codes String.[] = []
codes (String.◌∷◌ c s) = code c ∷ codes s

abbrev pub between : ℕ → ℕ → ℕ → Bool
between lo hi c = leb lo c && leb c hi

abbrev pub is_digit : ℕ → Bool
is_digit = between b'0' b'9'

abbrev pub is_lower : ℕ → Bool
is_lower = between b'a' b'z'

abbrev pub is_upper : ℕ → Bool
is_upper = between b'A' b'Z'

abbrev pub is_alnum : ℕ → Bool
is_alnum c = is_upper c || is_lower c || is_digit c

-- [A-Za-z0-9_-]
abbrev pub is_token_char : ℕ → Bool
is_token_char c = is_alnum c || c == b'_' || c == b'-'

-- What stands behind a literal prefix, if the text begins with it.
abbrev pub after_prefix : List ℕ → List ℕ → Option (List ℕ)
after_prefix [] s = some s
after_prefix (p ∷ ps) [] = none
after_prefix (p ∷ ps) (c ∷ s) = elim (p == c) [ true ↦ after_prefix ps s | false ↦ none ]

-- ^prefix[class]{n}$
abbrev pub prefixed_token : List ℕ → (ℕ → Bool) → ℕ → List ℕ → Bool
prefixed_token prefix class n s = elim (after_prefix prefix s) [
  | none ↦ false
  | some rest ↦ length rest == n && all class rest
]

-- A set of texts, as the list of its members.
abbrev pub has : List String → String → Bool
has keys k = any (str_eq k) keys

abbrev pub same_texts : List String → List String → Bool
same_texts [] [] = true
same_texts [] (k ∷ ks) = false
same_texts (j ∷ js) [] = false
same_texts (j ∷ js) (k ∷ ks) = str_eq j k && same_texts js ks

-- Array.prototype.sort on texts.
abbrev pub insert_sorted : String → List String → List String
insert_sorted k [] = k ∷ []
insert_sorted k (j ∷ js) = elim (compare k j) [
  | Ordering.gt ↦ j ∷ insert_sorted k js
  | _ ↦ k ∷ j ∷ js
]

abbrev pub sort : List String → List String
sort [] = []
sort (k ∷ ks) = insert_sorted k (sort ks)
