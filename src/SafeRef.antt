-- ===== src/SafeRef.antt =====
-- packages/ceal-worker-cli/src/safe-ref.ts and sha256.ts: the grammar of references, codes and
-- digests. A text is read by its code points.
use ceal_cli.Base.{
  ℕ, String, List, [], ◌∷◌, Option, none, some, Bool, false, ◌&&◌, ◌||◌, ◌==◌, leb, length, all,
  is_alnum, is_lower, is_digit, between, after_prefix, codes,
}
use ceal_cli.Base.Json.{Json, str}

-- LEAD
abbrev pub lead : ℕ → Bool
lead = is_alnum

-- TAIL
abbrev pub tail_char : ℕ → Bool
tail_char c = is_alnum c || c == b'.' || c == b'_' || c == b':' || c == b'-'

-- One leading character, then at most `budget` more.
unfoldable pub lead_tail : ℕ → List ℕ → Bool
lead_tail budget [] = false
lead_tail budget (c ∷ cs) = lead c && leb (length cs) budget && all tail_char cs

-- safeRef(prefix, tailBudget)
unfoldable pub safe_ref : String → ℕ → List ℕ → Bool
unfolding lead_tail
safe_ref prefix budget s = elim (after_prefix (codes prefix) s) [
  | none ↦ false
  | some rest ↦ lead_tail budget rest
]

-- CEAL_SAFE_REF.test
unfoldable pub ceal_safe_ref : String → Bool
unfolding safe_ref
ceal_safe_ref s = safe_ref "" 127 (codes s)

unfoldable pub is_ceal_safe_ref : Option Json → Bool
unfolding ceal_safe_ref
is_ceal_safe_ref (some (str s)) = ceal_safe_ref s
is_ceal_safe_ref _ = false

-- The shape of a code: [a-z][a-z0-9_]{0,63}
unfoldable pub safe_code : String → Bool
safe_code s = elim (codes s) [
  | [] ↦ false
  | c ∷ cs ↦ is_lower c && leb (length cs) 63 && all (λ d. is_lower d || is_digit d || d == b'_') cs
]

-- isSha256Digest
unfoldable pub is_sha256_digest : Option Json → Bool
is_sha256_digest (some (str s)) =
    length (codes s) == 64 && all (λ c. between b'a' b'f' c || is_digit c) (codes s)
is_sha256_digest _ = false
