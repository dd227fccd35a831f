-- ===== src/StoreFile/Prefix.antt =====
-- Whose temporaries a prefix names.
use ceal_cli.Base.{ℕ, List, [], ◌∷◌, ◌++◌, codes, Bool, true, ◌==◌, ◌≡◌, refl, arith, length-append}
use ceal_cli.StoreFile.Calls.{Name, Environment}
use ceal_cli.StoreFile.Names.{starts_with-append, ends_with_refl, ends_with-append}
use ceal_cli.StoreFile.{
  safe_rest, is_safe_prefix, marker_of, starts_with, is_temporary, temporary_name,
}

-- A write's own temporary has the name of one.
pub temporary_name-is_temporary :
    (v : Environment) (prefix : List ℕ) → is_temporary prefix (temporary_name v prefix) ≡ true
unfolding is_temporary
temporary_name-is_temporary v prefix =
    let tail : Name = v.nonce ++ codes ".tmp" in
    let body : Name = v.pid ++ (b'.' ∷ tail) in
    ground (
      arith,
      starts_with-append (marker_of prefix) body,
      ends_with-append (codes ".tmp") (marker_of prefix) body,
      ends_with-append (codes ".tmp") v.pid (b'.' ∷ tail),
      ends_with-append (codes ".tmp") (b'.' ∷ v.nonce) (codes ".tmp"),
      ends_with_refl b'.' (codes "tmp"),
      length-append (marker_of prefix) body,
      length-append v.pid (b'.' ∷ tail),
      length-append v.nonce (codes ".tmp"),
    )

-- Two prefixes without dots that begin one name, each up to a dot, are equal.
starts_with_both :
    (a b : Bool) (p q n : Name)
    → safe_rest a p ≡ true
    → safe_rest b q ≡ true
    → starts_with (p ++ b'.' ∷ []) n ≡ true
    → starts_with (q ++ b'.' ∷ []) n ≡ true
    → p ≡ q
unfolding safe_rest
starts_with_both a b [] [] n hp hq hm hn = refl
starts_with_both a b [] (c ∷ q) [] hp hq hm hn = cc
starts_with_both a b [] (c ∷ q) (x ∷ n) hp hq hm hn = ground arith
starts_with_both a b (c ∷ p) [] [] hp hq hm hn = cc
starts_with_both a b (c ∷ p) [] (x ∷ n) hp hq hm hn = ground arith
starts_with_both a b (c ∷ p) (e ∷ q) [] hp hq hm hn = cc
starts_with_both a b (c ∷ p) (e ∷ q) (x ∷ n) hp hq hm hn =
    ground (arith, starts_with_both (c == b'-') (e == b'-') p q n)

-- A name is that of a temporary for one safe prefix at most: no store sweeps a sibling's.
pub one_prefix :
    (p q : List ℕ) (n : Name)
    → is_safe_prefix p ≡ true
    → is_safe_prefix q ≡ true
    → is_temporary p n ≡ true
    → is_temporary q n ≡ true
    → p ≡ q
unfolding is_temporary
one_prefix p q [] hp hq tp tq = ground arith
one_prefix p q (x ∷ n) hp hq tp tq = ground (arith, starts_with_both true true p q n)
