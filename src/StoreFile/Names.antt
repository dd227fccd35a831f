-- ===== src/StoreFile/Names.antt =====
-- The form of a temporary's name.
use ceal_cli.Base.{
  ℕ, ◌+◌, ◌<◌, List, [], ◌∷◌, ◌++◌, length, codes, true, ◌≡◌, ◌↔◌, refl, ap, subst, ◌∙◌, sym, arith,
  inl, inr, Bool-cases, append_assoc, length-append,
}
use ceal_cli.StoreFile.Calls.{Name, same_name}
use ceal_cli.StoreFile.Lookup.{same_name_refl, same_name_iff}
use ceal_cli.StoreFile.{marker_of, starts_with, ends_with, is_temporary}

-- `.prefix.`, something, and `.tmp`
abbrev pub IsTemporaryName : List ℕ → Name → Type 0
IsTemporaryName prefix n =
    (c : ℕ) × (m : Name) × (n ≡ b'.' ∷ (prefix ++ (b'.' ∷ c ∷ (m ++ codes ".tmp"))))

pub starts_with-append : (p n : Name) → starts_with p (p ++ n) ≡ true
starts_with-append [] n = refl
starts_with-append (c ∷ cs) n = ground (arith, starts_with-append cs n)

pub ends_with_refl : (c : ℕ) (cs : Name) → ends_with (c ∷ cs) (c ∷ cs) ≡ true
ends_with_refl c cs = ground (arith, same_name_refl cs)

pub ends_with-append : (t p n : Name) → ends_with t n ≡ true → ends_with t (p ++ n) ≡ true
ends_with-append t [] n h = h
ends_with-append t (c ∷ cs) n h = ground (arith, ends_with-append t cs n)

starts_with-rest : (p n : Name) → starts_with p n ≡ true → (r : Name) × (n ≡ p ++ r)
starts_with-rest [] n h = (n, refl)
starts_with-rest (c ∷ cs) [] h = cc
starts_with-rest (c ∷ cs) (b ∷ n) h =
    let (r, e) = starts_with-rest cs n (ground arith) in
    let same : b ≡ c = ground arith in (r, rw (same, e) refl)

ends_with-front : (t n : Name) → ends_with t n ≡ true → (f : Name) × (n ≡ f ++ t)
ends_with-front t [] h = ([], (same_name_iff [] t).0 h)
ends_with-front t (b ∷ n) h = elim (Bool-cases (same_name (b ∷ n) t)) [
  | inl e ↦ ([], (same_name_iff (b ∷ n) t).0 e)
  | inr e ↦ let (f, q) = ends_with-front t n (ground arith) in (b ∷ f, ap (λ (x : Name). b ∷ x) q)
]

-- A front and a back that do not overlap leave something between them.
between_lem :
    (p r f t : Name)
    → p ++ r ≡ f ++ t
    → length p + length t < length (p ++ r)
    → (c : ℕ) × (m : Name) × (r ≡ c ∷ m ++ t)
between_lem [] r [] t e h =
    let l : length r ≡ length t = ap (λ (x : Name). length x) e in absurd (omega arith)
between_lem [] r (c ∷ m) t e h = (c, m, e)
between_lem (x ∷ p) r [] t e h =
    let l : length (x ∷ p ++ r) ≡ length t = ap (λ (y : Name). length y) e in absurd (omega arith)
between_lem (x ∷ p) r (y ∷ f) t e h = between_lem p r f t (cc) (omega arith)

-- The two ways to write the form
form_lem :
    (prefix : List ℕ) (c : ℕ) (m : Name)
    → marker_of prefix ++ (c ∷ m ++ codes ".tmp")
      ≡ b'.' ∷ (prefix ++ (b'.' ∷ c ∷ (m ++ codes ".tmp")))
form_lem prefix c m =
    ap (λ (x : Name). b'.' ∷ x) (append_assoc prefix (b'.' ∷ []) (c ∷ m ++ codes ".tmp"))

of_parts :
    (prefix : List ℕ) (n r f : Name)
    → n ≡ marker_of prefix ++ r
    → n ≡ f ++ codes ".tmp"
    → length (marker_of prefix) + 4 < length n
    → IsTemporaryName prefix n
of_parts prefix n r f e g long =
    let l : length n ≡ length (marker_of prefix ++ r) = ap (λ (x : Name). length x) e in
    let (c, m, q) = between_lem (marker_of prefix) r f (codes ".tmp") (sym e ∙ g) (omega arith) in
    (c, m, e ∙ ap (λ (x : Name). marker_of prefix ++ x) q ∙ form_lem prefix c m)

to_parts :
    (prefix : List ℕ) (c : ℕ) (m : Name)
    → let n = marker_of prefix ++ (c ∷ m ++ codes ".tmp") in
      (starts_with (marker_of prefix) n ≡ true)
      × (ends_with (codes ".tmp") n ≡ true)
      × (length (marker_of prefix) + 4 < length n)
to_parts prefix c m =
    let tail : Name = c ∷ m ++ codes ".tmp" in
    let ends : ends_with (codes ".tmp") tail ≡ true =
      ends_with-append (codes ".tmp") (c ∷ m) (codes ".tmp") (ends_with_refl b'.' (codes "tmp")) in
    (
      starts_with-append (marker_of prefix) tail,
      ends_with-append (codes ".tmp") (marker_of prefix) tail ends,
      omega (arith, length-append (marker_of prefix) tail, length-append m (codes ".tmp")),
    )

pub is_temporary_iff :
    (prefix : List ℕ) (n : Name) → (is_temporary prefix n ≡ true) ↔ IsTemporaryName prefix n
unfolding is_temporary
is_temporary_iff prefix n = (
  λ h.
      let (r, e) = starts_with-rest (marker_of prefix) n (ground arith) in
      let (f, g) = ends_with-front (codes ".tmp") n (ground arith) in
      of_parts prefix n r f e g (ground arith),
  λ (c, m, e).
      let (a, b, l) = to_parts prefix c m in
      subst (λ (x : Name). is_temporary prefix x ≡ true) (form_lem prefix c m ∙ sym e)
        (ground arith),
)
