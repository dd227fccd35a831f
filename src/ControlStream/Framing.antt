-- ===== src/ControlStream/Framing.antt =====
-- The frames of a stream do not depend on its chunks.
use ceal_cli.Base.{
  ℕ, ◌+◌, List, [], ◌∷◌, ◌++◌, append_assoc, all, all-append, map, some, Bool, true, false, not,
  ◌&&◌, ◌==◌, ltb, ◌≡◌, refl, sym, ap, ◌∙◌, arith, Bool-cases, inl, inr,
}
use ceal_cli.Base.Outcome.{ok, err, Outcome-cases}
use ceal_cli.ControlStream.{
  Handled, byte_length, push, split_lines, handed, check_frame, deliver, run_stream,
}

abbrev Split : Type 0
Split = List (List ℕ) × List ℕ

abbrev push_all : List ℕ → Split → Split
push_all [] x = x
push_all (c ∷ cs) x = push c (push_all cs x)

abbrev is_clean : List ℕ → Bool
is_clean = all (λ c. not (c == 10))

abbrev join : List (List ℕ) → Split → Split
join [] x = x
join (l ∷ ls) x = (l ∷ (join ls x).0, (join ls x).1)

push-join :
    (c : ℕ) (ls : List (List ℕ)) (r : List ℕ) (x : Split)
    → push c (join ls (push_all r x)) ≡ join (push c (ls, r)).0 (push_all (push c (ls, r)).1 x)
push-join c [] r x = refl
push-join c (l ∷ ls) r x = refl

split-append :
    (xs ys : List ℕ)
    → split_lines (xs ++ ys)
      ≡ join (split_lines xs).0 (push_all (split_lines xs).1 (split_lines ys))
split-append [] ys = refl
split-append (c ∷ xs) ys = elim (Bool-cases (c == 10)) [
  | inl e ↦ rw (e, split-append xs ys) refl
  | inr e ↦
      rw (e, split-append xs ys)
        (push-join c (split_lines xs).0 (split_lines xs).1 (split_lines ys))
]

-- What stays behind the last newline has none.
push-clean :
    (c : ℕ) (ls : List (List ℕ)) (r : List ℕ)
    → (c == 10) ≡ false
    → is_clean r ≡ true
    → is_clean (push c (ls, r)).1 ≡ true
push-clean c [] r e h = ground (arith, e, h)
push-clean c (l ∷ ls) r e h = h

split-clean : (xs : List ℕ) → is_clean (split_lines xs).1 ≡ true
split-clean [] = refl
split-clean (c ∷ xs) = elim (Bool-cases (c == 10)) [
  | inl e ↦ rw e (split-clean xs)
  | inr e ↦ rw e (push-clean c (split_lines xs).0 (split_lines xs).1 e (split-clean xs))
]

clean-split :
    (r ys : List ℕ) → is_clean r ≡ true → split_lines (r ++ ys) ≡ push_all r (split_lines ys)
clean-split [] ys h = refl
clean-split (c ∷ r) ys h = elim (Bool-cases (c == 10)) [
  | inl e ↦ absurd (ground (arith, e, h))
  | inr e ↦ rw (e, clean-split r ys (ground (arith, h))) refl
]

byte_length-append : (xs ys : List ℕ) → byte_length (xs ++ ys) ≡ byte_length xs + byte_length ys
byte_length-append [] ys = omega arith
byte_length-append (x ∷ xs) ys = omega (arith, byte_length-append xs ys)

abbrev pub concat : List (List ℕ) → List ℕ
concat [] = []
concat (c ∷ cs) = c ++ concat cs

push_all-none : (r s : List ℕ) → push_all r ([], s) ≡ ([], r ++ s)
push_all-none [] s = refl
push_all-none (c ∷ r) s = ap (push c) (push_all-none r s)

push_all-line :
    (r m : List ℕ) (ms : List (List ℕ)) (s : List ℕ) → push_all r (m ∷ ms, s) ≡ ((r ++ m) ∷ ms, s)
push_all-line [] m ms s = refl
push_all-line (c ∷ r) m ms s = ap (push c) (push_all-line r m ms s)

join-lines : (ls : List (List ℕ)) (x : Split) → (join ls x).0 ≡ ls ++ x.0
join-lines [] x = refl
join-lines (l ∷ ls) x = ap (λ ms. l ∷ ms) (join-lines ls x)

join-rest : (ls : List (List ℕ)) (x : Split) → (join ls x).1 ≡ x.1
join-rest [] x = refl
join-rest (l ∷ ls) x = join-rest ls x

and-left : (a b : Bool) → (a && b) ≡ true → a ≡ true
and-left a b h = ground arith

and-right : (a b : Bool) → (a && b) ≡ true → b ≡ true
and-right a b h = ground arith

abbrev all_handed : List (List ℕ) → Handled → Handled
all_handed [] x = x
all_handed (l ∷ ls) x = handed l (all_handed ls x)

all_handed-lines : (ls ms : List (List ℕ)) → all_handed ls (ok tt, ms) ≡ (ok tt, ls ++ ms)
all_handed-lines [] ms = refl
all_handed-lines (l ∷ ls) ms = ap (handed l) (all_handed-lines ls ms)

module _ (maximum : ℕ) (handle : List ℕ → Bool) where
  -- A frame that is accepted and handled.
  abbrev pub is_good : List ℕ → Bool
  is_good l = elim (check_frame maximum handle l) [ err _ ↦ false | ok _ ↦ handle l ]

  good-head : (l : List ℕ) (ls : List (List ℕ)) → all is_good (l ∷ ls) ≡ true → is_good l ≡ true
  good-head l ls h = and-left (is_good l) (all is_good ls) h

  good-tail :
      (l : List ℕ) (ls : List (List ℕ)) → all is_good (l ∷ ls) ≡ true → all is_good ls ≡ true
  good-tail l ls h = and-right (is_good l) (all is_good ls) h

  deliver-good :
      (ls : List (List ℕ)) (x : Handled)
      → all is_good ls ≡ true
      → deliver maximum handle ls x ≡ all_handed ls x
  deliver-good [] x h = refl
  deliver-good (l ∷ ls) x h = elim (Outcome-cases (check_frame maximum handle l)) [
    | inr (e, c) ↦ let no : false ≡ true = rw (c, is_good) at (good-head l ls h) in cc
    | inl (u, c) ↦
        let hl : handle l ≡ true = rw (c, is_good) at (good-head l ls h) in
        rw (c, hl, deliver) (ap (handed l) (deliver-good ls x (good-tail l ls h)))
  ]

  -- What is pending in front of good frames fits.
  good-fits : (l : List ℕ) → is_good l ≡ true → ltb maximum (byte_length l) ≡ false
  unfolding check_frame
  good-fits l h = ground arith

  pending-fits :
      (r : List ℕ) (x : Split) (ls : List (List ℕ))
      → push_all r x ≡ (ls, [])
      → all is_good ls ≡ true
      → ltb maximum (byte_length r) ≡ false
  pending-fits r ([], s) ls e h =
      let all_of : ◌≡◌ {A = Split} ([], r ++ s) (ls, []) = sym (push_all-none r s) ∙ e in
      let nothing : r ++ s ≡ [] = ap (λ z. z.1) all_of in
      let short : byte_length r + byte_length s ≡ 0 =
        sym (byte_length-append r s) ∙ ap byte_length nothing in
      ground (arith, short)
  pending-fits r (m ∷ ms, s) ls e h =
      let all_of : ◌≡◌ {A = Split} ((r ++ m) ∷ ms, s) (ls, []) = sym (push_all-line r m ms s) ∙ e in
      let lines : (r ++ m) ∷ ms ≡ ls = ap (λ z. z.0) all_of in
      let good : all is_good ((r ++ m) ∷ ms) ≡ true = ap (all is_good) lines ∙ h in
      let fits : ltb maximum (byte_length (r ++ m)) ≡ false =
        good-fits (r ++ m) (good-head (r ++ m) ms good) in
      let sum : byte_length (r ++ m) ≡ byte_length r + byte_length m = byte_length-append r m in
      ground (arith, fits, sum)

  run-legal :
      (chunks : List (List ℕ)) (pending : List ℕ) (ls : List (List ℕ))
      → is_clean pending ≡ true
      → split_lines (pending ++ concat chunks) ≡ (ls, [])
      → all is_good ls ≡ true
      → run_stream maximum handle (map some chunks) (some []) pending ≡ (ok tt, ls)
  unfolding run_stream
  run-legal [] pending ls c e h =
      let all_of : ([], pending ++ []) ≡ (ls, []) =
        sym (clean-split pending [] c ∙ push_all-none pending []) ∙ e in
      let none_left : pending ++ [] ≡ [] = ap (λ z. z.1) all_of in
      let no_lines : [] ≡ ls = ap (λ z. z.0) all_of in rw (none_left, ← no_lines) refl
  run-legal (t ∷ ts) pending ls c e h =
      let first = (split_lines (pending ++ t)).0 in
      let r = (split_lines (pending ++ t)).1 in
      let x = push_all r (split_lines (concat ts)) in
      let whole : join first x ≡ (ls, []) =
        sym (split-append (pending ++ t) (concat ts))
        ∙ (ap split_lines (append_assoc pending t (concat ts)) ∙ e) in
      let lines : first ++ x.0 ≡ ls = sym (join-lines first x) ∙ ap (λ z. z.0) whole in
      let ends : x.1 ≡ [] = sym (join-rest first x) ∙ ap (λ z. z.1) whole in
      let good : all is_good first && all is_good x.0 ≡ true =
        sym (all-append is_good first x.0) ∙ (ap (all is_good) lines ∙ h) in
      let later : x ≡ (x.0, []) = (λ i. (x.0, ends i)) in
      let later_good : all is_good x.0 ≡ true =
        and-right (all is_good first) (all is_good x.0) good in
      let clean : is_clean r ≡ true = split-clean (pending ++ t) in
      let rest : run_stream maximum handle (map some ts) (some []) r ≡ (ok tt, x.0) =
        run-legal ts r x.0 clean (clean-split r (concat ts) clean ∙ later) later_good in
      let fits : ltb maximum (byte_length r) ≡ false =
        pending-fits r (split_lines (concat ts)) x.0 later later_good in
      rw (rest, fits)
        (deliver-good first (ok tt, x.0) (and-left (all is_good first) (all is_good x.0) good)
          ∙ (all_handed-lines first x.0 ∙ ap (λ z. (ok tt, z)) lines))

-- However a stream of complete and good frames is cut into chunks, it ends without an error and
-- exactly its frames are handed over, in order.
pub frames_of_chunks :
    (maximum : ℕ) (handle : List ℕ → Bool) (chunks : List (List ℕ)) (frames : List (List ℕ))
    → split_lines (concat chunks) ≡ (frames, [])
    → all (is_good maximum handle) frames ≡ true
    → run_stream maximum handle (map some chunks) (some []) [] ≡ (ok tt, frames)
frames_of_chunks maximum handle chunks frames e h =
    run-legal maximum handle chunks [] frames refl e h
