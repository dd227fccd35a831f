-- ===== src/ResponseBody/Reading.antt =====
-- The bytes that a bounded read returns.
use ceal_cli.Base.{
  ℕ, zero, suc, ◌+◌, ◌≤◌, String, List, [], ◌∷◌, ◌++◌, append-nil, append_assoc, length,
  length-append, take, drop, Option, none, some, Bool, true, false, ◌≡◌, refl, sym, ap, ◌∙◌, arith,
  ltb, Bool-cases, inl, inr, if◌then◌else◌,
}
use ceal_cli.Base.Outcome.{Outcome, ok, err, Outcome-cases}
use ceal_cli.ResponseBody.{
  DeclaredLengthRule, Refusal, too_large, Read, chunk, no_value, failed, check_declared, zeros, set,
  set_all, merge_chunks, read_chunks, read_body, read_bounded_response_body,
}

abbrev pub concat : List (List ℕ) → List ℕ
concat [] = []
concat (c ∷ cs) = c ++ concat cs

-- The bytes of a stream that does not fail.
abbrev pub bytes : List Read → List ℕ
bytes [] = []
bytes (chunk c ∷ rs) = c ++ bytes rs
bytes (no_value ∷ rs) = bytes rs
bytes (failed ∷ rs) = bytes rs

abbrev pub is_whole : List Read → Bool
is_whole [] = true
is_whole (chunk c ∷ rs) = is_whole rs
is_whole (no_value ∷ rs) = is_whole rs
is_whole (failed ∷ rs) = false

take-append : {A : Type 0} (xs ys : List A) → take (length xs) (xs ++ ys) ≡ xs
take-append [] ys = refl
take-append (x ∷ xs) ys = ap (λ zs. x ∷ zs) (take-append xs ys)

drop-append : {A : Type 0} (n : ℕ) (xs ys : List A) → drop (length xs + n) (xs ++ ys) ≡ drop n ys
drop-append n [] ys = let e : 0 + n ≡ n = omega arith in rw e refl
drop-append n (x ∷ xs) ys =
    let e : suc (length xs) + n ≡ suc (length xs + n) = omega arith in rw e (drop-append n xs ys)

drop-zeros : (m n : ℕ) → drop m (zeros (m + n)) ≡ zeros n
drop-zeros zero n = let e : 0 + n ≡ n = omega arith in rw e refl
drop-zeros (suc m) n = let e : suc m + n ≡ suc (m + n) = omega arith in rw e (drop-zeros m n)

set-zeros :
    (done c : List ℕ) (n : ℕ)
    → set (done ++ zeros (length c + n)) c (length done) ≡ (done ++ c) ++ zeros n
set-zeros done c n =
    rw
      (
        take-append done (zeros (length c + n)),
        drop-append (length c) done (zeros (length c + n)),
        drop-zeros (length c) n,
        append_assoc done c (zeros n),
      )
      refl

set_all-concat :
    (done : List ℕ) (cs : List (List ℕ))
    → set_all (done ++ zeros (length (concat cs))) (length done) cs ≡ done ++ concat cs
set_all-concat done [] = refl
set_all-concat done (c ∷ cs) =
    rw
      (
        length-append c (concat cs),
        set-zeros done c (length (concat cs)),
        ← length-append done c,
        set_all-concat (done ++ c) cs,
        append_assoc done c (concat cs),
      )
      refl

-- The chunks that are joined in one buffer are the bytes in order.
merge_chunks-concat : (cs : List (List ℕ)) → merge_chunks cs (length (concat cs)) ≡ concat cs
unfolding merge_chunks
merge_chunks-concat cs = set_all-concat [] cs

concat-append : (cs : List (List ℕ)) (c : List ℕ) → concat (cs ++ c ∷ []) ≡ concat cs ++ c
concat-append [] c = append-nil c
concat-append (d ∷ cs) c = rw (concat-append cs c, append_assoc d (concat cs) c) refl

-- What a stream that does not fail gives, on top of the chunks so far.
abbrev limited : ℕ → List ℕ → Outcome Refusal (List ℕ)
limited maximum bs = if ltb maximum (length bs) then err too_large else ok bs

read_chunks-whole :
    (maximum : ℕ) (rs : List Read) (cs : List (List ℕ)) (total : ℕ)
    → is_whole rs ≡ true
    → total ≡ length (concat cs)
    → total ≤ maximum
    → read_chunks maximum rs cs total ≡ limited maximum (concat cs ++ bytes rs)
unfolding read_chunks
read_chunks-whole maximum [] cs total w e l =
    let fits : ltb maximum (length (concat cs)) ≡ false = ground (arith, e, l) in
    rw (append-nil (concat cs), fits, e, merge_chunks-concat cs) refl
read_chunks-whole maximum (no_value ∷ rs) cs total w e l =
    read_chunks-whole maximum rs cs total w e l
read_chunks-whole maximum (failed ∷ rs) cs total w e l = cc
read_chunks-whole maximum (chunk c ∷ rs) cs total w e l =
    elim (Bool-cases (ltb maximum (total + length c))) [
      | inl x ↦
          let whole : length (concat cs ++ (c ++ bytes rs))
              ≡ length (concat cs) + (length c + length (bytes rs)) =
            rw (length-append (concat cs) (c ++ bytes rs), length-append c (bytes rs)) refl in
          let over : ltb maximum (length (concat cs ++ (c ++ bytes rs))) ≡ true =
            ground (arith, whole, e, x) in
          rw (x, over) refl
      | inr x ↦
          let more : total + length c ≡ length (concat (cs ++ c ∷ [])) =
            rw (concat-append cs c, length-append (concat cs) c, e) refl in
          let rest =
            read_chunks-whole maximum rs (cs ++ c ∷ []) (total + length c) w more
              (ground (arith, x)) in
          rw x (rest ∙ rw (concat-append cs c, append_assoc (concat cs) c (bytes rs)) refl)
    ]

limited-bound : (maximum : ℕ) (bs b : List ℕ) → limited maximum bs ≡ ok b → length b ≤ maximum
limited-bound maximum bs b h = elim (Bool-cases (ltb maximum (length bs))) [
  | inl x ↦ let no : err too_large ≡ ok b = rw x at h in cc
  | inr x ↦
      let same : ok bs ≡ ok b = rw x at h in let it : bs ≡ b = cc in rw (← it) (ground (arith, x))
]

-- Only a whole stream is read.
read_chunks-is_whole :
    (maximum : ℕ) (rs : List Read) (cs : List (List ℕ)) (total : ℕ) (b : List ℕ)
    → read_chunks maximum rs cs total ≡ ok b
    → is_whole rs ≡ true
unfolding read_chunks
read_chunks-is_whole maximum [] cs total b h = refl
read_chunks-is_whole maximum (no_value ∷ rs) cs total b h =
    read_chunks-is_whole maximum rs cs total b h
read_chunks-is_whole maximum (failed ∷ rs) cs total b h = cc
read_chunks-is_whole maximum (chunk c ∷ rs) cs total b h =
    elim (Bool-cases (ltb maximum (total + length c))) [
      | inl x ↦ let no : err too_large ≡ ok b = rw x at h in cc
      | inr x ↦ read_chunks-is_whole maximum rs (cs ++ c ∷ []) (total + length c) b (rw x at h)
    ]

read_body-bound :
    (maximum : ℕ) (body : Option (List Read)) (b : List ℕ)
    → read_body maximum body ≡ ok b
    → length b ≤ maximum
read_body-bound maximum none b h = cc
read_body-bound maximum (some rs) b h = limited-bound maximum (bytes rs) b (
    sym (
      read_chunks-whole maximum rs [] 0 (read_chunks-is_whole maximum rs [] 0 b h) refl
        (omega arith))
    ∙ h)

-- A stream that does not fail, behind a declared length that passes, is read as all of its bytes in
-- order where they fit, and refused as too large exactly where they do not.
pub read_whole_body :
    (safe_integer_of : String → Option ℕ) (maximum : ℕ) (rule : DeclaredLengthRule)
    (declared : Option String) (rs : List Read)
    → check_declared safe_integer_of rule maximum declared ≡ ok tt
    → is_whole rs ≡ true
    → read_bounded_response_body safe_integer_of maximum rule declared (some rs)
      ≡ (if ltb maximum (length (bytes rs)) then err too_large else ok (bytes rs))
unfolding read_bounded_response_body
read_whole_body safe_integer_of maximum rule declared rs h w =
    rw h (read_chunks-whole maximum rs [] 0 w refl (omega arith))

-- Whatever the server declares and sends, what is returned is not longer than the maximum.
pub read_bounded :
    (safe_integer_of : String → Option ℕ) (maximum : ℕ) (rule : DeclaredLengthRule)
    (declared : Option String) (body : Option (List Read)) (b : List ℕ)
    → read_bounded_response_body safe_integer_of maximum rule declared body ≡ ok b
    → length b ≤ maximum
unfolding read_bounded_response_body
read_bounded safe_integer_of maximum rule declared body b h =
    elim (Outcome-cases (check_declared safe_integer_of rule maximum declared)) [
      | inl (u, e) ↦ read_body-bound maximum body b (rw (e, read_bounded_response_body) at h)
      | inr (x, e) ↦ let no : err x ≡ ok b = rw (e, read_bounded_response_body) at h in cc
    ]
