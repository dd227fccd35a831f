-- ===== src/AttachmentStream/Queue.antt =====
-- The ByteQueue of leased-consumer-attachment-stream.ts, and the list of bytes that it stands for.
use ceal_cli.Base.{
  ℕ, zero, suc, ◌+◌, ◌-◌, ◌≤◌, min, String, List, [], ◌∷◌, ◌++◌, length, take, drop, true, false,
  ◌==◌, ltb, ◌≡◌, refl, sym, ap, ◌∙◌, arith, append_assoc, append-nil, length-append, length-drop,
  if◌then◌else◌, inl, inr, Bool-cases,
}
use ceal_cli.Base.Outcome.{Outcome, ok, err}

-- ByteQueue
pub record ByteQueue : Type 0 where
  pub chunks : List (List ℕ)
  pub buffered : ℕ

abbrev pub empty_queue : ByteQueue
empty_queue = record { chunks = []; buffered = 0 }

unfoldable pub push_chunk : List ℕ → ByteQueue → ByteQueue
push_chunk c q = record { chunks = q.chunks ++ c ∷ []; buffered = q.buffered + length c }

abbrev pub put_first :
    List ℕ → Outcome String (List ℕ × List (List ℕ)) → Outcome String (List ℕ × List (List ℕ))
put_first bytes (err e) = err e
put_first bytes (ok (more, cs)) = ok (bytes ++ more, cs)

-- The loop of `copy`: the bytes, and the chunks that are left if they are consumed
unfoldable pub copy : ℕ → List (List ℕ) → Outcome String (List ℕ × List (List ℕ))
copy remaining [] = if remaining == 0 then ok ([], []) else err "queue_underflow"
copy remaining (c ∷ cs) =
    let count = min remaining (length c) in
    let rest = copy (remaining - count) cs in
    if remaining == 0
    then ok ([], c ∷ cs)
    else if count == length c
    then put_first (take count c) rest
    else ok (take count c, drop count c ∷ cs)

abbrev pub copied : Outcome String (List ℕ × List (List ℕ)) → Outcome String (List ℕ)
copied (err e) = err e
copied (ok (bytes, cs)) = ok bytes

abbrev pub consumed :
    ℕ → Outcome String (List ℕ × List (List ℕ)) → Outcome String (List ℕ × ByteQueue)
consumed buffered (err e) = err e
consumed buffered (ok (bytes, cs)) = ok (bytes, record { chunks = cs; buffered = buffered })

-- peek
unfoldable pub peek : ℕ → ByteQueue → Outcome String (List ℕ)
unfolding copy
peek n q = if ltb q.buffered n then err "queue_underflow" else copied (copy n q.chunks)

-- take
unfoldable pub take_bytes : ℕ → ByteQueue → Outcome String (List ℕ × ByteQueue)
unfolding copy
take_bytes n q =
    if ltb q.buffered n then err "queue_underflow" else consumed (q.buffered - n) (copy n q.chunks)

-- The bytes of a queue, in order.
abbrev pub flat : List (List ℕ) → List ℕ
flat [] = []
flat (c ∷ cs) = c ++ flat cs

abbrev pub IsCounted : ByteQueue → Type 0
IsCounted q = q.buffered ≡ length (flat q.chunks)

flat-append : (cs : List (List ℕ)) (c : List ℕ) → flat (cs ++ c ∷ []) ≡ flat cs ++ c
flat-append [] c = append-nil c
flat-append (b ∷ bs) c = rw (flat-append bs c) (sym (append_assoc b (flat bs) c))

pub push_chunk-flat :
    (c : List ℕ) (q : ByteQueue)
    → IsCounted q
    → (flat (push_chunk c q).chunks ≡ flat q.chunks ++ c) × IsCounted (push_chunk c q)
unfolding push_chunk
push_chunk-flat c q h = (
  flat-append q.chunks c,
  ground (arith, flat-append q.chunks c, length-append (flat q.chunks) c),
)

pub take-append : (n : ℕ) (xs ys : List ℕ) → n ≤ length xs → take n (xs ++ ys) ≡ take n xs
take-append zero xs ys h = refl
take-append (suc n) [] ys h = absurd (omega arith)
take-append (suc n) (x ∷ xs) ys h = ap (λ t. x ∷ t) (take-append n xs ys (omega arith))

pub drop-append : (n : ℕ) (xs ys : List ℕ) → n ≤ length xs → drop n (xs ++ ys) ≡ drop n xs ++ ys
drop-append zero xs ys h = refl
drop-append (suc n) [] ys h = absurd (omega arith)
drop-append (suc n) (x ∷ xs) ys h = drop-append n xs ys (omega arith)

take-append_past :
    (n : ℕ) (xs ys : List ℕ) → length xs ≤ n → take n (xs ++ ys) ≡ xs ++ take (n - length xs) ys
take-append_past n [] ys h = let e : n - 0 ≡ n = omega arith in rw e refl
take-append_past zero (x ∷ xs) ys h = absurd (omega arith)
take-append_past (suc n) (x ∷ xs) ys h =
    let e : suc n - suc (length xs) ≡ n - length xs = omega arith in
    rw e (ap (λ t. x ∷ t) (take-append_past n xs ys (omega arith)))

drop-append_past :
    (n : ℕ) (xs ys : List ℕ) → length xs ≤ n → drop n (xs ++ ys) ≡ drop (n - length xs) ys
drop-append_past n [] ys h = let e : n - 0 ≡ n = omega arith in rw e refl
drop-append_past zero (x ∷ xs) ys h = absurd (omega arith)
drop-append_past (suc n) (x ∷ xs) ys h =
    let e : suc n - suc (length xs) ≡ n - length xs = omega arith in
    rw e (drop-append_past n xs ys (omega arith))

take_all : (xs : List ℕ) → take (length xs) xs ≡ xs
take_all [] = refl
take_all (x ∷ xs) = ap (λ t. x ∷ t) (take_all xs)

-- What `copy` returns: the first bytes, and chunks that stand for the others.
record Copies (n : ℕ) (cs : List (List ℕ)) : Type 0 where
  left : List (List ℕ)
  returned : copy n cs ≡ ok (take n (flat cs), left)
  others : flat left ≡ drop n (flat cs)

copy-Copies : (n : ℕ) (cs : List (List ℕ)) → n ≤ length (flat cs) → Copies n cs
unfolding copy
copy-Copies n [] h =
    let e : n ≡ 0 = omega arith in rw e (record { left = []; returned = refl; others = refl })
copy-Copies n (c ∷ cs) h = elim (Bool-cases (n == 0)) [
  | inl none_asked ↦
      let e : n ≡ 0 = ground arith in
      rw e (record { left = c ∷ cs; returned = refl; others = refl })
  | inr asked ↦ elim (Bool-cases (ltb n (length c))) [
    | inl inside ↦
        let m : min n (length c) ≡ n = ground arith in
        let other : (n == length c) ≡ false = ground arith in
        record {
          left = drop n c ∷ cs;
          returned = rw (m, asked, other) (rw (take-append n c (flat cs) (ground arith)) refl);
          others = sym (drop-append n c (flat cs) (ground arith));
        }
    | inr past ↦
        let rest : Copies (n - length c) cs =
          copy-Copies (n - length c) cs (ground (arith, length-append c (flat cs))) in
        let m : min n (length c) ≡ length c = ground arith in
        let whole : (length c == length c) ≡ true = ground arith in
        let returned : copy (n - length c) cs ≡ ok (take (n - length c) (flat cs), rest.left) =
          rest.returned in
        record {
          left = rest.left;
          returned =
              rw (m, asked, whole, returned, take_all c)
                (rw (take-append_past n c (flat cs) (ground arith)) refl);
          others = rest.others ∙ sym (drop-append_past n c (flat cs) (ground arith));
        }
  ]
]

-- A read of bytes that are there: the first ones, and a queue of the others.
pub record Takes (n : ℕ) (q : ByteQueue) : Type 0 where
  pub left : ByteQueue
  pub peeked : peek n q ≡ ok (take n (flat q.chunks))
  pub taken : take_bytes n q ≡ ok (take n (flat q.chunks), left)
  pub others : flat left.chunks ≡ drop n (flat q.chunks)
  pub counted : IsCounted left

-- The queue of chunks stands for one list of bytes: a read of bytes that are there returns the first
-- ones in order, and a take leaves exactly the others, however the bytes were pushed.
pub take_bytes-Takes : (n : ℕ) (q : ByteQueue) → IsCounted q → n ≤ q.buffered → Takes n q
unfolding peek take_bytes
take_bytes-Takes n q h enough =
    let c : Copies n q.chunks = copy-Copies n q.chunks (omega arith) in
    let open_still : ltb q.buffered n ≡ false = ground arith in
    let returned : copy n q.chunks ≡ ok (take n (flat q.chunks), c.left) = c.returned in
    record {
      left = record { chunks = c.left; buffered = q.buffered - n };
      peeked = rw open_still (rw returned refl);
      taken = rw open_still (rw returned refl);
      others = c.others;
      counted = rw (c.others, length-drop n (flat q.chunks)) (omega arith);
    }
