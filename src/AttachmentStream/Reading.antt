-- ===== src/AttachmentStream/Reading.antt =====
-- The reader yields what the grammar says of all the bytes, however they come in chunks.
use ceal_cli.Base.{
  ℕ, zero, suc, ◌<◌, ◌-◌, min, max, String, List, [], ◌∷◌, ◌++◌, length, take, drop, Bool, true,
  false, ◌==◌, ltb, ◌≡◌, refl, sym, subst, ap, ◌∙◌, inl, inr, arith, append-nil, append_assoc,
  length-drop,
}
use ceal_cli.Base.Outcome.{Outcome, ok, err}
use ceal_cli.AttachmentStream.Queue.{
  ByteQueue, empty_queue, push_chunk, peek, flat, IsCounted, push_chunk-flat, Takes,
  take_bytes-Takes,
}
use ceal_cli.AttachmentStream.Parse.{
  Parses, awaits_magic, awaits_prefix, awaits_record, Parses-append, Waits, Parses-EndWaits,
}
use ceal_cli.AttachmentStream.Draining.{Yields, drain_records-Yields}
use ceal_cli.AttachmentStream.{
  Protocol, Reader, Yielded, then_yield, drain_records, next_required_bytes, add_bytes, read_chunk,
  read_all_chunks, at_end, read_records,
}

take-append-drop : (n : ℕ) (xs : List ℕ) → take n xs ++ drop n xs ≡ xs
take-append-drop zero xs = refl
take-append-drop (suc n) [] = refl
take-append-drop (suc n) (x ∷ xs) = ap (λ t. x ∷ t) (take-append-drop n xs)

module _ {R : Type 0} (p : Protocol R) where
  -- Bytes that are no whole item yet ask for more.
  next_required-pos :
      (checked : Bool) (q : ByteQueue)
      → IsCounted q
      → Waits p checked (flat q.chunks)
      → (k : ℕ) × (next_required_bytes p (record { queue = q; magic_checked = checked }) ≡ ok k)
        × (0 < k)
  unfolding next_required_bytes
  next_required-pos false q h waits = (length p.magic - q.buffered, refl, omega arith)
  next_required-pos true q h (inl short) =
      let e : ltb q.buffered p.record_prefix_bytes ≡ true = ground arith in
      (p.record_prefix_bytes - q.buffered, rw e refl, omega arith)
  next_required-pos true q h (inr (there, (n, long, short))) =
      let e : ltb q.buffered p.record_prefix_bytes ≡ false = ground arith in
      let looked : Takes p.record_prefix_bytes q =
        take_bytes-Takes p.record_prefix_bytes q h (omega arith) in
      let peeked : peek p.record_prefix_bytes q ≡ ok (take p.record_prefix_bytes (flat q.chunks)) =
        looked.peeked in
      (max 1 (n - q.buffered), rw (e, peeked) (rw long refl), omega arith)

  -- What follows a first part that was read: the error that ended it, or the reading of the rest.
  join-Yields :
      (m : Bool) (b more : List ℕ) (f : Reader → Yielded R Reader) (y : Yielded R Reader)
      → Yields p m b y
      → ((s : Reader)
          → IsCounted s.queue
          → Waits p s.magic_checked (flat s.queue.chunks)
          → Yields p s.magic_checked (flat s.queue.chunks ++ more) (f s))
      → Yields p m (b ++ more) (then_yield f y)
  join-Yields m b more f (rs, err x) d next =
      subst (λ (l : List R). Parses p m (b ++ more) l (err x)) (append-nil rs)
        (Parses-append p m b rs (err x) more [] (err x) d (refl, refl))
  join-Yields m b more f (rs, ok s) (counted, d) next =
      joined (f s)
        (next s counted (Parses-EndWaits p m b rs (ok (s.magic_checked, flat s.queue.chunks)) d))
    where
      joined :
          (z : Yielded R Reader)
          → Yields p s.magic_checked (flat s.queue.chunks ++ more) z
          → Yields p m (b ++ more) (rs ++ z.0, z.1)
      joined (ts, err x) e =
          Parses-append p m b rs (ok (s.magic_checked, flat s.queue.chunks)) more ts (err x) d e
      joined (ts, ok t) (c, e) = (
        c,
        Parses-append p m b rs (ok (s.magic_checked, flat s.queue.chunks)) more ts
            (ok (t.magic_checked, flat t.queue.chunks)) d e,
      )

  -- One turn of the loop over a chunk, with the turns that follow.
  add_bytes-Yields :
      (next : List ℕ → Reader → Yielded R Reader) (bytes : List ℕ) (t : Reader)
      → IsCounted t.queue
      → 0 < length bytes
      → ((k : ℕ) × (next_required_bytes p t ≡ ok k) × (0 < k))
      → ((rest : List ℕ) (u : Reader)
          → IsCounted u.queue
          → length rest < length bytes
          → Yields p u.magic_checked (flat u.queue.chunks ++ rest) (next rest u))
      → Yields p t.magic_checked
          (flat t.queue.chunks ++ bytes)
          (add_bytes p next bytes t (next_required_bytes p t))
  add_bytes-Yields next bytes t counted some_left (k, asks, some_bytes) ih =
      let n : ℕ = min k (length bytes) in
      let u : Reader = record t { queue = push_chunk (take n bytes) t.queue } in
      let (pushed, still) = push_chunk-flat (take n bytes) t.queue counted in
      let fewer : length (drop n bytes) < length bytes = omega (arith, length-drop n bytes) in
      let same : flat u.queue.chunks ++ drop n bytes ≡ flat t.queue.chunks ++ bytes =
        ap (λ (l : List ℕ). l ++ drop n bytes) pushed
        ∙ append_assoc (flat t.queue.chunks) (take n bytes) (drop n bytes)
        ∙ ap (λ (l : List ℕ). flat t.queue.chunks ++ l) (take-append-drop n bytes) in
      rw asks (
        subst (λ (b : List ℕ). Yields p t.magic_checked b (next (drop n bytes) u)) same
          (ih (drop n bytes) u still fewer))

  read_chunk-Yields :
      (fuel : ℕ) (bytes : List ℕ) (s : Reader)
      → IsCounted s.queue
      → length bytes < fuel
      → Yields p s.magic_checked (flat s.queue.chunks ++ bytes) (read_chunk p fuel bytes s)
  unfolding read_chunk
  read_chunk-Yields zero bytes s h enough = absurd (omega arith)
  read_chunk-Yields (suc fuel) [] s h enough =
      subst (λ (b : List ℕ). Yields p s.magic_checked b (drain_records p s))
        (sym (append-nil (flat s.queue.chunks))) (drain_records-Yields p s.magic_checked s.queue h)
  read_chunk-Yields (suc fuel) (c ∷ cs) s h enough =
      join-Yields s.magic_checked (flat s.queue.chunks) (c ∷ cs)
        (λ t. add_bytes p (read_chunk p fuel) (c ∷ cs) t (next_required_bytes p t))
        (drain_records p s) (drain_records-Yields p s.magic_checked s.queue h)
        (λ t counted waits.
          add_bytes-Yields (read_chunk p fuel) (c ∷ cs) t counted (omega arith)
            (next_required-pos t.magic_checked t.queue counted waits)
            (λ rest u also fewer. read_chunk-Yields fuel rest u also (omega arith)))

  Waits-Parses : (m : Bool) (b : List ℕ) → Waits p m b → Parses p m b [] (ok (m, b))
  Waits-Parses false b h = awaits_magic b h
  Waits-Parses true b (inl h) = awaits_prefix b h
  Waits-Parses true b (inr (there, (n, long, short))) = awaits_record b n there long short

  read_all_chunks-Yields :
      (cs : List (List ℕ)) (s : Reader)
      → IsCounted s.queue
      → Waits p s.magic_checked (flat s.queue.chunks)
      → Yields p s.magic_checked (flat s.queue.chunks ++ flat cs) (read_all_chunks p cs s)
  unfolding read_all_chunks
  read_all_chunks-Yields [] s h waits =
      subst (λ (b : List ℕ). Yields p s.magic_checked b ([], ok s))
        (sym (append-nil (flat s.queue.chunks)))
        (h, Waits-Parses s.magic_checked (flat s.queue.chunks) waits)
  read_all_chunks-Yields (c ∷ cs) s h waits =
      subst (λ (b : List ℕ). Yields p s.magic_checked b (read_all_chunks p (c ∷ cs) s))
        (append_assoc (flat s.queue.chunks) c (flat cs))
        (join-Yields s.magic_checked (flat s.queue.chunks ++ c) (flat cs) (read_all_chunks p cs)
          (read_chunk p (suc (length c)) c s)
          (read_chunk-Yields (suc (length c)) c s h (omega arith))
          (λ t counted waits. read_all_chunks-Yields cs t counted waits))

-- How a stream ends whose bytes are parsed to this end: it is complete if the magic was there and
-- nothing is left over.
abbrev pub stream_end : Outcome String (Bool × List ℕ) → Outcome String (Unit {0})
stream_end (err x) = err x
stream_end (ok (false, b)) = err "invalid_stream_magic"
stream_end (ok (true, [])) = ok tt
stream_end (ok (true, b ∷ bs)) = err "stream_truncated"

-- What a reader yields is what the grammar says of these bytes.
pub record IsReadOf {R : Type 0} (p : Protocol R) (bytes : List ℕ) (y : Yielded R (Unit {0}))
    : Type 0 where
  pub parse_end : Outcome String (Bool × List ℕ)
  pub parsed : Parses p false bytes y.0 parse_end
  pub ended : y.1 ≡ stream_end parse_end

at_end_lem :
    {R : Type 0} (p : Protocol R) (checked : Bool) (q : ByteQueue)
    → IsCounted q
    → at_end p (record { queue = q; magic_checked = checked })
      ≡ ([], stream_end (ok (checked, flat q.chunks)))
at_end_lem p false q h = refl
at_end_lem p true q h = at_length (flat q.chunks) h
  where
    at_length :
        (b : List ℕ)
        → q.buffered ≡ length b
        → at_end p (record { queue = q; magic_checked = true }) ≡ ([], stream_end (ok (true, b)))
    at_length [] e = let zero_left : (q.buffered == 0) ≡ true = ground arith in rw zero_left refl
    at_length (c ∷ cs) e =
        let some_left : (q.buffered == 0) ≡ false = ground arith in rw some_left refl

finished :
    {R : Type 0} (p : Protocol R) (bytes : List ℕ) (y : Yielded R Reader)
    → Yields p false bytes y
    → IsReadOf p bytes (then_yield (at_end p) y)
finished p bytes (rs, err x) d = record { parse_end = err x; parsed = d; ended = refl }
finished p bytes (rs, ok s) (counted, d) =
    let ended : at_end p s ≡ ([], stream_end (ok (s.magic_checked, flat s.queue.chunks))) =
      at_end_lem p s.magic_checked s.queue counted in
    rw (ended, append-nil rs)
      (record { parse_end = ok (s.magic_checked, flat s.queue.chunks); parsed = d; ended = refl })

-- However the bytes of a stream come in chunks, the reader yields the records that the grammar finds
-- in all of them, in order, and ends as it says: by the first error, as truncated, or complete.
pub read_records-IsReadOf :
    {R : Type 0} (p : Protocol R) (chunks : List (List ℕ))
    → 0 < length p.magic
    → IsReadOf p (flat chunks) (read_records p chunks)
unfolding read_records
read_records-IsReadOf p chunks h =
    finished p (flat chunks) (read_all_chunks p chunks s) (read_all_chunks-Yields p chunks s refl h)
  where
    s : Reader
    s = record { queue = empty_queue; magic_checked = false }
