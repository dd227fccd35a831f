-- ===== src/AttachmentStream/Draining.antt =====
-- One drain of the queue yields what the grammar says of its bytes.
use ceal_cli.Base.{
  ℕ, zero, suc, ◌≤◌, ◌<◌, String, List, [], ◌∷◌, ◌++◌, length, take, drop, Bool, true, false, ltb,
  ◌≡◌, refl, subst, ap, inl, inr, arith, length-drop, Bool-cases,
}
use ceal_cli.Base.Outcome.{Outcome, ok, err, Outcome-cases}
use ceal_cli.AttachmentStream.Queue.{
  ByteQueue, peek, take_bytes, flat, IsCounted, Takes, take_bytes-Takes,
}
use ceal_cli.AttachmentStream.Parse.{
  Parses, awaits_magic, wrong_magic, has_magic, awaits_prefix, bad_length, awaits_record,
  bad_record, one_record, prefix_length-pos,
}
use ceal_cli.AttachmentStream.{
  Protocol, Reader, Yielded, same_bytes, prefix_length, with_length, drain_loop, drain_queue,
  check_magic, drain_records,
}

module _ {R : Type 0} (p : Protocol R) where
  -- What a generator yields is what the grammar says of these bytes.
  abbrev pub Yields : Bool → List ℕ → Yielded R Reader → Type 0
  Yields m b (rs, err x) = Parses p m b rs (err x)
  Yields m b (rs, ok s) =
      IsCounted s.queue × Parses p m b rs (ok (s.magic_checked, flat s.queue.chunks))

  one_record-Yields :
      (b : List ℕ) (n : ℕ) (r : R) (y : Yielded R Reader)
      → p.record_prefix_bytes ≤ length b
      → prefix_length p (take p.record_prefix_bytes b) ≡ ok n
      → n ≤ length b
      → p.decode (take n b) ≡ ok r
      → Yields true (drop n b) y
      → Yields true b (r ∷ [] ++ y.0, y.1)
  one_record-Yields b n r (rs, err x) h long there good d =
      one_record b n r rs (err x) h long there good d
  one_record-Yields b n r (rs, ok s) h long there good (counted, d) =
      (counted, one_record b n r rs (ok (s.magic_checked, flat s.queue.chunks)) h long there good d)

  magic_read :
      (b : List ℕ) (y : Yielded R Reader)
      → length p.magic ≤ length b
      → same_bytes (take (length p.magic) b) p.magic ≡ true
      → Yields true (drop (length p.magic) b) y
      → Yields false b y
  magic_read b (rs, err x) there same d = has_magic b rs (err x) there same d
  magic_read b (rs, ok s) there same (counted, d) =
      (counted, has_magic b rs (ok (s.magic_checked, flat s.queue.chunks)) there same d)

  -- One turn of the loop of drainRecords, with the turns that follow.
  with_length-Yields :
      (next : ByteQueue → Yielded R Reader) (q : ByteQueue) (l : Outcome String ℕ)
      → IsCounted q
      → p.record_prefix_bytes ≤ length (flat q.chunks)
      → prefix_length p (take p.record_prefix_bytes (flat q.chunks)) ≡ l
      → ((u : ByteQueue)
          → IsCounted u
          → u.buffered < q.buffered
          → Yields true (flat u.chunks) (next u))
      → Yields true (flat q.chunks) (with_length p next q l)
  with_length-Yields next q (err x) h there long ih = bad_length (flat q.chunks) x there long
  with_length-Yields next q (ok n) h there long ih =
      let b : List ℕ = flat q.chunks in
      let size : q.buffered ≡ length b = h in
      elim (Bool-cases (ltb q.buffered n)) [
        | inl e ↦ rw e (h, awaits_record b n there long (ground arith))
        | inr e ↦
            let t : Takes n q = take_bytes-Takes n q h (ground arith) in
            let u : ByteQueue = t.left in
            let taken : take_bytes n q ≡ ok (take n b, u) = t.taken in
            let others : flat u.chunks ≡ drop n b = t.others in
            let counted : u.buffered ≡ length (flat u.chunks) = t.counted in
            let some_bytes : 0 < n = prefix_length-pos p (take p.record_prefix_bytes b) n long in
            let enough : n ≤ length b = ground arith in
            let fewer : u.buffered < q.buffered =
              omega (arith, counted, ap length others, length-drop n b, size) in
            rw (e, taken)
              (elim (Outcome-cases (p.decode (take n b))) [
                | inl (r, good) ↦ rw good (
                    one_record-Yields b n r (next u) there long enough good
                      (subst (λ (x : List ℕ). Yields true x (next u)) others (ih u counted fewer)))
                | inr (x, bad) ↦ rw bad (bad_record b n x there long enough bad)
              ])
      ]

  drain_loop-Yields :
      (fuel : ℕ) (q : ByteQueue)
      → IsCounted q
      → q.buffered < fuel
      → Yields true (flat q.chunks) (drain_loop p fuel q)
  unfolding drain_loop
  drain_loop-Yields zero q h enough = absurd (omega arith)
  drain_loop-Yields (suc fuel) q h enough =
      let b : List ℕ = flat q.chunks in
      let size : q.buffered ≡ length b = h in
      elim (Bool-cases (ltb q.buffered p.record_prefix_bytes)) [
        | inl e ↦ rw e (h, awaits_prefix b (ground arith))
        | inr e ↦
            let there : p.record_prefix_bytes ≤ length b = ground arith in
            let looked : Takes p.record_prefix_bytes q =
              take_bytes-Takes p.record_prefix_bytes q h (ground arith) in
            let peeked : peek p.record_prefix_bytes q ≡ ok (take p.record_prefix_bytes b) =
              looked.peeked in
            rw (e, peeked)
              (with_length-Yields (drain_loop p fuel) q
                (prefix_length p (take p.record_prefix_bytes b)) h there refl
                (λ u counted fewer. drain_loop-Yields fuel u counted (omega arith)))
      ]

  check_magic-Yields :
      (q : ByteQueue)
      → IsCounted q
      → length p.magic ≤ length (flat q.chunks)
      → Yields false (flat q.chunks) (check_magic p (take_bytes (length p.magic) q))
  check_magic-Yields q h there =
      let b : List ℕ = flat q.chunks in
      let n : ℕ = length p.magic in
      let size : q.buffered ≡ length b = h in
      let t : Takes n q = take_bytes-Takes n q h (omega arith) in
      let u : ByteQueue = t.left in
      let taken : take_bytes n q ≡ ok (take n b, u) = t.taken in
      let others : flat u.chunks ≡ drop n b = t.others in
      let counted : u.buffered ≡ length (flat u.chunks) = t.counted in
      rw taken (elim (Bool-cases (same_bytes (take n b) p.magic)) [
        | inl e ↦ rw e (
            magic_read b (drain_queue p u) there e (
              subst (λ (x : List ℕ). Yields true x (drain_queue p u)) others
                (drain_loop-Yields (suc u.buffered) u counted (omega arith))))
        | inr e ↦ rw e (wrong_magic b there e)
      ])

  pub drain_records-Yields :
      (checked : Bool) (q : ByteQueue)
      → IsCounted q
      → Yields checked
          (flat q.chunks)
          (drain_records p (record { queue = q; magic_checked = checked }))
  unfolding drain_records
  drain_records-Yields true q h = drain_loop-Yields (suc q.buffered) q h (omega arith)
  drain_records-Yields false q h =
      let size : q.buffered ≡ length (flat q.chunks) = h in
      elim (Bool-cases (ltb q.buffered (length p.magic))) [
        | inl e ↦ rw e (h, awaits_magic (flat q.chunks) (ground arith))
        | inr e ↦ rw e (check_magic-Yields q h (ground arith))
      ]
