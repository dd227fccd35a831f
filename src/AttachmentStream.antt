-- ===== src/AttachmentStream.antt =====
-- packages/ceal-worker-cli/src/leased-consumer-attachment-stream.ts: readAttachmentStreamRecords, the
-- reader of the Gateway's attachment stream, over its ByteQueue. The protocol's constants and its
-- decoder of a record are parameters. The iterations of a loop are bounded by the bytes at hand.
pub mod Queue
pub mod Parse
pub mod Draining
pub mod Reading
use ceal_cli.Base.{
  ℕ, zero, suc, ◌+◌, ◌*◌, ◌-◌, min, max, String, List, [], ◌∷◌, ◌++◌, length, take, drop, Option,
  none, some, Bool, true, false, ◌||◌, ◌==◌, ltb, if◌then◌else◌,
}
use ceal_cli.Base.Outcome.{Outcome, ok, err}
use ceal_cli.AttachmentStream.Queue.{ByteQueue, empty_queue, push_chunk, peek, take_bytes}

pub record Protocol (R : Type 0) : Type 0 where
  -- CEAL_LEASED_CONSUMER_ATTACHMENT_STREAM_MAGIC and the limits of that family
  pub magic : List ℕ
  pub record_prefix_bytes : ℕ
  pub max_header_bytes : ℕ
  pub max_attachment_bytes : ℕ
  pub max_record_bytes : ℕ
  -- decodeCealLeasedConsumerAttachmentStreamRecord
  pub decode : List ℕ → Outcome String R

-- DataView.getUint32, big-endian
abbrev pub uint32_from : ℕ → List ℕ → ℕ
uint32_from n [] = n
uint32_from n (b ∷ bs) = uint32_from (256 * n + b) bs

abbrev pub uint32_at : ℕ → List ℕ → ℕ
uint32_at offset bytes = uint32_from 0 (take 4 (drop offset bytes))

-- sameBytes
abbrev pub same_bytes : List ℕ → List ℕ → Bool
same_bytes [] [] = true
same_bytes [] (b ∷ bs) = false
same_bytes (a ∷ more) [] = false
same_bytes (a ∷ more) (b ∷ bs) = if a == b then same_bytes more bs else false

abbrev pub and_then : {A B : Type 0} → Outcome String A → (A → Outcome String B) → Outcome String B
and_then (ok a) f = f a
and_then (err e) f = err e

-- The queue and `magic_checked`.
pub record Reader : Type 0 where
  pub queue : ByteQueue
  pub magic_checked : Bool

-- The records that a generator yields, and how it ends.
abbrev pub Yielded : Type 0 → Type 0 → Type 0
Yielded R A = List R × Outcome String A

module _ {R : Type 0} where
  abbrev pub then_yield : {A B : Type 0} → (A → Yielded R B) → Yielded R A → Yielded R B
  then_yield f (rs, ok a) = let (more, end) = f a in (rs ++ more, end)
  then_yield f (rs, err e) = (rs, err e)

module _ {R : Type 0} (p : Protocol R) where
  abbrev pub length_of : ℕ → ℕ → Outcome String ℕ
  length_of header payload =
      if header == 0
        || ltb p.max_header_bytes header
        || ltb p.max_attachment_bytes payload
        || ltb p.max_record_bytes (header + payload)
      then err "record_too_large"
      else ok (p.record_prefix_bytes + header + payload)

  unfoldable pub prefix_length : List ℕ → Outcome String ℕ
  prefix_length prefix = length_of (uint32_at 0 prefix) (uint32_at 4 prefix)

  -- readRecordLength
  abbrev pub read_record_length : ByteQueue → Outcome String ℕ
  read_record_length q = and_then (peek p.record_prefix_bytes q) prefix_length

  abbrev pub yield_record :
      (ByteQueue → Yielded R Reader) → ByteQueue → Outcome String R → Yielded R Reader
  yield_record next q (err e) = ([], err e)
  yield_record next q (ok r) = then_yield next (r ∷ [], ok q)

  abbrev pub take_record :
      (ByteQueue → Yielded R Reader) → Outcome String (List ℕ × ByteQueue) → Yielded R Reader
  take_record next (err e) = ([], err e)
  take_record next (ok (bytes, q)) = yield_record next q (p.decode bytes)

  abbrev pub with_length :
      (ByteQueue → Yielded R Reader) → ByteQueue → Outcome String ℕ → Yielded R Reader
  with_length next q (err e) = ([], err e)
  with_length next q (ok n) =
      if ltb q.buffered n
      then ([], ok record { queue = q; magic_checked = true })
      else take_record next (take_bytes n q)

  -- The loop of drainRecords, whose queue holds fewer bytes at each turn
  unfoldable pub drain_loop : ℕ → ByteQueue → Yielded R Reader
  drain_loop zero q = ([], ok record { queue = q; magic_checked = true })
  drain_loop (suc fuel) q =
      if ltb q.buffered p.record_prefix_bytes
      then ([], ok record { queue = q; magic_checked = true })
      else with_length (drain_loop fuel) q (read_record_length q)

  abbrev pub drain_queue : ByteQueue → Yielded R Reader
  drain_queue q = drain_loop (suc q.buffered) q

  abbrev pub check_magic : Outcome String (List ℕ × ByteQueue) → Yielded R Reader
  check_magic (err e) = ([], err e)
  check_magic (ok (bytes, q)) =
      if same_bytes bytes p.magic then drain_queue q else ([], err "invalid_stream_magic")

  -- drainRecords
  unfoldable pub drain_records : Reader → Yielded R Reader
  drain_records s =
      if s.magic_checked
      then drain_queue s.queue
      else if ltb s.queue.buffered (length p.magic)
      then ([], ok s)
      else check_magic (take_bytes (length p.magic) s.queue)

  -- nextRequiredBytes
  unfoldable pub next_required_bytes : Reader → Outcome String ℕ
  next_required_bytes s =
      let buffered = s.queue.buffered in
      if s.magic_checked
      then (if ltb buffered p.record_prefix_bytes
          then ok (p.record_prefix_bytes - buffered)
          else and_then (read_record_length s.queue) λ n. ok (max 1 (n - buffered)))
      else ok (length p.magic - buffered)

  abbrev pub add_bytes :
      (List ℕ → Reader → Yielded R Reader) → List ℕ → Reader → Outcome String ℕ → Yielded R Reader
  add_bytes next chunk s (err e) = ([], err e)
  add_bytes next chunk s (ok required) =
      let count = min required (length chunk) in
      next (drop count chunk) (record s { queue = push_chunk (take count chunk) s.queue })

  -- The `while` loop over a chunk, whose rest is shorter at each turn
  unfoldable pub read_chunk : ℕ → List ℕ → Reader → Yielded R Reader
  read_chunk zero chunk s = ([], err "out_of_fuel")
  read_chunk (suc fuel) [] s = drain_records s
  read_chunk (suc fuel) (b ∷ bs) s =
      then_yield (λ t. add_bytes (read_chunk fuel) (b ∷ bs) t (next_required_bytes t))
        (drain_records s)

  unfoldable pub read_all_chunks : List (List ℕ) → Reader → Yielded R Reader
  read_all_chunks [] s = ([], ok s)
  read_all_chunks (c ∷ cs) s = then_yield (read_all_chunks cs) (read_chunk (suc (length c)) c s)

  abbrev pub at_end : Reader → Yielded R (Unit {0})
  at_end s =
      if s.magic_checked
      then (if s.queue.buffered == 0 then ([], ok tt) else ([], err "stream_truncated"))
      else ([], err "invalid_stream_magic")

  -- readAttachmentStreamRecords
  unfoldable pub read_records : List (List ℕ) → Yielded R (Unit {0})
  read_records chunks =
      then_yield at_end
        (read_all_chunks chunks record { queue = empty_queue; magic_checked = false })
