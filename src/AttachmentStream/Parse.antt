-- ===== src/AttachmentStream/Parse.antt =====
-- The grammar of the attachment stream, over all of its bytes at once.
use ceal_cli.Base.{
  ℕ, ◌≤◌, ◌<◌, String, List, [], ◌∷◌, ◌++◌, length, take, drop, Bool, true, false, ◌≡◌, ◌⊎◌, inl,
  inr, arith, length-append,
}
use ceal_cli.Base.Outcome.{Outcome, ok, err}
use ceal_cli.AttachmentStream.Queue.{take-append, drop-append}
use ceal_cli.AttachmentStream.{Protocol, same_bytes, prefix_length, uint32_at}

module _ {R : Type 0} (p : Protocol R) where
  -- The records that bytes begin with, before or after the magic, and what follows them: an error,
  -- or bytes that are no whole item yet.
  pub data Parses : Bool → List ℕ → List R → Outcome String (Bool × List ℕ) → Type 0 where
    awaits_magic : (b : List ℕ) → length b < length p.magic → Parses false b [] (ok (false, b))
    wrong_magic :
        (b : List ℕ)
        → length p.magic ≤ length b
        → same_bytes (take (length p.magic) b) p.magic ≡ false
        → Parses false b [] (err "invalid_stream_magic")
    has_magic :
        (b : List ℕ) (rs : List R) (e : Outcome String (Bool × List ℕ))
        → length p.magic ≤ length b
        → same_bytes (take (length p.magic) b) p.magic ≡ true
        → Parses true (drop (length p.magic) b) rs e
        → Parses false b rs e
    awaits_prefix :
        (b : List ℕ) → length b < p.record_prefix_bytes → Parses true b [] (ok (true, b))
    bad_length :
        (b : List ℕ) (x : String)
        → p.record_prefix_bytes ≤ length b
        → prefix_length p (take p.record_prefix_bytes b) ≡ err x
        → Parses true b [] (err x)
    awaits_record :
        (b : List ℕ) (n : ℕ)
        → p.record_prefix_bytes ≤ length b
        → prefix_length p (take p.record_prefix_bytes b) ≡ ok n
        → length b < n
        → Parses true b [] (ok (true, b))
    bad_record :
        (b : List ℕ) (n : ℕ) (x : String)
        → p.record_prefix_bytes ≤ length b
        → prefix_length p (take p.record_prefix_bytes b) ≡ ok n
        → n ≤ length b
        → p.decode (take n b) ≡ err x
        → Parses true b [] (err x)
    one_record :
        (b : List ℕ) (n : ℕ) (r : R) (rs : List R) (e : Outcome String (Bool × List ℕ))
        → p.record_prefix_bytes ≤ length b
        → prefix_length p (take p.record_prefix_bytes b) ≡ ok n
        → n ≤ length b
        → p.decode (take n b) ≡ ok r
        → Parses true (drop n b) rs e
        → Parses true b (r ∷ rs) e

  -- What more bytes bring after an end: nothing after an error.
  abbrev pub After :
      Outcome String (Bool × List ℕ) → List ℕ → List R → Outcome String (Bool × List ℕ) → Type 0
  After (err x) more rs e = (rs ≡ []) × (e ≡ err x)
  After (ok (m, b)) more rs e = Parses m (b ++ more) rs e

  longer : (n : ℕ) (b more : List ℕ) → n ≤ length b → n ≤ length (b ++ more)
  longer n b more h = omega (arith, length-append b more)

  -- Bytes that come in two parts are parsed in two parts.
  pub Parses-append :
      (m : Bool) (b : List ℕ) (rs : List R) (e : Outcome String (Bool × List ℕ)) (more : List ℕ)
      (rs' : List R) (e' : Outcome String (Bool × List ℕ))
      → Parses m b rs e
      → After e more rs' e'
      → Parses m (b ++ more) (rs ++ rs') e'
  Parses-append _ _ _ _ more rs' e' (awaits_magic b h) next = next
  Parses-append _ _ _ _ more rs' e' (wrong_magic b h other) (none_more, same) =
      rw (none_more, same)
        (wrong_magic (b ++ more) (longer (length p.magic) b more h)
          (rw (take-append (length p.magic) b more h) other))
  Parses-append _ _ _ _ more rs' e' (has_magic b rs e h same d) next =
      has_magic (b ++ more) (rs ++ rs') e' (longer (length p.magic) b more h)
        (rw (take-append (length p.magic) b more h) same)
        (rw (drop-append (length p.magic) b more h)
          (Parses-append true (drop (length p.magic) b) rs e more rs' e' d next))
  Parses-append _ _ _ _ more rs' e' (awaits_prefix b h) next = next
  Parses-append _ _ _ _ more rs' e' (bad_length b x h bad) (none_more, same) =
      rw (none_more, same)
        (bad_length (b ++ more) x (longer p.record_prefix_bytes b more h)
          (rw (take-append p.record_prefix_bytes b more h) bad))
  Parses-append _ _ _ _ more rs' e' (awaits_record b n h long short) next = next
  Parses-append _ _ _ _ more rs' e' (bad_record b n x h long there bad) (none_more, same) =
      rw (none_more, same)
        (bad_record (b ++ more) n x (longer p.record_prefix_bytes b more h)
          (rw (take-append p.record_prefix_bytes b more h) long) (longer n b more there)
          (rw (take-append n b more there) bad))
  Parses-append _ _ _ _ more rs' e' (one_record b n r rs e h long there good d) next =
      one_record (b ++ more) n r (rs ++ rs') e' (longer p.record_prefix_bytes b more h)
        (rw (take-append p.record_prefix_bytes b more h) long) (longer n b more there)
        (rw (take-append n b more there) good)
        (rw (drop-append n b more there) (Parses-append true (drop n b) rs e more rs' e' d next))

  -- Bytes that are no whole item yet.
  abbrev pub Waits : Bool → List ℕ → Type 0
  Waits false b = length b < length p.magic
  Waits true b =
      (length b < p.record_prefix_bytes)
      ⊎ ((p.record_prefix_bytes ≤ length b)
          × ((n : ℕ) × (prefix_length p (take p.record_prefix_bytes b) ≡ ok n) × (length b < n)))

  abbrev pub EndWaits : Outcome String (Bool × List ℕ) → Type 0
  EndWaits (err x) = Unit {0}
  EndWaits (ok (m, b)) = Waits m b

  pub Parses-EndWaits :
      (m : Bool) (b : List ℕ) (rs : List R) (e : Outcome String (Bool × List ℕ))
      → Parses m b rs e
      → EndWaits e
  Parses-EndWaits _ _ _ _ (awaits_magic b h) = h
  Parses-EndWaits _ _ _ _ (wrong_magic b h other) = tt
  Parses-EndWaits _ _ _ _ (has_magic b rs e h same d) =
      Parses-EndWaits true (drop (length p.magic) b) rs e d
  Parses-EndWaits _ _ _ _ (awaits_prefix b h) = inl h
  Parses-EndWaits _ _ _ _ (bad_length b x h bad) = tt
  Parses-EndWaits _ _ _ _ (awaits_record b n h long short) = inr (h, (n, long, short))
  Parses-EndWaits _ _ _ _ (bad_record b n x h long there bad) = tt
  Parses-EndWaits _ _ _ _ (one_record b n r rs e h long there good d) =
      Parses-EndWaits true (drop n b) rs e d

  pub prefix_length-pos : (prefix : List ℕ) (n : ℕ) → prefix_length p prefix ≡ ok n → 0 < n
  unfolding prefix_length
  prefix_length-pos prefix n h =
      let header : ℕ = uint32_at 0 prefix in let payload : ℕ = uint32_at 4 prefix in ground arith
