-- ===== src/ReceiptSpool/Drops.antt =====
-- packages/ceal-worker-cli/src/receipt-spool.ts: the counter of lost receipts, one byte for each
-- under a header that names the session's identity. A file is its text, already cut at the header.
use ceal_cli.Base.{
  ℕ, zero, suc, min, ◌≡◌, refl, arith, String, List, [], ◌∷◌, ◌++◌, length, all, Option, none, some,
  true, ◌||◌, not, ◌==◌, leb, str_eq, sym, ap, ◌∙◌, Option-cases, if◌then◌else◌, length-append,
  all-append, eq_iff, eq_refl, Bool-cases, inl, inr,
}
use ceal_cli.Base.Json.{str}
use ceal_cli.SafeRef.{is_sha256_digest}
use ceal_cli.ReceiptSpool.File.{Drops, no_drops}

-- The text of the drops file, by `split("\n", 2)` and the header's `split(" ")`.
pub record DropsFile : Type 0 where
  pub header : List String
  pub body : List ℕ

abbrev pub max_recorded_drops : ℕ
max_recorded_drops = 4096

abbrev pub read_parts : List String → List ℕ → Option (String × ℕ)
read_parts (schema ∷ identity ∷ []) body =
    if not (str_eq schema "ceal.receipt_spool_drops.v2")
      || not (is_sha256_digest (some (str identity)))
      || not (all (λ c. c == b'.') body)
    then none
    else some (identity, length body)
read_parts _ body = none

-- readDropFile: the identity and the count
unfoldable pub read_drop_file : Option DropsFile → Option (String × ℕ)
read_drop_file none = none
read_drop_file (some f) = read_parts f.header f.body

-- readDrops
unfoldable pub read_drops : Option DropsFile → String → Drops
read_drops file identity = elim (read_drop_file file) [
  | none ↦ no_drops
  | some (owner, count) ↦
      if str_eq owner identity
      then record { count = count; at_least = leb max_recorded_drops count }
      else no_drops
]

-- The file that the first drop of an identity writes.
abbrev pub one_drop : String → DropsFile
one_drop identity = record {
  header = "ceal.receipt_spool_drops.v2" ∷ identity ∷ [];
  body = b'.' ∷ [];
}

abbrev pub appended_drop : Option DropsFile → Option DropsFile
appended_drop none = none
appended_drop (some f) = some record f { body = f.body ++ b'.' ∷ [] }

-- writeDrop
unfoldable pub write_drop : Option DropsFile → String → Option DropsFile
write_drop file identity = elim (read_drop_file file) [
  | none ↦ some (one_drop identity)
  | some (owner, count) ↦
      if not (str_eq owner identity)
      then some (one_drop identity)
      else (if leb max_recorded_drops count then file else appended_drop file)
]

-- recordDrop, where the lock is taken and the write succeeds
unfoldable pub record_drop : Option DropsFile → String → Option DropsFile
record_drop file identity =
    if is_sha256_digest (some (str identity)) then write_drop file identity else file

-- Any number of drops, one after the other.
abbrev pub record_drops : ℕ → String → Option DropsFile → Option DropsFile
record_drops zero identity file = file
record_drops (suc n) identity file = record_drop (record_drops n identity file) identity

-- A file that counts `n` drops of `identity`.
abbrev pub Counted : ℕ → String → Option DropsFile → Type 0
Counted n identity file = read_drop_file file ≡ some (identity, n)

module _ (identity : String) (digest : is_sha256_digest (some (str identity)) ≡ true) where
  one_drop-Counted : Counted 1 identity (some (one_drop identity))
  unfolding read_drop_file
  one_drop-Counted = rw digest refl

  appended-Counted :
      (n : ℕ) (file : Option DropsFile)
      → Counted n identity file
      → Counted (suc n) identity (appended_drop file)
  unfolding read_drop_file
  appended-Counted n none h = cc
  appended-Counted n (some f) h = go f.header h
    where
      go :
          (header : List String)
          → read_parts header f.body ≡ some (identity, n)
          → read_parts header (f.body ++ b'.' ∷ []) ≡ some (identity, suc n)
      go [] e = cc
      go (schema ∷ []) e = cc
      go (schema ∷ owner ∷ []) e =
          ground (
            arith,
            all-append (λ c. c == b'.') f.body (b'.' ∷ []),
            length-append f.body (b'.' ∷ []),
          )
      go (schema ∷ owner ∷ x ∷ xs) e = cc

  write_drop-Counted :
      (n : ℕ) (file : Option DropsFile)
      → Counted n identity file
      → Counted (if leb max_recorded_drops n then n else suc n) identity (write_drop file identity)
  unfolding write_drop
  write_drop-Counted n file h = elim (Bool-cases (leb max_recorded_drops n)) [
    | inl e ↦ rw (h, eq_refl identity, e, write_drop) h
    | inr e ↦ rw (h, eq_refl identity, e, write_drop) (appended-Counted n file h)
  ]

  first_drop-Counted :
      (file : Option DropsFile)
      → read_drops file identity ≡ no_drops
      → Counted 1 identity (write_drop file identity)
  unfolding write_drop read_drops
  first_drop-Counted file h = elim (Option-cases (read_drop_file file)) [
    | inl e ↦ rw (e, write_drop) one_drop-Counted
    | inr ((owner, count), e) ↦ elim (Bool-cases (str_eq owner identity)) [
      | inl o ↦
          let found : record { count = count; at_least = leb max_recorded_drops count } ≡ no_drops =
            rw (e, o, read_drops) at h in
          let none_yet : count ≡ 0 = ap (λ d. d.count) found in
          let same : owner ≡ identity = (eq_iff owner identity).0 o in
          write_drop-Counted zero file (e ∙ (rw (none_yet, same) refl))
      | inr o ↦ rw (e, o, write_drop) one_drop-Counted
    ]
  ]

  record_drop-digest :
      (file : Option DropsFile) → record_drop file identity ≡ write_drop file identity
  unfolding record_drop
  record_drop-digest file = rw digest refl

  -- The count after drops that begin with a file of another identity or none.
  record_drops-Counted :
      (n : ℕ) (file : Option DropsFile)
      → read_drops file identity ≡ no_drops
      → Counted (min (suc n) max_recorded_drops) identity (record_drops (suc n) identity file)
  record_drops-Counted zero file h = rw (record_drop-digest file) (first_drop-Counted file h)
  record_drops-Counted (suc n) file h =
      let before : Counted (min (suc n) max_recorded_drops) identity
          (record_drops (suc n) identity file) =
        record_drops-Counted n file h in
      let count : (if leb max_recorded_drops (min (suc n) max_recorded_drops)
            then min (suc n) max_recorded_drops
            else suc (min (suc n) max_recorded_drops))
          ≡ min (suc (suc n)) max_recorded_drops =
        ground arith in
      rw (record_drop-digest (record_drops (suc n) identity file), sym count)
        (write_drop-Counted (min (suc n) max_recorded_drops) (record_drops (suc n) identity file)
          before)

Counted-read :
    (n : ℕ) (identity : String) (file : Option DropsFile)
    → Counted n identity file
    → read_drops file identity ≡ record { count = n; at_least = leb max_recorded_drops n }
unfolding read_drops
Counted-read n identity file h = rw (h, eq_refl identity, read_drops) refl

-- After `n` receipts of one identity are lost, beginning with no count for it, the observer
-- reads the number, at most 4096, and "at least" exactly when it stopped counting there.
pub record_drops-read :
    (n : ℕ) (identity : String) (file : Option DropsFile)
    → is_sha256_digest (some (str identity)) ≡ true
    → read_drops file identity ≡ no_drops
    → read_drops (record_drops n identity file) identity
      ≡ record { count = min n max_recorded_drops; at_least = leb max_recorded_drops n }
record_drops-read zero identity file digest h = h
record_drops-read (suc n) identity file digest h =
    let same : leb max_recorded_drops (min (suc n) max_recorded_drops)
        ≡ leb max_recorded_drops (suc n) =
      ground arith in
    rw
      (
        Counted-read (min (suc n) max_recorded_drops) identity (record_drops (suc n) identity file)
            (record_drops-Counted identity digest n file h),
        same,
      )
      refl
