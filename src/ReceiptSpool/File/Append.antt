-- ===== src/ReceiptSpool/File/Append.antt =====
-- What a read finds after an append.
use ceal_cli.Base.{
  ℕ, zero, ◌≤◌, ◌-◌, max, String, List, [], ◌∷◌, ◌++◌, length, drop, take_last, filter, all,
  all-drop, all-append, filter-all, length-filter-le, Option, none, some, Bool, true, false, ◌≡◌,
  refl, ap, arith, ◌∙◌, sym, subst, eq_refl, inl, inr, Option-cases,
}
use ceal_cli.Base.Json.{Json, Items, str, obj, nil, cons}
use ceal_cli.Platform.{Platform, DatesRoundTrip}
use ceal_cli.SafeRef.{is_sha256_digest}
use ceal_cli.ReceiptSpool.{Entry, max_entries, is_valid_entry, serialize_entry}
use ceal_cli.ReceiptSpool.RoundTrip.{parse-serialize_entry}
use ceal_cli.ReceiptSpool.File.{
  File, Drops, no_drops, Reading, spool, foreign, missing, parsed_entries, read_entries,
  read_record, read_json, read_spool, serialize_entries, serialize_spool, recent, recent_of,
  spool_fields, written_file, prior_entries, kept_entries, write_appended_spool, append, state,
  load,
}
use ceal_cli.ReceiptSpool.File.Bounds.{read_spool-IsBounded, length-take_last}

-- What the file shows to the next command of this identity.
abbrev pub prior : Platform → Option File → String → ℕ → List Entry
prior p file identity now = prior_entries (read_spool p file identity now no_drops false)

take_last-few : {A : Type 0} (n : ℕ) (xs : List A) → length xs ≤ n → take_last n xs ≡ xs
take_last-few n xs h = let z : length xs - n ≡ zero = omega arith in ap (λ k. drop k xs) z

all-filter_other :
    {A : Type 0} (p q : A → Bool) (xs : List A) → all p xs ≡ true → all p (filter q xs) ≡ true
all-filter_other p q [] h = refl
all-filter_other p q (x ∷ xs) h = ground (arith, all-filter_other p q xs)

module _ (p : Platform) (dates : DatesRoundTrip p) where
  parsed-serialized :
      (later : ℕ) (es : List Entry) (js : Items)
      → all is_valid_entry es ≡ true
      → serialize_entries p es ≡ some js
      → parsed_entries p later js ≡ filter (recent later) es
  parsed-serialized later [] js h e =
      let same : nil ≡ js = cc in subst (λ k. parsed_entries p later k ≡ []) same refl
  parsed-serialized later (x ∷ es) js h e = elim (Option-cases (serialize_entry p x)) [
    | inl y ↦ let no : none ≡ some js = rw (y, serialize_entries) at e in cc
    | inr (j, y) ↦ elim (Option-cases (serialize_entries p es)) [
      | inl z ↦ let no : none ≡ some js = rw (y, z, serialize_entries) at e in cc
      | inr (ks, z) ↦
          let both : some (cons j ks) ≡ some js = rw (y, z, serialize_entries) at e in
          let same : cons j ks ≡ js = cc in
          subst (λ k. parsed_entries p later k ≡ filter (recent later) (x ∷ es)) same
            (rw
              (
                parse-serialize_entry p x j dates (ground arith) y,
                parsed-serialized later es ks (ground arith) z,
                parsed_entries,
              )
              refl)
    ]
  ]

  read-fields :
      (identity : String) (es : List Entry) (js : Items) (later : ℕ) (drops : Drops)
      → is_sha256_digest (some (str identity)) ≡ true
      → all is_valid_entry es ≡ true
      → length es ≤ max_entries
      → serialize_entries p es ≡ some js
      → read_json p (some (obj (spool_fields identity js))) identity later drops
        ≡ spool record { entries = filter (recent later) es; drops = drops; spool_present = true }
  unfolding read_json read_record read_entries
  read-fields identity es js later drops digest valid few z =
      let short : length (filter (recent later) es) ≤ max_entries =
        omega (arith, length-filter-le (recent later) es) in
      rw
        (
          digest,
          eq_refl identity,
          parsed-serialized later es js valid z,
          take_last-few max_entries (filter (recent later) es) short,
        )
        refl

  -- The file that a serialized spool makes reads back as its entries that are still recent.
  read-serialized :
      (identity : String) (es : List Entry) (j : Json) (later : ℕ) (drops : Drops)
      → is_sha256_digest (some (str identity)) ≡ true
      → all is_valid_entry es ≡ true
      → length es ≤ max_entries
      → serialize_spool p identity es ≡ some j
      → read_spool p (some (written_file j)) identity later drops true
        ≡ spool record { entries = filter (recent later) es; drops = drops; spool_present = true }
  unfolding serialize_spool read_spool
  read-serialized identity es j later drops digest valid few e =
      elim (Option-cases (serialize_entries p es)) [
        | inl z ↦ let no : none ≡ some j = rw (z, serialize_spool) at e in cc
        | inr (js, z) ↦
            let both : some (obj (spool_fields identity js)) ≡ some j =
              rw (z, serialize_spool) at e in
            let same : some (obj (spool_fields identity js)) ≡ some j = cc in
            rw (sym same) (read-fields identity es js later drops digest valid few z)
      ]

  prior-valid :
      (file : Option File) (identity : String) (now : ℕ)
      → all is_valid_entry (prior p file identity now) ≡ true
  prior-valid file identity now = go (read_spool p file identity now no_drops false) refl
    where
      go :
          (r : Reading)
          → read_spool p file identity now no_drops false ≡ r
          → all is_valid_entry (prior_entries r) ≡ true
      go (spool s) h = (read_spool-IsBounded p identity now no_drops s file false h).valid
      go foreign h = refl
      go missing h = refl

  kept-valid :
      (es : List Entry) (e : Entry) (now : ℕ)
      → all is_valid_entry es ≡ true
      → is_valid_entry e ≡ true
      → all is_valid_entry (kept_entries es e now) ≡ true
  kept-valid es e now h valid = all-drop is_valid_entry _ (recent_of es e now) (
      all-filter_other is_valid_entry (recent (max now e.recorded_at)) (es ++ e ∷ [])
        (rw (all-append is_valid_entry es (e ∷ []), h, valid) refl))

  written-load :
      (identity : String) (es : List Entry) (j : Json) (later : ℕ) (drops : Drops)
      → is_sha256_digest (some (str identity)) ≡ true
      → all is_valid_entry es ≡ true
      → length es ≤ max_entries
      → serialize_spool p identity es ≡ some j
      → load p (some (written_file j)) drops identity later
        ≡ state record { entries = filter (recent later) es; drops = drops; spool_present = true }
  unfolding load
  written-load identity es j later drops digest valid few e =
      rw (digest, read-serialized identity es j later drops digest valid few e) refl

  -- After an append that succeeds, a read under the same identity returns the entries that the
  -- append kept and that are still recent at the time of the read.
  pub append-load :
      (file : Option File) (identity : String) (e : Entry) (now later : ℕ) (drops : Drops)
      (f : File)
      → append p file identity e now ≡ some f
      → load p (some f) drops identity later
        ≡ state record {
          entries = filter (recent later) (kept_entries (prior p file identity now) e now);
          drops = drops;
          spool_present = true;
        }
  unfolding append write_appended_spool
  append-load file identity e now later drops f h =
      elim (Option-cases (serialize_spool p identity es)) [
        | inl x ↦ let no : none ≡ some f = rw (x, write_appended_spool) at written in cc
        | inr (j, x) ↦
            let both : some (written_file j) ≡ some f = rw (x, write_appended_spool) at written in
            let same : written_file j ≡ f = cc in
            rw (sym same) (
              written-load identity es j later drops digest
                (kept-valid before e now (prior-valid file identity now) valid)
                (length-take_last max_entries (recent_of before e now)) x)
      ]
    where
      before : List Entry
      before = prior p file identity now

      es : List Entry
      es = kept_entries before e now

      digest : is_sha256_digest (some (str identity)) ≡ true
      digest = ground arith

      valid : is_valid_entry e ≡ true
      valid = ground arith

      written : write_appended_spool p file identity e now ≡ some f
      written = ground arith

prior-recent :
    (p : Platform) (file : Option File) (identity : String) (now : ℕ)
    → all (recent now) (prior p file identity now) ≡ true
prior-recent p file identity now = go (read_spool p file identity now no_drops false) refl
  where
    go :
        (r : Reading)
        → read_spool p file identity now no_drops false ≡ r
        → all (recent now) (prior_entries r) ≡ true
    go (spool s) h = (read_spool-IsBounded p identity now no_drops s file false h).recent
    go foreign h = refl
    go missing h = refl

-- An entry that is appended at its own time or later, and is still recent then, reads back behind
-- the entries that the file showed before; only the oldest beyond 200 are gone.
pub append_keeps_history :
    (p : Platform) (file : Option File) (identity : String) (e : Entry) (now : ℕ) (drops : Drops)
    (f : File)
    → DatesRoundTrip p
    → e.recorded_at ≤ now
    → recent now e ≡ true
    → append p file identity e now ≡ some f
    → load p (some f) drops identity now
      ≡ state record {
        entries = take_last max_entries (prior p file identity now ++ e ∷ []);
        drops = drops;
        spool_present = true;
      }
append_keeps_history p file identity e now drops f dates old new h =
    let before : List Entry = prior p file identity now in
    let time : max now e.recorded_at ≡ now = omega arith in
    let all_new : all (recent now) (before ++ e ∷ []) ≡ true =
      rw (all-append (recent now) before (e ∷ []), prior-recent p file identity now, new) refl in
    let whole : recent_of before e now ≡ before ++ e ∷ [] =
      rw (time, filter-all (recent now) (before ++ e ∷ []) all_new) refl in
    let last_new : all (recent now) (take_last max_entries (before ++ e ∷ [])) ≡ true =
      all-drop (recent now) _ (before ++ e ∷ []) all_new in
    append-load p dates file identity e now now drops f h
    ∙ rw (whole, filter-all (recent now) (take_last max_entries (before ++ e ∷ [])) last_new) refl
