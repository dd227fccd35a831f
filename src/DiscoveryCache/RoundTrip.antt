-- ===== src/DiscoveryCache/RoundTrip.antt =====
-- A discovery that is written reads back as itself, and what a read returns may be written.
use ceal_cli.Base.{
  String, none, some, true, ◌≡◌, refl, sym, arith, inl, inr, Bool-cases, Option-cases,
}
use ceal_cli.Base.Json.{Json, obj}
use ceal_cli.Platform.{Platform, DatesRoundTrip}
use ceal_cli.DiscoveryCache.{
  Decoder, Entry, validate_entry, entry_fields, write_cache_entry, parse_fields, parse_cache_entry,
}

module _ (p : Platform) (decode : Decoder) where
  parse-entry_fields :
      (e : Entry) (date : String)
      → validate_entry p decode e ≡ true
      → p.parse_date date ≡ some e.cached_at
      → parse_cache_entry p decode (obj (entry_fields date e)) ≡ some e
  unfolding parse_cache_entry parse_fields
  parse-entry_fields e date valid d = rw (d, valid) refl

  -- A discovery that the cache writes reads back as itself.
  pub parse-write_cache_entry :
      (e : Entry) (j : Json)
      → DatesRoundTrip p
      → write_cache_entry p decode e ≡ some j
      → parse_cache_entry p decode j ≡ some e
  unfolding write_cache_entry
  parse-write_cache_entry e j dates h = elim (Bool-cases (validate_entry p decode e)) [
    | inr x ↦ let no : none ≡ some j = rw (x, write_cache_entry) at h in cc
    | inl x ↦ elim (Option-cases (p.format_date e.cached_at)) [
      | inl y ↦ let no : none ≡ some j = rw (x, y, write_cache_entry) at h in cc
      | inr (date, y) ↦
          let both : some (obj (entry_fields date e)) ≡ some j =
            rw (x, y, write_cache_entry) at h in
          let same : obj (entry_fields date e) ≡ j = cc in
          rw (sym same) (parse-entry_fields e date x (dates e.cached_at date y))
    ]
  ]

  -- Whatever the file holds, an entry that is read is one that the cache would write.
  pub parse_cache_entry-valid :
      (j : Json) (e : Entry)
      → parse_cache_entry p decode j ≡ some e
      → validate_entry p decode e ≡ true
  unfolding parse_cache_entry parse_fields
  parse_cache_entry-valid j e h = ground arith
