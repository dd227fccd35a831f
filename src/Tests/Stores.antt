-- ===== src/Tests/Stores.antt =====
-- Concrete instances of the properties of the receipt spool, the discovery cache and the command
-- line's options.
use ceal_cli.Base.{
  String, [], ◌∷◌, ◌++◌, take_last, none, some, true, false, ◌≡◌, ◌≢◌, refl, ◌∙◌, arith, false≢true,
  eq_iff, min, leb, ◌↔◌, ◌+◌, ◌≤◌, ◌<◌,
}
use ceal_cli.Base.Json.{Fields, str, arr, obj, nil, cons, end, field}
use ceal_cli.ReceiptSpool.{
  Entry, completed, readback_verified, is_valid_entry, max_entries, serialize_entry, parse_entry,
  entry_fields,
}
use ceal_cli.ReceiptSpool.File.{
  File, Drops, no_drops, State, state, append, load, recent, written_file, spool_fields,
  kept_entries, serialize_entries,
}
use ceal_cli.ReceiptSpool.File.Bounds.{IsBounded, load-IsBounded}
use ceal_cli.ReceiptSpool.File.Append.{prior, append_keeps_history}
use ceal_cli.ReceiptSpool.Drops.{record_drops, read_drops, max_recorded_drops, record_drops-read}
use ceal_cli.ReceiptSpool.CallResult.{
  receipt_spool_entry_from_call_result, call_result_carries_receipt, projected_is_valid,
}
use ceal_cli.DiscoveryCache.{
  Decoder, Key, validate_entry, write_cache_entry, parse_cache_entry, discovery_cache_freshness,
  discovery_cache_entry_usable, max_safe_integer,
}
use ceal_cli.DiscoveryCache
use ceal_cli.DiscoveryCache.RoundTrip.{parse-write_cache_entry}
use ceal_cli.DiscoveryCache.Usable.{usable_sound}
use ceal_cli.Tests.Data.{platform, platform-DatesRoundTrip, tomorrow, tomorrow_ms}

abbrev entry : Entry
entry = record {
  recorded_at = 1767312000000;
  request_ref = "request:1";
  status = completed;
  evidence = readback_verified;
  audit_refs = "audit:1" ∷ [];
  capability_id = some "capability:1";
  target_ref = none;
  error_kind = none;
}

abbrev identity : String
identity = "0123456789abcdef0123456789abcdef0123456789abcdef0123456789abcdef"

abbrev other_identity : String
other_identity = "ffffffffffffffffffffffffffffffffffffffffffffffffffffffffffffffff"

entry-valid : is_valid_entry entry ≡ true
unfolding is_valid_entry ceal_cli.SafeRef.ceal_safe_ref
entry-valid = refl

abbrev one_entry_file : File
one_entry_file =
    written_file (obj (spool_fields identity (cons (obj (entry_fields tomorrow entry)) nil)))

appended : append platform none identity entry tomorrow_ms ≡ some one_entry_file
unfolding append ceal_cli.SafeRef.is_sha256_digest is_valid_entry ceal_cli.SafeRef.ceal_safe_ref
    ceal_cli.ReceiptSpool.File.write_appended_spool ceal_cli.ReceiptSpool.File.serialize_spool
    ceal_cli.ReceiptSpool.File.read_spool serialize_entry
appended = refl

append_keeps_history_example :
    load platform (some one_entry_file) no_drops identity tomorrow_ms
    ≡ state record {
      entries = take_last max_entries (prior platform none identity tomorrow_ms ++ entry ∷ []);
      drops = no_drops;
      spool_present = true;
    }
append_keeps_history_example =
    append_keeps_history platform none identity entry tomorrow_ms no_drops one_entry_file
      platform-DatesRoundTrip (omega arith) refl appended

abbrev one_entry : State
one_entry = record { entries = entry ∷ []; drops = no_drops; spool_present = true }

prior-none : prior platform none identity tomorrow_ms ≡ []
unfolding ceal_cli.ReceiptSpool.File.read_spool
prior-none = refl

one_entry-load : load platform (some one_entry_file) no_drops identity tomorrow_ms ≡ state one_entry
one_entry-load =
    append_keeps_history platform none identity entry tomorrow_ms no_drops one_entry_file
      platform-DatesRoundTrip (omega arith) refl appended
    ∙ rw prior-none refl

load-IsBounded_example : IsBounded tomorrow_ms (entry ∷ [])
load-IsBounded_example =
    load-IsBounded platform (some one_entry_file) no_drops identity tomorrow_ms one_entry
      one_entry-load

abbrev no_entries : State
no_entries = record {
  entries = [];
  drops = record { count = 1; at_least = false };
  spool_present = false;
}

not_mine : identity ≢ other_identity
not_mine e = false≢true ((eq_iff identity other_identity).1 e)

other-load :
    load platform
      (some one_entry_file)
      (record { count = 1; at_least = false })
      other_identity
      tomorrow_ms
    ≡ state no_entries
unfolding load ceal_cli.SafeRef.is_sha256_digest ceal_cli.ReceiptSpool.File.read_spool
    ceal_cli.ReceiptSpool.File.read_json ceal_cli.ReceiptSpool.File.read_record
other-load = refl

identity-digest : ceal_cli.SafeRef.is_sha256_digest (some (str identity)) ≡ true
unfolding ceal_cli.SafeRef.is_sha256_digest
identity-digest = refl

no_file-read : read_drops none identity ≡ no_drops
unfolding read_drops ceal_cli.ReceiptSpool.Drops.read_drop_file
no_file-read = refl

record_drops-read_example :
    read_drops (record_drops 5000 identity none) identity
    ≡ record { count = min 5000 max_recorded_drops; at_least = leb max_recorded_drops 5000 }
record_drops-read_example = record_drops-read 5000 identity none identity-digest no_file-read

abbrev call_result : Fields
call_result = field "schema_version" (str "ceal.result.v2") (
    field "status" (str "completed") (
      field "receipt"
        (obj (
          field "request_ref" (str "request:1") (
            field "evidence" (str "readback_verified")
              (field "audit_refs" (arr (cons (str "audit:1") nil)) end))))
        (field "capability" (str "capability:1") end)))

projected_entry : receipt_spool_entry_from_call_result call_result tomorrow_ms ≡ some entry
unfolding receipt_spool_entry_from_call_result ceal_cli.ReceiptSpool.safe_ref_of
    ceal_cli.SafeRef.ceal_safe_ref ceal_cli.ReceiptSpool.evidence_of ceal_cli.ReceiptSpool.status_of
    ceal_cli.ReceiptSpool.audit_refs_of
projected_entry = refl

projected_is_valid_example :
    (is_valid_entry entry ≡ true)
    × (entry.recorded_at ≡ tomorrow_ms)
    × (call_result_carries_receipt call_result ≡ true)
projected_is_valid_example = projected_is_valid call_result tomorrow_ms entry projected_entry

abbrev key : Key
key = record {
  gateway_endpoint = "https://gateway.example";
  profile_ref = "profile:1";
  membership_ref = "membership:1";
  negotiated_protocol_version = "1";
}

abbrev decode : Decoder
decode discovery profile = some "membership:1"

abbrev cached : DiscoveryCache.Entry
cached = record { key = key; cached_at = 1767312000000; discovery = str "discovery" }

cached-written :
    write_cache_entry platform decode cached
    ≡ some (obj (DiscoveryCache.entry_fields tomorrow cached))
unfolding write_cache_entry validate_entry ceal_cli.Endpoint.is_ceal_safe_endpoint
    ceal_cli.SafeRef.is_ceal_safe_ref
cached-written = refl

parse-write_cache_entry_example :
    parse_cache_entry platform decode (obj (DiscoveryCache.entry_fields tomorrow cached))
    ≡ some cached
parse-write_cache_entry_example =
    parse-write_cache_entry platform decode cached
      (obj (DiscoveryCache.entry_fields tomorrow cached)) platform-DatesRoundTrip cached-written

cached-read :
    parse_cache_entry platform decode (obj (DiscoveryCache.entry_fields tomorrow cached))
    ≡ some cached
cached-read =
    parse-write_cache_entry platform decode cached
      (obj (DiscoveryCache.entry_fields tomorrow cached)) platform-DatesRoundTrip cached-written

cached-usable : discovery_cache_entry_usable platform decode cached key 1767312000500 600 ≡ true
unfolding discovery_cache_entry_usable DiscoveryCache.discovery_cache_key_matches
    ceal_cli.Endpoint.is_ceal_safe_endpoint ceal_cli.SafeRef.is_ceal_safe_ref
    discovery_cache_freshness
cached-usable = refl

usable_sound_example :
    (discovery_cache_entry_usable platform decode cached key 1767312000500 600 ≡ true) ↔ (
      (cached.key ≡ key)
      × (validate_entry platform decode cached ≡ true)
      × (600 ≤ max_safe_integer)
      × (cached.cached_at ≤ 1767312000500)
      × (1767312000500 < cached.cached_at + 600))
usable_sound_example = usable_sound platform decode cached key 1767312000500 600
