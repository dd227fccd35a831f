-- ===== src/DiscoveryCache.antt =====
-- packages/ceal-worker-cli/src/discovery-cache.ts: one cached discovery for one session projection.
-- The protocol decoder is a parameter: the membership that a decoded discovery names, if it decodes.
pub mod RoundTrip
pub mod Usable
use ceal_cli.Base.{
  ℕ, ◌-◌, String, Option, none, some, Bool, true, false, ◌&&◌, leb, ltb, str_eq, if◌then◌else◌,
}
use ceal_cli.Base.Json.{Json, Fields, str, obj, end, field, get, as_text}
use ceal_cli.Platform.{Platform}
use ceal_cli.Endpoint.{is_ceal_safe_endpoint}
use ceal_cli.SafeRef.{is_ceal_safe_ref}

-- CealDiscoveryCacheKey
pub record Key : Type 0 where
  pub gateway_endpoint : String
  pub profile_ref : String
  pub membership_ref : String
  pub negotiated_protocol_version : String

-- CealDiscoveryCacheEntry
pub record Entry : Type 0 where
  pub key : Key
  pub cached_at : ℕ
  pub discovery : Json

-- decodeCealClientResponse on a discovery and a profile
abbrev pub Decoder : Type 0
Decoder = Json → String → Option String

-- Number.MAX_SAFE_INTEGER
abbrev pub max_safe_integer : ℕ
max_safe_integer = 9007199254740991

-- keysMatch
abbrev pub keys_match : Key → Key → Bool
keys_match a b =
    str_eq a.gateway_endpoint b.gateway_endpoint
    && str_eq a.profile_ref b.profile_ref
    && str_eq a.membership_ref b.membership_ref
    && str_eq a.negotiated_protocol_version b.negotiated_protocol_version

pub record Freshness : Type 0 where
  pub age_ms : ℕ
  pub within_ttl : Bool

-- discoveryCacheFreshness, on finite times
unfoldable pub discovery_cache_freshness : ℕ → ℕ → ℕ → Freshness
discovery_cache_freshness cached_at now ttl_ms =
    let sane = leb ttl_ms max_safe_integer in
    record {
      age_ms = if sane then now - cached_at else 0;
      within_ttl = sane && leb cached_at now && ltb (now - cached_at) ttl_ms;
    }

-- isValidCacheKey, on values of any type
abbrev pub is_valid_key_of : Platform → Option Json → Option Json → Option Json → Option Json → Bool
is_valid_key_of p endpoint profile membership protocol =
    is_ceal_safe_endpoint p.parse_url endpoint
    && is_ceal_safe_ref profile
    && is_ceal_safe_ref membership
    && is_ceal_safe_ref protocol

abbrev pub is_valid_key : Platform → Key → Bool
is_valid_key p k =
    is_valid_key_of p (some (str k.gateway_endpoint)) (some (str k.profile_ref))
      (some (str k.membership_ref)) (some (str k.negotiated_protocol_version))

-- isValidCachedDiscovery
abbrev pub is_valid_discovery : Decoder → Json → Key → Bool
is_valid_discovery decode discovery k = elim (decode discovery k.profile_ref) [
  | none ↦ false
  | some membership ↦ str_eq membership k.membership_ref
]

-- discoveryCacheKeyMatches
unfoldable pub discovery_cache_key_matches : Platform → Key → Key → Bool
discovery_cache_key_matches p left right =
    is_valid_key p left && is_valid_key p right && keys_match left right

-- discoveryCacheEntryUsable
unfoldable pub discovery_cache_entry_usable : Platform → Decoder → Entry → Key → ℕ → ℕ → Bool
discovery_cache_entry_usable p decode e k now ttl_ms =
    discovery_cache_key_matches p e.key k
    && is_valid_discovery decode e.discovery e.key
    && (discovery_cache_freshness e.cached_at now ttl_ms).within_ttl

-- validateEntry
unfoldable pub validate_entry : Platform → Decoder → Entry → Bool
validate_entry p decode e = is_valid_key p e.key && is_valid_discovery decode e.discovery e.key

-- serializeEntry, its date written
abbrev pub entry_fields : String → Entry → Fields
entry_fields date e = field "schema_version" (str "ceal.client_discovery_cache.v1") (
    field "gateway_endpoint" (str e.key.gateway_endpoint) (
      field "profile_ref" (str e.key.profile_ref) (
        field "membership_ref" (str e.key.membership_ref) (
          field "negotiated_protocol_version" (str e.key.negotiated_protocol_version)
            (field "cached_at" (str date) (field "discovery" e.discovery end))))))

-- The content that writeCacheEntry writes; none where it throws.
unfoldable pub write_cache_entry : Platform → Decoder → Entry → Option Json
write_cache_entry p decode e =
    if validate_entry p decode e
    then (elim (p.format_date e.cached_at) [
      | none ↦ none
      | some date ↦ some (obj (entry_fields date e))
    ])
    else none

abbrev pub checked : Platform → Decoder → Entry → Option Entry
checked p decode e = if validate_entry p decode e then some e else none

infixl 5 ◌>>=◌
abbrev pub ◌>>=◌ : {A B : Type 0} → Option A → (A → Option B) → Option B
none >>= f = none
some a >>= f = f a

-- parseCacheEntry on a record of the schema: every key a text, and then a valid entry. The decoder
-- refuses a discovery that is absent.
unfoldable pub parse_fields : Platform → Decoder → Fields → Option Entry
parse_fields p decode fs = do
  endpoint ← as_text (get "gateway_endpoint" fs)
  profile ← as_text (get "profile_ref" fs)
  membership ← as_text (get "membership_ref" fs)
  protocol ← as_text (get "negotiated_protocol_version" fs)
  date ← as_text (get "cached_at" fs)
  time ← p.parse_date date
  discovery ← get "discovery" fs
  checked p decode record {
    key = record {
      gateway_endpoint = endpoint;
      profile_ref = profile;
      membership_ref = membership;
      negotiated_protocol_version = protocol;
    };
    cached_at = time;
    discovery = discovery;
  }

-- parseCacheEntry
unfoldable pub parse_cache_entry : Platform → Decoder → Json → Option Entry
parse_cache_entry p decode (obj fs) = do
  schema ← as_text (get "schema_version" fs)
  if str_eq schema "ceal.client_discovery_cache.v1" then parse_fields p decode fs else none
parse_cache_entry p decode _ = none
