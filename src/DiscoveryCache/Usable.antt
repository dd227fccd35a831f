-- ===== src/DiscoveryCache/Usable.antt =====
-- When a cached discovery serves a request.
use ceal_cli.Base.{ℕ, ◌+◌, ◌≤◌, ◌<◌, true, ◌≡◌, refl, subst, arith, eq_iff, eq_refl, ◌↔◌}
use ceal_cli.Platform.{Platform}
use ceal_cli.DiscoveryCache.{
  Decoder, Key, Entry, max_safe_integer, keys_match, validate_entry, discovery_cache_freshness,
  discovery_cache_key_matches, discovery_cache_entry_usable,
}

-- The freshness that an operator is shown is the one that serves: within the time to live exactly
-- when the entry is not from the future and its age is below the limit.
pub freshness-window :
    (cached_at now ttl_ms : ℕ)
    → ((discovery_cache_freshness cached_at now ttl_ms).within_ttl ≡ true)
      ↔ ((ttl_ms ≤ max_safe_integer) × (cached_at ≤ now) × (now < cached_at + ttl_ms))
unfolding discovery_cache_freshness
freshness-window cached_at now ttl_ms = ground arith

keys_match-same : (a b : Key) → keys_match a b ≡ true → a ≡ b
keys_match-same a b h =
    let e : a.gateway_endpoint ≡ b.gateway_endpoint =
      (eq_iff a.gateway_endpoint b.gateway_endpoint).0 (ground arith) in
    let f : a.profile_ref ≡ b.profile_ref = (eq_iff a.profile_ref b.profile_ref).0 (ground arith) in
    let g : a.membership_ref ≡ b.membership_ref =
      (eq_iff a.membership_ref b.membership_ref).0 (ground arith) in
    let v : a.negotiated_protocol_version ≡ b.negotiated_protocol_version =
      (eq_iff a.negotiated_protocol_version b.negotiated_protocol_version).0 (ground arith) in
    λ i. record {
      gateway_endpoint = e i;
      profile_ref = f i;
      membership_ref = g i;
      negotiated_protocol_version = v i;
    }

keys_match_refl : (a : Key) → keys_match a a ≡ true
keys_match_refl a =
    rw
      (
        eq_refl a.gateway_endpoint,
        eq_refl a.profile_ref,
        eq_refl a.membership_ref,
        eq_refl a.negotiated_protocol_version,
      )
      refl

-- An entry serves a request exactly if it has the request's key, is one that the cache would write,
-- is not from the future, and is younger than the time to live, which is a safe integer.
pub usable_sound :
    (p : Platform) (decode : Decoder) (e : Entry) (k : Key) (now ttl_ms : ℕ)
    → (discovery_cache_entry_usable p decode e k now ttl_ms ≡ true) ↔ (
        (e.key ≡ k)
        × (validate_entry p decode e ≡ true)
        × (ttl_ms ≤ max_safe_integer)
        × (e.cached_at ≤ now)
        × (now < e.cached_at + ttl_ms))
unfolding discovery_cache_entry_usable discovery_cache_key_matches validate_entry
usable_sound p decode e k now ttl_ms =
    let fresh = freshness-window e.cached_at now ttl_ms in
    (
      λ h.
          let (a, b, c) = fresh.0 (ground arith) in
          (keys_match-same e.key k (ground arith), ground arith, a, b, c),
      λ (same, valid, a, b, c).
          let t : (discovery_cache_freshness e.cached_at now ttl_ms).within_ttl ≡ true =
            fresh.1 (a, b, c) in
          let q : keys_match e.key e.key ≡ true = keys_match_refl e.key in
          subst (λ (x : Key). discovery_cache_entry_usable p decode e x now ttl_ms ≡ true) same
            (ground arith),
    )
