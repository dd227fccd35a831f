-- ===== src/Endpoint.antt =====
-- packages/ceal-worker-cli/src/safe-endpoint.ts and the endpoint rule of
-- packages/ceal-client/src/request-bounds.ts. `new URL` is the platform's: a parameter that
-- returns the parts of a URL, or none where it throws.
pub mod Agree
use ceal_cli.Base.{
  ℕ, ◌+◌, String, List, [], ◌∷◌, map, Option, none, some, Bool, true, false, not, ◌&&◌, ◌||◌, ◌==◌,
  str_eq, codes, is_upper, if◌then◌else◌, ◌≡◌, refl, arith,
}
use ceal_cli.Base.Json.{Json, str}

-- The parts of a parsed URL that the code reads. A part that is absent is the empty text.
pub record Url : Type 0 where
  pub protocol : String
  pub username : String
  pub password : String
  pub hostname : String
  pub pathname : String
  pub search : String
  pub hash : String

abbrev pub same_codes : List ℕ → List ℕ → Bool
same_codes [] [] = true
same_codes [] (d ∷ ds) = false
same_codes (c ∷ cs) [] = false
same_codes (c ∷ cs) (d ∷ ds) = c == d && same_codes cs ds

to_lower : ℕ → ℕ
to_lower c = if is_upper c then c + 32 else c

-- .replace(/^\[|\]$/gu, "")
drop_open : List ℕ → List ℕ
drop_open [] = []
drop_open (c ∷ cs) = if c == b'[' then cs else c ∷ cs

drop_close : List ℕ → List ℕ
drop_close [] = []
drop_close (c ∷ []) = if c == b']' then [] else c ∷ []
drop_close (c ∷ d ∷ cs) = c ∷ drop_close (d ∷ cs)

pub host : Url → List ℕ
unfolding to_lower drop_open drop_close
host u = drop_close (drop_open (map to_lower (codes u.hostname)))

pub is_loopback : List ℕ → Bool
is_loopback h = same_codes h (codes "127.0.0.1") || same_codes h (codes "::1")

abbrev pub is_empty : String → Bool
is_empty s = str_eq s ""

module _ (parse_url : String → Option Url) where
  -- isCealSafeEndpoint, on a text
  unfoldable pub is_safe_endpoint : String → Bool
  is_safe_endpoint value = elim (parse_url value) [
    | none ↦ false
    | some u ↦
        is_empty u.username
        && is_empty u.password
        && is_empty u.search
        && is_empty u.hash
        && (str_eq u.protocol "https:" || (str_eq u.protocol "http:" && is_loopback (host u)))
  ]

  -- isCealSafeEndpoint, on an unknown value
  unfoldable pub is_ceal_safe_endpoint : Option Json → Bool
  unfolding is_safe_endpoint
  is_ceal_safe_endpoint (some (str s)) = is_safe_endpoint s
  is_ceal_safe_endpoint _ = false

  -- resolveSafeHttpEndpoint: the URL, or none where `refuse` is called
  unfoldable pub resolve_safe_http_endpoint : String → Option Url
  resolve_safe_http_endpoint value = elim (parse_url value) [
    | none ↦ none
    | some u ↦
        if not (is_empty u.username)
          || not (is_empty u.password)
          || not (is_empty u.search)
          || not (is_empty u.hash)
          || (str_eq u.protocol "http:" && not (is_loopback (host u)))
          || (not (str_eq u.protocol "http:") && not (str_eq u.protocol "https:"))
        then none
        else some u
  ]
