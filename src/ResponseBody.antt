-- ===== src/ResponseBody.antt =====
-- packages/ceal-client/src/request-bounds.ts: the bounded reading of a response body. `Number` on a
-- header is the platform's: a parameter that returns the value where it is a safe integer that is
-- not negative.
pub mod Reading
use ceal_cli.Base.{
  ℕ, zero, suc, ◌+◌, ◌*◌, ◌-◌, String, List, [], ◌∷◌, ◌++◌, length, take, drop, all, codes,
  is_digit, Option, none, some, Bool, true, false, not, ltb, leb, if◌then◌else◌, ◌&&◌,
}
use ceal_cli.Base.Outcome.{Outcome, ok, err, ◌>>=◌}

-- DeclaredLengthRule
pub data DeclaredLengthRule : Type 0 where
  digits safe_integer : DeclaredLengthRule

-- How a read ends: refuseMalformed, refuseTooLarge, or an error of the stream.
pub data Refusal : Type 0 where
  malformed too_large stream_error : Refusal

-- What one `reader.read()` gives before the stream is done.
pub data Read : Type 0 where
  chunk : List ℕ → Read
  no_value : Read
  failed : Read

abbrev pub decimal : ℕ → List ℕ → ℕ
decimal n [] = n
decimal n (c ∷ cs) = decimal (n * 10 + (c - b'0')) cs

abbrev pub bounded : ℕ → ℕ → Outcome Refusal (Unit {0})
bounded maximum n = if ltb maximum n then err too_large else ok tt

abbrev pub is_digits : List ℕ → Bool
is_digits [] = false
is_digits (c ∷ cs) = is_digit c && all is_digit cs

module _ (safe_integer_of : String → Option ℕ) where
  -- The check of the declared length, before the first read.
  unfoldable pub check_declared :
      DeclaredLengthRule → ℕ → Option String → Outcome Refusal (Unit {0})
  check_declared rule maximum none = ok tt
  check_declared digits maximum (some declared) =
      if not (is_digits (codes declared))
      then err malformed
      else bounded maximum (decimal 0 (codes declared))
  check_declared safe_integer maximum (some declared) = elim (safe_integer_of declared) [
    | none ↦ err malformed
    | some n ↦ bounded maximum n
  ]

-- new Uint8Array(n)
abbrev pub zeros : ℕ → List ℕ
zeros zero = []
zeros (suc n) = 0 ∷ zeros n

-- result.set(chunk, offset)
abbrev pub set : List ℕ → List ℕ → ℕ → List ℕ
set result c offset = take offset result ++ c ++ drop (offset + length c) result

abbrev pub set_all : List ℕ → ℕ → List (List ℕ) → List ℕ
set_all result offset [] = result
set_all result offset (c ∷ cs) = set_all (set result c offset) (offset + length c) cs

-- mergeChunks
unfoldable pub merge_chunks : List (List ℕ) → ℕ → List ℕ
merge_chunks chunks total = set_all (zeros total) 0 chunks

-- The loop, with the chunks and the total so far.
unfoldable pub read_chunks : ℕ → List Read → List (List ℕ) → ℕ → Outcome Refusal (List ℕ)
read_chunks maximum [] chunks total = ok (merge_chunks chunks total)
read_chunks maximum (no_value ∷ rs) chunks total = read_chunks maximum rs chunks total
read_chunks maximum (failed ∷ rs) chunks total = err stream_error
read_chunks maximum (chunk c ∷ rs) chunks total =
    let rest = read_chunks maximum rs (chunks ++ c ∷ []) (total + length c) in
    if ltb maximum (total + length c) then err too_large else rest

abbrev pub read_body : ℕ → Option (List Read) → Outcome Refusal (List ℕ)
read_body maximum none = err malformed
read_body maximum (some rs) = read_chunks maximum rs [] 0

-- readBoundedResponseBody
unfoldable pub read_bounded_response_body :
    (String → Option ℕ)
    → ℕ
    → DeclaredLengthRule
    → Option String
    → Option (List Read)
    → Outcome Refusal (List ℕ)
read_bounded_response_body safe_integer_of maximum rule declared body =
    check_declared safe_integer_of rule maximum declared >>= λ _. read_body maximum body

-- CEAL_MAX_CONFIGURED_TIMEOUT_MS
abbrev pub max_configured_timeout_ms : ℕ
max_configured_timeout_ms = 120_000

-- isConfigurableTimeoutMs, on a natural number
abbrev pub is_configurable_timeout_ms : ℕ → Bool
is_configurable_timeout_ms n = leb 1 n && leb n max_configured_timeout_ms

-- resolveRequestBounds: the timeout, or none where `refuse` is called. The first argument is
-- whether the configured or global `fetch` is a function.
unfoldable pub resolve_request_bounds : Bool → Option ℕ → ℕ → Option ℕ
resolve_request_bounds has_fetch timeout_ms default_timeout_ms =
    let chosen : ℕ = elim timeout_ms [ none ↦ default_timeout_ms | some n ↦ n ] in
    if has_fetch && is_configurable_timeout_ms chosen then some chosen else none
