-- ===== src/Platform.antt =====
-- What the session store reads of the JavaScript platform: `new URL`, `Date.parse` and
-- `toISOString`. Times are milliseconds since the epoch; earlier ones are not modelled.
use ceal_cli.Base.{ℕ, String, Option, some, ◌≡◌}
use ceal_cli.Endpoint.{Url}

pub record Platform : Type 0 where
  -- none where `new URL` throws
  pub parse_url : String → Option Url
  -- milliseconds since the epoch; none is NaN
  pub parse_date : String → Option ℕ
  -- `new Date(t).toISOString()`; none where it throws
  pub format_date : ℕ → Option String

-- A date that was formatted reads back as the same millisecond.
abbrev pub DatesRoundTrip : Platform → Type 0
DatesRoundTrip p = (t : ℕ) (s : String) → p.format_date t ≡ some s → p.parse_date s ≡ some t
