-- ===== src/Endpoint/Agree.antt =====
-- The endpoint rule of the CLI and the one of the client library.
use ceal_cli.Base.{
  String, Option, none, some, Bool, true, false, str_eq, eq_iff, ◌≡◌, refl, arith, inl, inr,
  Bool-cases, Option-cases,
}
use ceal_cli.Endpoint.{Url, is_safe_endpoint, resolve_safe_http_endpoint}

abbrev pub is_some : {A : Type 0} → Option A → Bool
is_some none = false
is_some (some a) = true

https-not_http : (s : String) → str_eq s "https:" ≡ true → str_eq s "http:" ≡ false
https-not_http s h = let e : s ≡ "https:" = (eq_iff s "https:").0 h in rw e refl

-- The CLI accepts a text as an endpoint exactly when the client library resolves it.
pub endpoint_rules_agree :
    (parse_url : String → Option Url) (value : String)
    → is_safe_endpoint parse_url value ≡ is_some (resolve_safe_http_endpoint parse_url value)
unfolding is_safe_endpoint resolve_safe_http_endpoint
endpoint_rules_agree parse_url value = elim (Option-cases (parse_url value)) [
  | inl e ↦ rw (e, is_safe_endpoint, resolve_safe_http_endpoint) refl
  | inr (u, e) ↦ elim (Bool-cases (str_eq u.protocol "https:")) [
    | inl s ↦
        let plain : str_eq u.protocol "http:" ≡ false = https-not_http u.protocol s in ground arith
    | inr s ↦ ground arith
  ]
]
