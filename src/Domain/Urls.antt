-- ===== src/Domain/Urls.antt =====
-- `SafeUrl` of crates/core-domain/src/lib.rs, over the url crate.
pub mod Safety
use keyro_core.Common.{
  ℕ, String, str_eq, Bool, true, false, not, ◌||◌, Option, none, some, Result, ok, err, ok_or,
  ◌>>=◌, if◌then◌else◌,
}
use keyro_core.Common.Text.{is_empty}
use keyro_core.Domain.Errors.{
  DomainError, invalid_url, unsupported_url_scheme, url_credentials_not_allowed,
}

-- `Url` of the url crate: what the program calls of it. The error of `Url::parse` is dropped.
pub record UrlCrate : Type 1 where
  pub Url : Type 0
  pub parse : String → Option Url
  pub username : Url → String
  pub password : Url → Option String
  pub scheme : Url → String
  pub clear_query : Url → Url
  pub clear_fragment : Url → Url
  pub to_string : Url → String

-- `SafeUrl(String)`; `as_str` is its reader.
pub record SafeUrl : Type 0 where
  pub as_str : String

abbrev is_some : Option String → Bool
is_some none = false
is_some (some _) = true

-- The `match` on the scheme.
check_scheme : String → String → Result DomainError SafeUrl
check_scheme value scheme =
    if str_eq scheme "http" || str_eq scheme "https"
    then ok (record { as_str = value })
    else err (unsupported_url_scheme scheme)

module _ ⦃url : UrlCrate⦄ where
  has_credentials : url.Url → Bool
  has_credentials parsed = not (is_empty (url.username parsed)) || is_some (url.password parsed)

  -- `SafeUrl::parse`
  unfoldable pub parse_safe_url : String → Result DomainError SafeUrl
  unfolding check_scheme has_credentials
  parse_safe_url value = do
    parsed ← ok_or (url.parse value) (invalid_url value)
    if has_credentials parsed
        then err url_credentials_not_allowed
        else check_scheme value (url.scheme parsed)

  redacted : Option url.Url → String
  redacted (some parsed) = url.to_string (url.clear_fragment (url.clear_query parsed))
  redacted none = "<invalid-url>"

  -- `SafeUrl::redacted_for_log`
  unfoldable pub redacted_for_log : SafeUrl → String
  unfolding redacted
  redacted_for_log u = redacted (url.parse u.as_str)
