-- ===== src/Domain/Urls/Safety.antt =====
-- What a `SafeUrl` guarantees: `SafeUrl::parse` of crates/core-domain/src/lib.rs.
use keyro_core.Common.{
  String, eq_iff, ◌≡◌, ◌↔◌, ◌⊎◌, inl, inr, true, none, some, Option-cases, arith, ok,
}
use keyro_core.Common.Text.{is_empty}
use keyro_core.Domain.Urls.{UrlCrate, SafeUrl, parse_safe_url}

module _ ⦃url : UrlCrate⦄ where
  -- The text parses as a URL with no user name, no password and an http or https scheme.
  abbrev pub IsWeb : String → Type 0
  IsWeb text =
      (u : url.Url) × (url.parse text ≡ some u)
      × (is_empty (url.username u) ≡ true)
      × (url.password u ≡ none)
      × ((url.scheme u ≡ "http") ⊎ (url.scheme u ≡ "https"))

  -- `SafeUrl::parse` accepts exactly the web URLs.
  pub parse_safe_url_iff :
      (text : String) → (parse_safe_url text ≡ ok (record { as_str = text })) ↔ IsWeb text
  unfolding parse_safe_url
  parse_safe_url_iff text = (
    λ h. elim (Option-cases (url.parse text)) [
      | inl e ↦ absurd (ground arith)
      | inr (u, e) ↦ (
        u,
        e,
        ground arith,
        ground arith,
        ground (arith, eq_iff (url.scheme u) "http", eq_iff (url.scheme u) "https"),
      )
    ],
    λ (u, e, name, password, scheme).
        ground (arith, eq_iff (url.scheme u) "http", eq_iff (url.scheme u) "https"),
  )

  -- An accepted URL is kept as it was written.
  pub parse_safe_url-text :
      (text : String) (s : SafeUrl) → parse_safe_url text ≡ ok s → s ≡ record { as_str = text }
  unfolding parse_safe_url
  parse_safe_url-text text s h = ground arith
