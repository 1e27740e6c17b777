-- ===== src/Domain/Errors.antt =====
-- `DomainError` of crates/core-domain/src/lib.rs, and its `Display` text.
use Prim.Native.String.{◌++◌}
use keyro_core.Common.{ℕ, String}
use keyro_core.Common.Decimal.{decimal}

pub data DomainError : Type 0 where
  empty_profile_name : DomainError
  invalid_profile_id : String → DomainError
  invalid_page_index invalid_key_index invalid_encoder_index : ℕ → DomainError
  invalid_url unsupported_url_scheme : String → DomainError
  url_credentials_not_allowed : DomainError
  active_profile_invariant : ℕ → DomainError

-- The `#[error(...)]` formats.
unfoldable pub domain_error_text : DomainError → String
unfolding decimal
domain_error_text empty_profile_name = "profile name cannot be empty"
domain_error_text (invalid_profile_id id) = "invalid profile id: " ++ id
domain_error_text (invalid_page_index v) =
    "page index " ++ decimal v ++ " is outside the supported range 0..4"
domain_error_text (invalid_key_index v) =
    "key index " ++ decimal v ++ " is outside the supported range 0..12"
domain_error_text (invalid_encoder_index v) =
    "encoder index " ++ decimal v ++ " is outside the supported range 0..2"
domain_error_text (invalid_url url) = "invalid url: " ++ url
domain_error_text (unsupported_url_scheme scheme) = "unsupported url scheme: " ++ scheme
domain_error_text url_credentials_not_allowed = "url credentials are not allowed"
domain_error_text (active_profile_invariant n) =
    "expected exactly one active profile, found " ++ decimal n
