-- ===== src/App/Errors.antt =====
-- `AppError` and `OpenUrlError` of crates/core-app/src/lib.rs, and their `Display` texts.
use Prim.Native.String.{◌++◌}
use keyro_core.Common.{String}
use keyro_core.Domain.Errors.{DomainError, domain_error_text}

pub record OpenUrlError : Type 0 where
  pub message : String

pub data AppError : Type 0 where
  domain : DomainError → AppError
  open_url : OpenUrlError → AppError
  storage event_sink : String → AppError
  active_profile_missing profile_not_found assignment_not_found assignment_has_no_action : AppError

unfoldable pub app_error_text : AppError → String
unfolding domain_error_text
app_error_text (domain e) = domain_error_text e
app_error_text (open_url e) = e.message
app_error_text (storage text) = "storage error: " ++ text
app_error_text (event_sink text) = "event sink error: " ++ text
app_error_text active_profile_missing = "active profile is missing"
app_error_text profile_not_found = "profile was not found"
app_error_text assignment_not_found = "assignment was not found for the active profile and control"
app_error_text assignment_has_no_action = "assignment has no action"
