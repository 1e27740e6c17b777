-- ===== src/Ipc/Replies/Sanitized.antt =====
-- `error_message` of crates/core-ipc/src/lib.rs keeps internals from the client.
use keyro_core.Common.{String, ◌≡◌, refl, Option}
use keyro_core.Domain.Errors.{empty_profile_name}
use keyro_core.App.Errors.{AppError}
use keyro_core.Ipc.Replies.{error_message}

-- The error without what it carries: paths, URLs, SQL texts, validation details.
abbrev pub erase : AppError → AppError
erase (AppError.domain _) = AppError.domain empty_profile_name
erase (AppError.open_url _) = AppError.open_url (record { message = "" })
erase (AppError.storage _) = AppError.storage ""
erase (AppError.event_sink _) = AppError.event_sink ""
erase e = e

-- The reply to a failed command depends only on the kind of the error, and not on what it carries.
pub error_message-erase :
    (request_id : Option String) (e : AppError)
    → error_message request_id (erase e) ≡ error_message request_id e
unfolding error_message
error_message-erase request_id (AppError.domain e) = refl
error_message-erase request_id e = refl
