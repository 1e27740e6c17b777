-- ===== src/Ipc/Replies.antt =====
-- Replies of crates/core-ipc/src/lib.rs: Core responses, events and errors as server messages.
pub mod Sanitized
use keyro_core.Common.{
  String, List, map, Option, none, some, Result, ok, err, map_err, Bool, true, false, if◌then◌else◌,
}
use keyro_core.Common.Text
use keyro_core.Common.Text.{trim}
use keyro_core.Domain.Ids.{UuidCrate, profile_id_text}
use keyro_core.App.Errors.{AppError}
use keyro_core.App.Model.{CoreResponse, CoreEvent, action_running, action_succeeded, action_failed}
use keyro_core.Protocol.Messages.{
  ServerMessage, ActionEventDto, ErrorCode, ErrorDto, unknown_message, validation_failed, not_found,
}
use keyro_core.Protocol.Codec.{
  JsonCrate, ProtocolError, decode, encode, empty_request_id, protocol_error_text,
  encode_server_message,
}
use keyro_core.Ipc.Errors.{IpcError, protocol, ipc_error_text}
use keyro_core.Ipc.Errors
use keyro_core.Ipc.Convert.{
  control_to_dto, layout_to_dto, profile_to_dto, snapshot_assignment_to_dto, action_failure_to_dto,
}

module _ ⦃uuid : UuidCrate⦄ where
  unfoldable pub response_from_core : String → CoreResponse → ServerMessage
  unfolding layout_to_dto profile_to_dto snapshot_assignment_to_dto
  response_from_core request_id (CoreResponse.snapshot s) =
      ServerMessage.snapshot request_id (layout_to_dto s.layout) (map profile_to_dto s.profiles)
        (map snapshot_assignment_to_dto s.assignments)
  response_from_core request_id (CoreResponse.profiles ps) =
      ServerMessage.profiles request_id (map profile_to_dto ps)
  response_from_core request_id (CoreResponse.profile p) =
      ServerMessage.profile request_id (profile_to_dto p)
  response_from_core request_id CoreResponse.acknowledged = ServerMessage.acknowledged request_id

  -- `run_id.to_string()` is `Display for ActionRunId`, the UUID's.
  unfoldable pub event_from_core : CoreEvent → ServerMessage
  unfolding profile_id_text control_to_dto action_failure_to_dto
  event_from_core (action_running run_id profile_id control) = ServerMessage.action_event (
      ActionEventDto.running (uuid.to_string run_id) (profile_id_text profile_id)
        (control_to_dto control))
  event_from_core (action_succeeded run_id) =
      ServerMessage.action_event (ActionEventDto.succeeded (uuid.to_string run_id))
  event_from_core (action_failed run_id failure message) =
      ServerMessage.action_event
        (ActionEventDto.failed (uuid.to_string run_id) (action_failure_to_dto failure) message)

protocol_error_code : ProtocolError → ErrorCode
protocol_error_code (decode _) = unknown_message
protocol_error_code (encode _) = ErrorCode.internal
protocol_error_code empty_request_id = validation_failed

unfoldable pub protocol_error_message : Option String → ProtocolError → ServerMessage
unfolding protocol_error_code protocol_error_text
protocol_error_message request_id e =
    ServerMessage.error request_id
      (record { code = protocol_error_code e; message = protocol_error_text e })

ipc_error_code : IpcError → ErrorCode
unfolding protocol_error_code
ipc_error_code (protocol e) = protocol_error_code e
ipc_error_code (Errors.domain _) = validation_failed
ipc_error_code (Errors.index_out_of_range _ _) = validation_failed
ipc_error_code Errors.handshake_requires_session = validation_failed

unfoldable pub ipc_error_message : Option String → IpcError → ServerMessage
unfolding ipc_error_code ipc_error_text
ipc_error_message request_id e =
    ServerMessage.error request_id (record { code = ipc_error_code e; message = ipc_error_text e })

-- The code and the text that `error_message` gives an application error.
public_error : AppError → ErrorDto
public_error (AppError.domain _) = record {
  code = validation_failed;
  message = "validation failed";
}
public_error AppError.active_profile_missing = record {
  code = validation_failed;
  message = "validation failed";
}
public_error AppError.assignment_not_found = record {
  code = validation_failed;
  message = "validation failed";
}
public_error AppError.assignment_has_no_action = record {
  code = validation_failed;
  message = "validation failed";
}
public_error AppError.profile_not_found = record { code = not_found; message = "profile not found" }
public_error (AppError.open_url _) = record {
  code = ErrorCode.internal;
  message = "command failed";
}
public_error (AppError.storage _) = record { code = ErrorCode.internal; message = "command failed" }
public_error (AppError.event_sink _) = record {
  code = ErrorCode.internal;
  message = "command failed";
}

unfoldable pub error_message : Option String → AppError → ServerMessage
unfolding public_error
error_message request_id e = ServerMessage.error request_id (public_error e)

-- `filter(|request_id| !request_id.trim().is_empty())`
non_empty : Option String → Option String
unfolding trim
non_empty none = none
non_empty (some id) = if Text.is_empty (trim id) then none else some id

abbrev and_then {ℓ κ} : {A : Type ℓ} {B : Type κ} → Option A → (A → Option B) → Option B
and_then none f = none
and_then (some a) f = f a

abbrev to_option {ℓ κ} : {E : Type ℓ} {A : Type κ} → Result E A → Option A
to_option (ok a) = some a
to_option (err _) = none

module _ ⦃json : JsonCrate⦄ where
  unfoldable pub extract_request_id : String → Option String
  unfolding non_empty
  extract_request_id line = non_empty (
      and_then (to_option (json.value_from_str line))
        (λ value. and_then (json.get value "request_id") json.as_str))

  unfoldable pub encode_protocol_message : ServerMessage → Result IpcError String
  encode_protocol_message message = map_err protocol (encode_server_message message)
