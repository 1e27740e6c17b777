-- ===== src/Protocol/Messages.antt =====
-- The message types of crates/core-protocol/src/lib.rs. A `u16` is a number below 65536.
use keyro_core.Common.{ℕ, String, Bool, ◌&&◌, List, Option, ◌==◌}

pub record ProtocolVersion : Type 0 where
  pub major : ℕ
  pub minor : ℕ

abbrev pub protocol_major : ℕ
protocol_major = 0

abbrev pub protocol_minor : ℕ
protocol_minor = 3

-- `ProtocolVersion::current`
abbrev pub current : ProtocolVersion
current = record { major = protocol_major; minor = protocol_minor }

-- `ProtocolVersion::is_exactly`
unfoldable pub is_exactly : ProtocolVersion → ProtocolVersion → Bool
is_exactly v other = v.major == other.major && v.minor == other.minor

pub data EncoderOperationDto : Type 0 where
  left right press : EncoderOperationDto

pub data ControlDto : Type 0 where
  key : ℕ → ℕ → ControlDto
  encoder : ℕ → ℕ → EncoderOperationDto → ControlDto

pub data ActionDto : Type 0 where
  open_url : String → ActionDto

pub record AssignmentDto : Type 0 where
  pub profile_id : String
  pub control : ControlDto
  pub action : ActionDto

pub data ClientComponent : Type 0 where
  studio : ClientComponent

pub record HandshakeMessage : Type 0 where
  pub component : ClientComponent
  pub component_version : String
  pub protocol : ProtocolVersion

-- `ClientMessage`; the fields of a variant's struct are the constructor's arguments, but for the
-- structs that are records above.
pub data ClientMessage : Type 0 where
  handshake : HandshakeMessage → ClientMessage
  get_snapshot list_profiles : ClientMessage
  create_profile : String → ClientMessage
  rename_profile : String → String → ClientMessage
  set_active_profile : String → ClientMessage
  save_assignment : AssignmentDto → ClientMessage
  clear_assignment : String → ControlDto → ClientMessage
  virtual_control_input : ControlDto → ClientMessage

pub record ClientEnvelope : Type 0 where
  pub request_id : String
  pub message : ClientMessage

pub record ProfileDto : Type 0 where
  pub id : String
  pub name : String
  pub is_active : Bool

pub record DeviceLayoutDto : Type 0 where
  pub page_count : ℕ
  pub key_rows : ℕ
  pub key_columns : ℕ
  pub encoder_count : ℕ

pub record SnapshotAssignmentDto : Type 0 where
  pub profile_id : String
  pub control : ControlDto
  pub actions : List ActionDto

pub data ActionFailureCode : Type 0 where
  open_url_failed no_action_assigned validation_failed internal : ActionFailureCode

pub data ActionEventDto : Type 0 where
  running : String → String → ControlDto → ActionEventDto
  succeeded : String → ActionEventDto
  failed : String → ActionFailureCode → String → ActionEventDto

pub data ErrorCode : Type 0 where
  incompatible_protocol unknown_message validation_failed not_found internal : ErrorCode

pub record ErrorDto : Type 0 where
  pub code : ErrorCode
  pub message : String

pub data ServerMessage : Type 0 where
  handshake_accepted : String → String → ProtocolVersion → ServerMessage
  profiles : String → List ProfileDto → ServerMessage
  profile : String → ProfileDto → ServerMessage
  snapshot : String → DeviceLayoutDto → List ProfileDto → List SnapshotAssignmentDto → ServerMessage
  acknowledged : String → ServerMessage
  action_event : ActionEventDto → ServerMessage
  error : Option String → ErrorDto → ServerMessage
