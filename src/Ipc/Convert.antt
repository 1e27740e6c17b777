-- ===== src/Ipc/Convert.antt =====
-- The conversions of crates/core-ipc/src/lib.rs between protocol and domain values.
pub mod RoundTrip
use keyro_core.Common.{ℕ, String, List, map, Result, ok, err, map_err, ◌>>=◌, ltb, if◌then◌else◌}
use keyro_core.Domain.Ids.{UuidCrate, parse_profile_id, profile_id_text}
use keyro_core.Domain.Layout.{EncoderOperation, ControlId, new_key, new_encoder}
use keyro_core.Domain.Urls.{UrlCrate, parse_safe_url}
use keyro_core.Domain.Profiles.{Profile}
use keyro_core.Domain.Assignments.{Action, Assignment, single}
use keyro_core.App.Model.{ActionFailure, DeviceLayout, SnapshotAssignment}
use keyro_core.Protocol.Messages.{
  EncoderOperationDto, ControlDto, ActionDto, AssignmentDto, ProfileDto, DeviceLayoutDto,
  SnapshotAssignmentDto, ActionFailureCode,
}
use keyro_core.Ipc.Errors.{IpcError, domain, index_out_of_range}

-- `u8::try_from` on a `u16`.
unfoldable pub u8_index : String → ℕ → Result IpcError ℕ
u8_index field value = if ltb value 256 then ok value else err (index_out_of_range field value)

unfoldable pub encoder_operation_from_dto : EncoderOperationDto → EncoderOperation
encoder_operation_from_dto EncoderOperationDto.left = EncoderOperation.left
encoder_operation_from_dto EncoderOperationDto.right = EncoderOperation.right
encoder_operation_from_dto EncoderOperationDto.press = EncoderOperation.press

unfoldable pub encoder_operation_to_dto : EncoderOperation → EncoderOperationDto
encoder_operation_to_dto EncoderOperation.left = EncoderOperationDto.left
encoder_operation_to_dto EncoderOperation.right = EncoderOperationDto.right
encoder_operation_to_dto EncoderOperation.press = EncoderOperationDto.press

unfoldable pub control_from_dto : ControlDto → Result IpcError ControlId
unfolding u8_index encoder_operation_from_dto new_key new_encoder
control_from_dto (ControlDto.key page key) = do
  page ← u8_index "page" page
  key ← u8_index "key" key
  map_err domain (new_key page key)
control_from_dto (ControlDto.encoder page encoder operation) = do
  page ← u8_index "page" page
  encoder ← u8_index "encoder" encoder
  map_err domain (new_encoder page encoder (encoder_operation_from_dto operation))

unfoldable pub control_to_dto : ControlId → ControlDto
unfolding encoder_operation_to_dto
control_to_dto (ControlId.key page key) = ControlDto.key page.get key.get
control_to_dto (ControlId.encoder page encoder operation) =
    ControlDto.encoder page.get encoder.get (encoder_operation_to_dto operation)

unfoldable pub layout_to_dto : DeviceLayout → DeviceLayoutDto
layout_to_dto layout = record {
  page_count = layout.page_count;
  key_rows = layout.key_rows;
  key_columns = layout.key_columns;
  encoder_count = layout.encoder_count;
}

unfoldable pub action_to_dto : Action → ActionDto
action_to_dto (Action.open_url url) = ActionDto.open_url url.as_str

unfoldable pub action_failure_to_dto : ActionFailure → ActionFailureCode
action_failure_to_dto ActionFailure.open_url_failed = ActionFailureCode.open_url_failed

module _ ⦃url : UrlCrate⦄ where
  unfoldable pub action_from_dto : ActionDto → Result IpcError Action
  unfolding parse_safe_url
  action_from_dto (ActionDto.open_url text) = do
    safe ← map_err domain (parse_safe_url text)
    ok (Action.open_url safe)

module _ ⦃uuid : UuidCrate⦄ where
  unfoldable pub profile_to_dto : Profile → ProfileDto
  unfolding profile_id_text
  profile_to_dto profile = record {
    id = profile_id_text profile.id;
    name = profile.name;
    is_active = profile.is_active;
  }

  unfoldable pub snapshot_assignment_to_dto : SnapshotAssignment → SnapshotAssignmentDto
  unfolding profile_id_text control_to_dto action_to_dto
  snapshot_assignment_to_dto assignment = record {
    profile_id = profile_id_text assignment.profile_id;
    control = control_to_dto assignment.control;
    actions = map action_to_dto assignment.actions;
  }

module _ ⦃uuid : UuidCrate⦄ ⦃url : UrlCrate⦄ where
  unfoldable pub assignment_from_dto : AssignmentDto → Result IpcError Assignment
  unfolding parse_profile_id control_from_dto action_from_dto single
  assignment_from_dto assignment = do
    profile_id ← map_err domain (parse_profile_id assignment.profile_id)
    control ← control_from_dto assignment.control
    action ← action_from_dto assignment.action
    map_err domain (single profile_id control action)
