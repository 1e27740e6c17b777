-- ===== src/App/Model.antt =====
-- The commands, responses, events and snapshots of crates/core-app/src/lib.rs.
use keyro_core.Common.{ℕ, String, List}
use keyro_core.Domain.Ids.{Uuid, ProfileId}
use keyro_core.Domain.Layout.{ControlId, page_count, key_rows, key_columns, encoders_per_page}
use keyro_core.Domain.Profiles.{Profile}
use keyro_core.Domain.Assignments.{Action, Assignment}

pub data CoreCommand : Type 0 where
  get_snapshot list_profiles : CoreCommand
  create_profile : String → CoreCommand
  rename_profile : ProfileId → String → CoreCommand
  set_active_profile : ProfileId → CoreCommand
  save_assignment : Assignment → CoreCommand
  clear_assignment : ProfileId → ControlId → CoreCommand
  virtual_control_input : ControlId → CoreCommand

-- `SnapshotAssignment`
pub record SnapshotAssignment : Type 0 where
  pub profile_id : ProfileId
  pub control : ControlId
  pub actions : List Action

-- `SnapshotState`, what the repository answers.
pub record SnapshotState : Type 0 where
  pub profiles : List Profile
  pub assignments : List Assignment

pub record DeviceLayout : Type 0 where
  pub page_count : ℕ
  pub key_rows : ℕ
  pub key_columns : ℕ
  pub encoder_count : ℕ

abbrev pub mvp_device_layout : DeviceLayout
mvp_device_layout = record {
  page_count = page_count;
  key_rows = key_rows;
  key_columns = key_columns;
  encoder_count = encoders_per_page;
}

pub record CoreSnapshot : Type 0 where
  pub layout : DeviceLayout
  pub profiles : List Profile
  pub assignments : List SnapshotAssignment

pub data CoreResponse : Type 0 where
  snapshot : CoreSnapshot → CoreResponse
  profiles : List Profile → CoreResponse
  profile : Profile → CoreResponse
  acknowledged : CoreResponse

-- The newtype `ActionRunId(Uuid)`.
abbrev pub ActionRunId : Type 0
ActionRunId = Uuid

pub data ActionFailure : Type 0 where
  open_url_failed : ActionFailure

pub data CoreEvent : Type 0 where
  action_running : ActionRunId → ProfileId → ControlId → CoreEvent
  action_succeeded : ActionRunId → CoreEvent
  action_failed : ActionRunId → ActionFailure → String → CoreEvent
