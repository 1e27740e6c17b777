-- ===== src/App/Ports.antt =====
-- The traits of crates/core-app/src/lib.rs as records of methods over a shared state `W`, and the
-- supply of version 4 UUIDs that the uuid crate draws at random.
use keyro_core.Common.{String, List, Option}
use keyro_core.Common.Exec.{Exec}
use keyro_core.Domain.Ids.{Uuid, ProfileId}
use keyro_core.Domain.Layout.{ControlId}
use keyro_core.Domain.Urls.{SafeUrl}
use keyro_core.Domain.Profiles.{Profile}
use keyro_core.Domain.Assignments.{Assignment}
use keyro_core.App.Errors.{AppError, OpenUrlError}
use keyro_core.App.Model.{CoreEvent, SnapshotState}

pub record ProfileRepository (W : Type 0) : Type 0 where
  pub ensure_default_profile : Exec W AppError Profile
  pub create_profile : String → Exec W AppError Profile
  pub list_profiles : Exec W AppError (List Profile)
  pub rename_profile : ProfileId → String → Exec W AppError Profile
  pub set_active_profile : ProfileId → Exec W AppError (Unit {0})
  pub save_assignment : Assignment → Exec W AppError (Unit {0})
  pub clear_assignment : ProfileId → ControlId → Exec W AppError (Unit {0})
  pub load_snapshot_state : Exec W AppError SnapshotState
  pub find_assignment : ProfileId → ControlId → Exec W AppError (Option Assignment)

pub record EventSink (W : Type 0) : Type 0 where
  pub emit : CoreEvent → Exec W AppError (Unit {0})

pub record UrlOpener (W : Type 0) : Type 0 where
  pub open_url : SafeUrl → Exec W OpenUrlError (Unit {0})

-- `Uuid::new_v4`
pub record UuidSource (W : Type 0) : Type 0 where
  pub new_v4 : Exec W AppError Uuid
