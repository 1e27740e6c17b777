-- ===== src/Storage/Queries.antt =====
-- The read functions of crates/core-storage-sqlite/src/lib.rs.
use keyro_core.Common.{
  Bool, List, [], Option, none, some, map_err, try_map, first, is_empty, if◌then◌else◌,
}
use keyro_core.Common.Exec.{lift, pure, ◌>>=◌}
use keyro_core.Domain.Ids.{UuidCrate, ProfileId, profile_id_text}
use keyro_core.Domain.Layout.{ControlId}
use keyro_core.Domain.Urls.{UrlCrate}
use keyro_core.Domain.Profiles.{Profile}
use keyro_core.Domain.Assignments.{Action, Assignment}
use keyro_core.App.Model.{SnapshotState}
use keyro_core.Storage.Database.{RusqliteCrate, Repo, run, to_app_error}
use keyro_core.Storage.Statements.{
  select_profiles, select_active, select_exists, select_assignment, select_assignments,
}
use keyro_core.Storage.Columns.{encode_control}
use keyro_core.Storage.Rows.{profile_of_row, optional_profile, action_of_row, entry_of_row, gather}

module _ ⦃uuid : UuidCrate⦄ ⦃sql : RusqliteCrate⦄ where
  -- `list_profiles`, and `list_profiles_locked`, which has the same body.
  unfoldable pub list_profiles : Repo (List Profile)
  list_profiles = do
    rows ← run select_profiles
    lift (map_err to_app_error (try_map profile_of_row rows))

  unfoldable pub load_active_profile : Repo (Option Profile)
  load_active_profile = do
    rows ← run select_active
    lift (map_err to_app_error (optional_profile (first rows)))

  unfoldable pub profile_exists : ProfileId → Repo Bool
  profile_exists profile_id = run (select_exists (profile_id_text profile_id))

module _ ⦃uuid : UuidCrate⦄ ⦃url : UrlCrate⦄ ⦃sql : RusqliteCrate⦄ where
  -- `list_assignments_locked`
  unfoldable pub list_assignments : Repo (List Assignment)
  list_assignments = do
    rows ← run select_assignments
    entries ← lift (map_err to_app_error (try_map entry_of_row rows))
    pure (gather [] entries)

  unfoldable pub load_snapshot_state : Repo SnapshotState
  load_snapshot_state = do
    profiles ← list_profiles
    assignments ← list_assignments
    pure (record { profiles = profiles; assignments = assignments })

  -- No rows are no assignment.
  unfoldable pub found : ProfileId → ControlId → List Action → Option Assignment
  found profile_id control actions =
      if is_empty actions
      then none
      else some (record { profile_id = profile_id; control = control; actions = actions })

  unfoldable pub find_assignment : ProfileId → ControlId → Repo (Option Assignment)
  unfolding found
  find_assignment profile_id control = do
    rows ← run (select_assignment (profile_id_text profile_id) (encode_control control))
    actions ← lift (map_err to_app_error (try_map action_of_row rows))
    pure (found profile_id control actions)
