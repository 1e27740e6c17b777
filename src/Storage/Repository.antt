-- ===== src/Storage/Repository.antt =====
-- `SqliteProfileRepository` of crates/core-storage-sqlite/src/lib.rs. The mutex makes each method
-- one step on the database, but for `rename_profile`, which locks twice.
use keyro_core.Common.{
  ℕ, suc, pos, String, Bool, true, false, not, List, [], ◌∷◌, Option, none, some, ok, err, map_err,
  ok_or, find, ◌==◌, if◌then◌else◌,
}
use keyro_core.Common.Exec.{lift, pure, ◌>>=◌, ◌>>◌}
use keyro_core.Domain.Ids.{UuidCrate, ProfileId, profile_id_text}
use keyro_core.Domain.Layout.{ControlId}
use keyro_core.Domain.Urls.{UrlCrate}
use keyro_core.Domain.Profiles.{Profile, new_profile, rename}
use keyro_core.Domain.Assignments.{Action, Assignment}
use keyro_core.App.Errors.{AppError, domain, profile_not_found, active_profile_missing}
use keyro_core.App.Ports.{ProfileRepository}
use keyro_core.Storage.Database.{
  AssignmentRow, Database, RusqliteCrate, Repo, run, new_v4, transaction,
}
use keyro_core.Storage.Statements.{
  insert_profile, update_name, deactivate_all, activate, delete_assignment, insert_assignment,
}
use keyro_core.Storage.Columns.{encode_control, encode_action}
use keyro_core.Storage.Queries.{
  list_profiles, load_active_profile, profile_exists, load_snapshot_state, find_assignment,
}

-- One row of the loop of `save_assignment`.
unfoldable pub row_of : ⦃uuid : UuidCrate⦄ → Assignment → ℕ → Action → AssignmentRow
unfolding encode_action
row_of assignment position action =
    let (kind, url) = encode_action action in
    record {
      profile_id = profile_id_text assignment.profile_id;
      control = encode_control assignment.control;
      action_position = pos position;
      action_kind = kind;
      action_url = url;
    }

unfoldable pub has_profile_id : ProfileId → Profile → Bool
has_profile_id id profile = profile.id == id

-- `if !condition { return Err(error) }`
abbrev pub require : Bool → AppError → Repo (Unit {0})
require condition e db = (if condition then ok tt else err e, db)

module _ ⦃uuid : UuidCrate⦄ ⦃sql : RusqliteCrate⦄ where
  create_default : Option Profile → Repo Profile
  create_default (some profile) = pure profile
  create_default none = do
    fresh ← new_v4
    profile ← lift (map_err domain (new_profile fresh "Default" true))
    run (insert_profile (profile_id_text profile.id) profile.name (pos 1))
    pure profile

  unfoldable pub ensure_default_profile : Repo Profile
  unfolding create_default
  ensure_default_profile = do existing ← load_active_profile; create_default existing

  unfoldable pub create_profile : String → Repo Profile
  create_profile name = do
    fresh ← new_v4
    profile ← lift (map_err domain (new_profile fresh name false))
    run (insert_profile (profile_id_text profile.id) profile.name (pos 0))
    pure profile

  -- The part of `rename_profile` before its second lock.
  unfoldable pub renamed_profile : ProfileId → String → Repo Profile
  unfolding has_profile_id
  renamed_profile profile_id name = do
    profiles ← list_profiles
    profile ← lift (ok_or (find (has_profile_id profile_id) profiles) profile_not_found)
    lift (map_err domain (rename profile name))

  -- The part of `rename_profile` under its second lock.
  unfoldable pub store_name : ProfileId → Profile → Repo Profile
  store_name profile_id profile = do
    updated ← run (update_name profile.name (profile_id_text profile_id))
    require (updated == 1) profile_not_found
    pure profile

  unfoldable pub rename_profile : ProfileId → String → Repo Profile
  unfolding renamed_profile store_name
  rename_profile profile_id name = do
    profile ← renamed_profile profile_id name
    store_name profile_id profile

  unfoldable pub set_active_body : ProfileId → Repo (Unit {0})
  set_active_body profile_id = do
    exists ← profile_exists profile_id
    require exists profile_not_found
    updated ← run deactivate_all
    require (not (updated == 0)) active_profile_missing
    updated ← run (activate (profile_id_text profile_id))
    require (updated == 1) profile_not_found

  unfoldable pub set_active_profile : ProfileId → Repo (Unit {0})
  unfolding set_active_body
  set_active_profile profile_id = transaction (set_active_body profile_id)

  -- `for (position, action) in assignment.actions.iter().enumerate()`, from a position on.
  unfoldable pub insert_actions : Assignment → ℕ → List Action → Repo (Unit {0})
  insert_actions assignment position [] = pure tt
  insert_actions assignment position (action ∷ actions) = do
    run (insert_assignment (row_of assignment position action))
    insert_actions assignment (suc position) actions

  unfoldable pub save_body : Assignment → Repo (Unit {0})
  unfolding insert_actions
  save_body assignment = do
    exists ← profile_exists assignment.profile_id
    require exists profile_not_found
    run (
        delete_assignment (profile_id_text assignment.profile_id)
          (encode_control assignment.control))
    insert_actions assignment 0 assignment.actions

  unfoldable pub save_assignment : Assignment → Repo (Unit {0})
  unfolding save_body
  save_assignment assignment = transaction (save_body assignment)

  unfoldable pub clear_assignment : ProfileId → ControlId → Repo (Unit {0})
  clear_assignment profile_id control = do
    exists ← profile_exists profile_id
    require exists profile_not_found
    run (delete_assignment (profile_id_text profile_id) (encode_control control))

-- `impl ProfileRepository for SqliteProfileRepository`
module _ ⦃uuid : UuidCrate⦄ ⦃url : UrlCrate⦄ ⦃sql : RusqliteCrate⦄ where
  unfoldable pub sqlite_repository : ProfileRepository Database
  sqlite_repository = record {
    ensure_default_profile = ensure_default_profile;
    create_profile = create_profile;
    list_profiles = list_profiles;
    rename_profile = rename_profile;
    set_active_profile = set_active_profile;
    save_assignment = save_assignment;
    clear_assignment = clear_assignment;
    load_snapshot_state = load_snapshot_state;
    find_assignment = find_assignment;
  }
