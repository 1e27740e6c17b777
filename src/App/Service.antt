-- ===== src/App/Service.antt =====
-- `CoreService` of crates/core-app/src/lib.rs.
use keyro_core.Common.{List, map, Result, ok, err, map_err, ok_or, find}
use keyro_core.Common.Exec.{Exec, pure, raise, lift, attempt, ◌>>=◌, ◌>>◌}
use keyro_core.Common.Exec
use keyro_core.Domain.Ids.{ProfileId}
use keyro_core.Domain.Layout.{ControlId}
use keyro_core.Domain.Profiles.{Profile, ensure_exactly_one_active, active}
use keyro_core.Domain.Assignments.{Action, Assignment, first_action}
use keyro_core.App.Errors.{
  AppError, domain, active_profile_missing, assignment_not_found, assignment_has_no_action,
  app_error_text,
}
use keyro_core.App.Model.{
  CoreCommand, CoreResponse, SnapshotState, SnapshotAssignment, ActionRunId, mvp_device_layout,
  action_running, action_succeeded, action_failed, open_url_failed, acknowledged,
}
use keyro_core.App.Ports.{ProfileRepository, EventSink, UrlOpener, UuidSource}

-- The struct with its three type parameters as fields, and the UUID supply that it draws run ids
-- from.
pub record CoreService (W : Type 0) : Type 0 where
  pub repository : ProfileRepository W
  pub url_opener : UrlOpener W
  pub event_sink : EventSink W
  pub uuids : UuidSource W

to_snapshot : Assignment → SnapshotAssignment
to_snapshot a = record { profile_id = a.profile_id; control = a.control; actions = a.actions }

snapshot_of : SnapshotState → CoreResponse
unfolding to_snapshot
snapshot_of state = CoreResponse.snapshot (record {
  layout = mvp_device_layout;
  profiles = state.profiles;
  assignments = map to_snapshot state.assignments;
})

module _ {W : Type 0} (service : CoreService W) where
  open service use {repository, url_opener, event_sink, uuids}

  -- `ensure_exactly_one_active(..).map_err(AppError::Domain)?`
  unfoldable pub ensure_active : List Profile → Exec W AppError (Unit {0})
  ensure_active profiles = lift (map_err domain (ensure_exactly_one_active profiles))

  unfoldable pub initialize : Exec W AppError Profile
  unfolding ensure_active
  initialize = do
    profile ← repository.ensure_default_profile
    profiles ← repository.list_profiles
    ensure_active profiles
    pure profile

  unfoldable pub active_profile : Exec W AppError Profile
  unfolding ensure_active
  active_profile = do
    profiles ← repository.list_profiles
    ensure_active profiles
    lift (ok_or (find active profiles) active_profile_missing)

  unfoldable pub run_action : Action → Exec W AppError (Unit {0})
  run_action (Action.open_url url) = Exec.map_err AppError.open_url (url_opener.open_url url)

  -- The `match` on the result of the action.
  unfoldable pub report : ActionRunId → Result AppError (Unit {0}) → Exec W AppError (Unit {0})
  report run_id (ok _) = event_sink.emit (action_succeeded run_id)
  report run_id (err error) = do
    event_sink.emit (action_failed run_id open_url_failed (app_error_text error))
    raise error

  -- From the run id on.
  unfoldable pub run_assignment : ProfileId → ControlId → Action → Exec W AppError (Unit {0})
  unfolding run_action report
  run_assignment profile_id control action = do
    run_id ← uuids.new_v4
    event_sink.emit (action_running run_id profile_id control)
    result ← attempt (run_action action)
    report run_id result

  unfoldable pub route_virtual_control : ControlId → Exec W AppError (Unit {0})
  unfolding active_profile run_assignment first_action
  route_virtual_control control = do
    profile ← active_profile
    found ← repository.find_assignment profile.id control
    assignment ← lift (ok_or found assignment_not_found)
    action ← lift (ok_or (first_action assignment) assignment_has_no_action)
    run_assignment profile.id control action

  unfoldable pub handle_command : CoreCommand → Exec W AppError CoreResponse
  unfolding ensure_active snapshot_of route_virtual_control
  handle_command CoreCommand.get_snapshot = do
    state ← repository.load_snapshot_state
    ensure_active state.profiles
    pure (snapshot_of state)
  handle_command CoreCommand.list_profiles = do
    profiles ← repository.list_profiles
    ensure_active profiles
    pure (CoreResponse.profiles profiles)
  handle_command (CoreCommand.create_profile name) = do
    profile ← repository.create_profile name
    pure (CoreResponse.profile profile)
  handle_command (CoreCommand.rename_profile profile_id name) = do
    profile ← repository.rename_profile profile_id name
    pure (CoreResponse.profile profile)
  handle_command (CoreCommand.set_active_profile profile_id) = do
    repository.set_active_profile profile_id
    pure acknowledged
  handle_command (CoreCommand.save_assignment assignment) = do
    repository.save_assignment assignment
    pure acknowledged
  handle_command (CoreCommand.clear_assignment profile_id control) = do
    repository.clear_assignment profile_id control
    pure acknowledged
  handle_command (CoreCommand.virtual_control_input control) = do
    route_virtual_control control
    pure acknowledged
