-- ===== src/Ipc/Commands.antt =====
-- `command_from_message` of crates/core-ipc/src/lib.rs.
use keyro_core.Common.{Result, ok, err, map_err, ◌>>=◌}
use keyro_core.Domain.Ids.{UuidCrate, parse_profile_id}
use keyro_core.Domain.Urls.{UrlCrate}
use keyro_core.App.Model.{CoreCommand}
use keyro_core.Protocol.Messages.{ClientMessage}
use keyro_core.Ipc.Errors.{IpcError, domain, handshake_requires_session}
use keyro_core.Ipc.Convert.{control_from_dto, assignment_from_dto}

module _ ⦃uuid : UuidCrate⦄ ⦃url : UrlCrate⦄ where
  unfoldable pub command_from_message : ClientMessage → Result IpcError CoreCommand
  unfolding parse_profile_id
  command_from_message (ClientMessage.handshake _) = err handshake_requires_session
  command_from_message ClientMessage.get_snapshot = ok CoreCommand.get_snapshot
  command_from_message ClientMessage.list_profiles = ok CoreCommand.list_profiles
  command_from_message (ClientMessage.create_profile name) = ok (CoreCommand.create_profile name)
  command_from_message (ClientMessage.rename_profile id name) = do
    profile_id ← map_err domain (parse_profile_id id)
    ok (CoreCommand.rename_profile profile_id name)
  command_from_message (ClientMessage.set_active_profile id) = do
    profile_id ← map_err domain (parse_profile_id id)
    ok (CoreCommand.set_active_profile profile_id)
  command_from_message (ClientMessage.save_assignment dto) = do
    assignment ← assignment_from_dto dto
    ok (CoreCommand.save_assignment assignment)
  command_from_message (ClientMessage.clear_assignment id dto) = do
    profile_id ← map_err domain (parse_profile_id id)
    control ← control_from_dto dto
    ok (CoreCommand.clear_assignment profile_id control)
  command_from_message (ClientMessage.virtual_control_input dto) = do
    control ← control_from_dto dto
    ok (CoreCommand.virtual_control_input control)
