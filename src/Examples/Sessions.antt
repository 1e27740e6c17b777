-- ===== src/Examples/Sessions.antt =====
-- Lines of a connection.
use keyro_core.Common.{◌≡◌, ◌↔◌, ◌⊎◌, refl, [], ◌∷◌, All, none, true, ok}
use keyro_core.Common.Text.{has_content}
use keyro_core.Domain.Layout.{ControlId, IsInLayout}
use keyro_core.App.Model.{CoreCommand}
use keyro_core.Protocol.Messages.{ControlDto}
use keyro_core.Protocol.Codec.{decode_client_envelope, handshake_response}
use keyro_core.Ipc.Convert.{control_from_dto, control_to_dto}
use keyro_core.Ipc.Convert.RoundTrip.{control_from_dto_iff}
use keyro_core.Ipc.Commands.{command_from_message}
use keyro_core.Ipc.Session.{
  ProtocolSession, established, command, new_session, dispatch_envelope, receive_line,
  receive_lines,
}
use keyro_core.Ipc.Session.Gate.{
  Offers, IsImmediate, established_iff, command_iff, receive_lines-IsImmediate,
}
use keyro_core.Ipc.Session.Echo.{
  dispatch_id, line_id, dispatch_id-receive_line, dispatch_id-has_content,
}
use keyro_core.Ipc.Replies.Sanitized.{erase, error_message-erase}
use keyro_core.Ipc.Replies.{error_message}
use keyro_core.App.Errors.{AppError}
use keyro_core.Examples.Crates.{uuids, urls, json, handshake, press}

abbrev fresh : ProtocolSession
fresh = new_session "core-test"

abbrev opened : ProtocolSession
opened = record { core_version = "core-test"; state = established }

control_from_dto_iff_example :
    (control_from_dto (ControlDto.key 300 0)
      ≡ ok (ControlId.key (record { get = 44 }) (record { get = 0 })))
    ↔ ((control_to_dto (ControlId.key (record { get = 44 }) (record { get = 0 }))
          ≡ ControlDto.key 300 0)
        × IsInLayout (ControlId.key (record { get = 44 }) (record { get = 0 })))
control_from_dto_iff_example =
    control_from_dto_iff (ControlDto.key 300 0)
      (ControlId.key (record { get = 44 }) (record { get = 0 }))

established_iff_example :
    ((dispatch_envelope fresh handshake).1.state ≡ established)
    ↔ ((fresh.state ≡ established) ⊎ Offers handshake.message)
established_iff_example = established_iff fresh handshake

command_iff_example :
    ((dispatch_envelope opened press).0
      ≡ command "req-press" (
          CoreCommand.virtual_control_input
            (ControlId.key (record { get = 0 }) (record { get = 0 }))))
    ↔ ((opened.state ≡ established)
        × (press.request_id ≡ "req-press")
        × (command_from_message press.message
            ≡ ok (
                CoreCommand.virtual_control_input
                  (ControlId.key (record { get = 0 }) (record { get = 0 })))))
command_iff_example =
    command_iff opened press "req-press"
      (CoreCommand.virtual_control_input (ControlId.key (record { get = 0 }) (record { get = 0 })))

receive_lines-IsImmediate_example : All IsImmediate (receive_lines fresh ("press" ∷ "junk" ∷ []))
unfolding decode_client_envelope
receive_lines-IsImmediate_example =
    receive_lines-IsImmediate fresh ("press" ∷ "junk" ∷ []) refl (λ h. h, (λ h. h, tt))

-- The same lines after a handshake: the press is routed.
press_after_handshake :
    receive_lines fresh ("handshake" ∷ "press" ∷ [])
    ≡ (receive_line fresh "handshake").0
      ∷ command "req-press" (
          CoreCommand.virtual_control_input
            (ControlId.key (record { get = 0 }) (record { get = 0 })))
      ∷ []
unfolding receive_lines receive_line decode_client_envelope command_from_message control_from_dto
    dispatch_envelope handshake_response
press_after_handshake = refl

dispatch_id-receive_line_example :
    dispatch_id (receive_line fresh "press").0 ≡ line_id "press" (decode_client_envelope "press")
dispatch_id-receive_line_example = dispatch_id-receive_line fresh "press"

dispatch_id-has_content_example : has_content "req-press" ≡ true
unfolding receive_line decode_client_envelope dispatch_envelope
dispatch_id-has_content_example = dispatch_id-has_content fresh "press" "req-press" refl

error_message-erase_example :
    error_message none (erase (AppError.storage "/secret/keyro.sqlite"))
    ≡ error_message none (AppError.storage "/secret/keyro.sqlite")
error_message-erase_example = error_message-erase none (AppError.storage "/secret/keyro.sqlite")
