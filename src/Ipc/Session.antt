-- ===== src/Ipc/Session.antt =====
-- `ProtocolSession` of crates/core-ipc/src/lib.rs.
pub mod Gate
pub mod Echo
use keyro_core.Common.{String, List, [], ◌∷◌, Option, some, Result, ok, err}
use keyro_core.Domain.Ids.{UuidCrate}
use keyro_core.Domain.Urls.{UrlCrate}
use keyro_core.App.Model.{CoreCommand}
use keyro_core.Protocol.Messages.{
  ClientEnvelope, ClientMessage, ServerMessage, ErrorDto, validation_failed,
}
use keyro_core.Protocol.Messages
use keyro_core.Protocol.Codec.{JsonCrate, ProtocolError, decode_client_envelope, handshake_response}
use keyro_core.Ipc.Errors.{IpcError}
use keyro_core.Ipc.Commands.{command_from_message}
use keyro_core.Ipc.Replies.{protocol_error_message, ipc_error_message, extract_request_id}

pub data SessionState : Type 0 where
  awaiting_handshake established : SessionState

pub record ProtocolSession : Type 0 where
  pub core_version : String
  pub state : SessionState

pub data ProtocolDispatch : Type 0 where
  immediate : ServerMessage → ProtocolDispatch
  command : String → CoreCommand → ProtocolDispatch

-- `ProtocolSession::new`
abbrev pub new_session : String → ProtocolSession
new_session core_version = record { core_version = core_version; state = awaiting_handshake }

refusal : String → String → ProtocolDispatch
refusal request_id text =
    immediate
      (ServerMessage.error (some request_id) (record { code = validation_failed; message = text }))

-- `if matches!(response, HandshakeAccepted { .. })`
settle : ProtocolSession → ServerMessage → ProtocolSession
settle session (ServerMessage.handshake_accepted _ _ _) = record session { state = established }
settle session _ = session

module _ ⦃uuid : UuidCrate⦄ ⦃url : UrlCrate⦄ where
  route : String → Result IpcError CoreCommand → ProtocolDispatch
  route request_id (ok c) = command request_id c
  route request_id (err e) = immediate (ipc_error_message (some request_id) e)

  -- The guards of the `match`, on the state and the message.
  dispatch :
      SessionState → ProtocolSession → String → ClientMessage → ProtocolDispatch × ProtocolSession
  unfolding refusal settle route
  dispatch established session id (ClientMessage.handshake _) =
      (refusal id "handshake already completed for this connection", session)
  dispatch awaiting_handshake session id (ClientMessage.handshake message) =
      let response = handshake_response id message.protocol session.core_version in
      (immediate response, settle session response)
  dispatch established session id message = (route id (command_from_message message), session)
  dispatch awaiting_handshake session id message =
      (refusal id "handshake required before command routing", session)

  unfoldable pub dispatch_envelope :
      ProtocolSession → ClientEnvelope → ProtocolDispatch × ProtocolSession
  unfolding dispatch
  dispatch_envelope session envelope =
      dispatch session.state session envelope.request_id envelope.message

module _ ⦃uuid : UuidCrate⦄ ⦃url : UrlCrate⦄ ⦃json : JsonCrate⦄ where
  receive :
      ProtocolSession
      → String
      → Result ProtocolError ClientEnvelope
      → ProtocolDispatch × ProtocolSession
  receive session line (ok envelope) = dispatch_envelope session envelope
  receive session line (err e) =
      (immediate (protocol_error_message (extract_request_id line) e), session)

  unfoldable pub receive_line : ProtocolSession → String → ProtocolDispatch × ProtocolSession
  unfolding receive
  receive_line session line = receive session line (decode_client_envelope line)

  -- The dispatches of the lines of one connection, in order.
  unfoldable pub receive_lines : ProtocolSession → List String → List ProtocolDispatch
  receive_lines session [] = []
  receive_lines session (line ∷ lines) =
      let (dispatched, session') = receive_line session line in
      dispatched ∷ receive_lines session' lines
