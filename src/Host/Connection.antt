-- ===== src/Host/Connection.antt =====
-- One connection of crates/keyro-core/src/main.rs: `handle_dev_connection_inner`, `IpcEventSink`
-- and `write_protocol_message`. The stream is the parameter `write_line`, which is `writeln!` under
-- the writer's lock; a line that cannot be read is an error among the lines. Panics, and the locks
-- that they poison, are not modelled.
pub mod Writes
pub mod Events
pub mod Transcript
use Prim.Native.String.{◌++◌}
use keyro_core.Common.{String, List, [], ◌∷◌, some, Result, ok, err, map_err}
use keyro_core.Common.Exec
use keyro_core.Common.Exec.{Exec, lift, pure, attempt, ◌>>=◌, ◌>>◌}
use keyro_core.Domain.Ids.{UuidCrate}
use keyro_core.Domain.Urls.{UrlCrate}
use keyro_core.App.Errors.{AppError}
use keyro_core.App.Model.{CoreEvent, CoreResponse}
use keyro_core.App.Ports.{ProfileRepository, EventSink, UrlOpener, UuidSource}
use keyro_core.App.Service.{CoreService, handle_command}
use keyro_core.Protocol.Messages.{ServerMessage}
use keyro_core.Protocol.Codec.{JsonCrate}
use keyro_core.Ipc.Errors.{ipc_error_text}
use keyro_core.Ipc.Replies.{
  response_from_core, event_from_core, error_message, encode_protocol_message,
}
use keyro_core.Ipc.Session.{
  ProtocolSession, ProtocolDispatch, immediate, command, new_session, receive_line,
}

-- What a connection works with. The errors of the stream are their texts.
pub record Ports (W : Type 0) : Type 0 where
  pub repository : ProfileRepository W
  pub url_opener : UrlOpener W
  pub uuids : UuidSource W
  pub write_line : String → Exec W String (Unit {0})

module _ ⦃json : JsonCrate⦄ {W : Type 0} (ports : Ports W) where
  open ports use {write_line}

  unfoldable pub write_protocol_message : ServerMessage → Exec W String (Unit {0})
  write_protocol_message message = do
    encoded ← lift (map_err ipc_error_text (encode_protocol_message message))
    write_line encoded

unfoldable pub event_sink_error : String → AppError
event_sink_error error =
    AppError.event_sink ("failed to write action event to IPC client: " ++ error)

module _ ⦃uuid : UuidCrate⦄ ⦃json : JsonCrate⦄ {W : Type 0} (ports : Ports W) where
  -- `IpcEventSink::emit`
  unfoldable pub emit : CoreEvent → Exec W AppError (Unit {0})
  unfolding event_sink_error
  emit event = Exec.map_err event_sink_error (write_protocol_message ports (event_from_core event))

  unfoldable pub connection_service : CoreService W
  connection_service = record {
    repository = ports.repository;
    url_opener = ports.url_opener;
    event_sink = record { emit = emit };
    uuids = ports.uuids;
  }

module _ ⦃uuid : UuidCrate⦄ where
  unfoldable pub reply_to : String → Result AppError CoreResponse → ServerMessage
  reply_to request_id (ok response) = response_from_core request_id response
  reply_to request_id (err error) = error_message (some request_id) error

module _ ⦃uuid : UuidCrate⦄ ⦃url : UrlCrate⦄ ⦃json : JsonCrate⦄ {W : Type 0} (ports : Ports W) where
  -- `let reply = match session.receive_line(&line) { .. }`
  unfoldable pub answer : ProtocolDispatch → Exec W String ServerMessage
  answer (immediate message) = pure message
  answer (command request_id c) = do
    result ← attempt (handle_command (connection_service ports) c)
    pure (reply_to request_id result)

  -- The body of the loop: the session after the line.
  unfoldable pub handle_line : ProtocolSession → String → Exec W String ProtocolSession
  unfolding answer
  handle_line session line = do
    reply ← answer (receive_line session line).0
    write_protocol_message ports reply
    pure (receive_line session line).1

  -- `for line in reader.lines()`
  unfoldable pub handle_lines :
      ProtocolSession → List (Result String String) → Exec W String (Unit {0})
  unfolding handle_line
  handle_lines session [] = pure tt
  handle_lines session (line ∷ lines) = do
    line ← lift line
    session ← handle_line session line
    handle_lines session lines

  -- `handle_dev_connection_inner` once the stream is set up.
  unfoldable pub handle_dev_connection :
      String → List (Result String String) → Exec W String (Unit {0})
  handle_dev_connection version lines = handle_lines (new_session version) lines
