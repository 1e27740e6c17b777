-- ===== src/Host/Connection/Writes.antt =====
-- What a connection of crates/keyro-core/src/main.rs writes, each line with the answer of the stream:
-- the messages, the events of the commands and the replies to the lines.
use keyro_core.Common.{
  ◌≡◌, String, Bool, true, false, List, [], ◌∷◌, ◌++◌, Result, ok, err, map_err,
}
use keyro_core.Common.Effects.{IsQuiet, Records}
use keyro_core.Domain.Ids.{UuidCrate, ProfileId}
use keyro_core.Domain.Layout.{ControlId}
use keyro_core.Domain.Urls.{SafeUrl, UrlCrate}
use keyro_core.Domain.Assignments.{Assignment}
use keyro_core.App.Errors.{AppError, OpenUrlError, app_error_text}
use keyro_core.App.Model.{
  CoreCommand, CoreResponse, CoreEvent, ActionRunId, action_running, action_succeeded,
  action_failed, open_url_failed, acknowledged,
}
use keyro_core.App.Service.{handle_command}
use keyro_core.Protocol.Messages.{ServerMessage}
use keyro_core.Protocol.Codec.{JsonCrate, decode_client_envelope}
use keyro_core.Ipc.Errors.{IpcError, ipc_error_text}
use keyro_core.Ipc.Replies.{event_from_core, encode_protocol_message}
use keyro_core.Ipc.Session.{ProtocolSession, ProtocolDispatch, immediate, command, receive_line}
use keyro_core.Ipc.Session.Echo.{reply_id, line_id, is_event}
use keyro_core.Host.Connection.{Ports, connection_service, reply_to, event_sink_error, handle_line}

-- A line that the stream is given, with its answer.
pub record Write : Type 0 where
  pub text : String
  pub answer : Result String (Unit {0})

abbrev pub write : String → Result String (Unit {0}) → Write
write text answer = record { text = text; answer = answer }

module _ {W : Type 0} (ports : Ports W) (trace : W → List Write) where
  open ports use {repository, url_opener, uuids, write_line}

  -- The ports write to the stream by `write_line` only.
  pub record IsStream : Type 0 where
    pub silent_create : (name : String) → IsQuiet trace (repository.create_profile name)
    pub silent_list : IsQuiet trace repository.list_profiles
    pub silent_rename :
        (id : ProfileId) (name : String) → IsQuiet trace (repository.rename_profile id name)
    pub silent_switch : (id : ProfileId) → IsQuiet trace (repository.set_active_profile id)
    pub silent_save : (a : Assignment) → IsQuiet trace (repository.save_assignment a)
    pub silent_clear :
        (id : ProfileId) (c : ControlId) → IsQuiet trace (repository.clear_assignment id c)
    pub silent_snapshot : IsQuiet trace repository.load_snapshot_state
    pub silent_find :
        (id : ProfileId) (c : ControlId) → IsQuiet trace (repository.find_assignment id c)
    pub silent_open : (u : SafeUrl) → IsQuiet trace (url_opener.open_url u)
    pub silent_uuids : IsQuiet trace uuids.new_v4
    pub writes : (text : String) → Records trace (write text) (write_line text)

module _ ⦃json : JsonCrate⦄ where
  -- A message is one line, and the result is the answer to it; a message that cannot be encoded is
  -- no line.
  pub data Message (message : ServerMessage) : Result String (Unit {0}) → List Write → Type 0 where
    unencoded :
        (x : IpcError)
        → encode_protocol_message message ≡ err x
        → Message message (err (ipc_error_text x)) []
    written :
        (text : String) (r : Result String (Unit {0}))
        → encode_protocol_message message ≡ ok text
        → Message message r (write text r ∷ [])

module _ ⦃uuid : UuidCrate⦄ ⦃json : JsonCrate⦄ where
  -- An event is its message, with the error of the event sink.
  pub data Event (event : CoreEvent) : Result AppError (Unit {0}) → List Write → Type 0 where
    sent :
        (r : Result String (Unit {0})) (xs : List Write)
        → Message (event_from_core event) r xs
        → Event event (map_err event_sink_error r) xs

  -- A virtual control input: nothing when it is refused; otherwise the running event, and if it is
  -- written, one closing event under the same run id. The result is an error if it is refused, an
  -- event is not written or the closing event says that the run has failed.
  pub data Pressed (control : ControlId) : Result AppError (Unit {0}) → List Write → Type 0 where
    refused : (e : AppError) → Pressed control (err e) []
    unannounced :
        (run : ActionRunId) (profile : ProfileId) (e : AppError) (xs : List Write)
        → Event (action_running run profile control) (err e) xs
        → Pressed control (err e) xs
    succeeded :
        (run : ActionRunId) (profile : ProfileId) (r : Result AppError (Unit {0}))
        (xs ys : List Write)
        → Event (action_running run profile control) (ok tt) xs
        → Event (action_succeeded run) r ys
        → Pressed control r (xs ++ ys)
    failed :
        (run : ActionRunId) (profile : ProfileId) (o : OpenUrlError) (xs ys : List Write)
        → Event (action_running run profile control) (ok tt) xs
        → Event
            (action_failed run open_url_failed (app_error_text (AppError.open_url o)))
            (ok tt)
            ys
        → Pressed control (err (AppError.open_url o)) (xs ++ ys)
    unreported :
        (run : ActionRunId) (profile : ProfileId) (o : OpenUrlError) (e : AppError)
        (xs ys : List Write)
        → Event (action_running run profile control) (ok tt) xs
        → Event
            (action_failed run open_url_failed (app_error_text (AppError.open_url o)))
            (err e)
            ys
        → Pressed control (err e) (xs ++ ys)

  abbrev pub is_virtual : CoreCommand → Bool
  is_virtual (CoreCommand.virtual_control_input _) = true
  is_virtual _ = false

  -- What a command writes by itself, with its result.
  pub data Commanded : CoreCommand → Result AppError CoreResponse → List Write → Type 0 where
    quiet :
        (c : CoreCommand) (r : Result AppError CoreResponse)
        → is_virtual c ≡ false
        → Commanded c r []
    routed :
        (control : ControlId) (xs : List Write)
        → Pressed control (ok tt) xs
        → Commanded (CoreCommand.virtual_control_input control) (ok acknowledged) xs
    unrouted :
        (control : ControlId) (e : AppError) (xs : List Write)
        → Pressed control (err e) xs
        → Commanded (CoreCommand.virtual_control_input control) (err e) xs

module _ ⦃json : JsonCrate⦄ where
  -- A reply, no event, under the request id of the line.
  pub record IsReply (line : String) (message : ServerMessage) : Type 0 where
    pub reply : is_event message ≡ false
    pub same_id : reply_id message ≡ line_id line (decode_client_envelope line)

module _ ⦃uuid : UuidCrate⦄ ⦃url : UrlCrate⦄ ⦃json : JsonCrate⦄ {W : Type 0} (ports : Ports W) where
  -- The message that answers a line, after what is written before it: the session's own message, or
  -- after the writes of the command the reply for the command's result.
  pub data Answered (w : W) : ProtocolDispatch → ServerMessage → List Write → Type 0 where
    by_session : (message : ServerMessage) → Answered w (immediate message) message []
    by_command :
        (id : String) (c : CoreCommand) (r : Result AppError CoreResponse) (xs : List Write)
        → (handle_command (connection_service ports) c w).0 ≡ r
        → Commanded c r xs
        → Answered w (command id c) (reply_to id r) xs

  -- A line: the writes of its answer, then the one reply. The session goes on if and only if the
  -- reply is written, and otherwise the error is that of the reply.
  pub data Handled (session : ProtocolSession) (line : String) (w : W)
      : Result String ProtocolSession → List Write → Type 0 where
    replied :
        (message : ServerMessage) (xs ys : List Write)
        → Answered w (receive_line session line).0 message xs
        → IsReply line message
        → Message message (ok tt) ys
        → Handled session line w (ok (receive_line session line).1) (xs ++ ys)
    cut :
        (message : ServerMessage) (e : String) (xs ys : List Write)
        → Answered w (receive_line session line).0 message xs
        → IsReply line message
        → Message message (err e) ys
        → Handled session line w (err e) (xs ++ ys)

  -- The writes for the lines, with the end of the connection: at the end of the lines, at a line
  -- that cannot be read, or at a line whose reply is not written.
  pub data Transcript
      : ProtocolSession
        → W
        → Result String (Unit {0})
        → List (Result String String)
        → List Write
        → Type 0 where
    done : (session : ProtocolSession) (w : W) → Transcript session w (ok tt) [] []
    unread :
        (session : ProtocolSession) (w : W) (e : String) (lines : List (Result String String))
        → Transcript session w (err e) (err e ∷ lines) []
    ended :
        (session : ProtocolSession) (w : W) (line e : String) (lines : List (Result String String))
        (xs : List Write)
        → Handled session line w (err e) xs
        → Transcript session w (err e) (ok line ∷ lines) xs
    onward :
        (session : ProtocolSession) (w : W) (line : String) (next : ProtocolSession)
        (end : Result String (Unit {0})) (lines : List (Result String String)) (xs ys : List Write)
        → Handled session line w (ok next) xs
        → Transcript next (handle_line ports session line w).1 end lines ys
        → Transcript session w end (ok line ∷ lines) (xs ++ ys)
