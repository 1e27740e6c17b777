-- ===== src/Host/Connection/Transcript.antt =====
-- What a connection of crates/keyro-core/src/main.rs writes: for each line the events of its
-- command, then one reply under the request id of the line.
use keyro_core.Common.{
  String, ◌≡◌, refl, sym, false, List, [], ◌∷◌, ◌++◌, append_assoc, append-nil, some, Result, ok,
  err, arith,
}
use keyro_core.Common.Exec.{lift, pure, ◌>>=◌, ◌>>◌}
use keyro_core.Domain.Ids.{UuidCrate}
use keyro_core.Domain.Urls.{UrlCrate}
use keyro_core.App.Errors.{AppError}
use keyro_core.App.Model.{CoreResponse}
use keyro_core.App.Service.{handle_command}
use keyro_core.Protocol.Messages.{ServerMessage}
use keyro_core.Protocol.Codec.{JsonCrate}
use keyro_core.Ipc.Replies.{response_from_core, error_message}
use keyro_core.Ipc.Session.{ProtocolSession, ProtocolDispatch, immediate, command, receive_line}
use keyro_core.Ipc.Session.Echo.{
  reply_id, dispatch_id, is_event, answers_with_event, dispatch_id-receive_line,
  answers_with_event-receive_line,
}
use keyro_core.Host.Connection.{
  Ports, write_protocol_message, connection_service, reply_to, answer, handle_line, handle_lines,
}
use keyro_core.Host.Connection.Writes.{
  Write, IsStream, Message, IsReply, Answered, Handled, Transcript,
}
use keyro_core.Host.Connection.Events.{write_protocol_message-Message, handle_command-Commanded}

module _ ⦃uuid : UuidCrate⦄ where
  reply_to-reply_id :
      (id : String) (r : Result AppError CoreResponse)
      → (reply_id (reply_to id r) ≡ some id) × (is_event (reply_to id r) ≡ false)
  unfolding reply_to response_from_core error_message
  reply_to-reply_id id (ok (CoreResponse.snapshot s)) = (refl, refl)
  reply_to-reply_id id (ok (CoreResponse.profiles ps)) = (refl, refl)
  reply_to-reply_id id (ok (CoreResponse.profile p)) = (refl, refl)
  reply_to-reply_id id (ok CoreResponse.acknowledged) = (refl, refl)
  reply_to-reply_id id (err e) = (refl, refl)

module _ ⦃uuid : UuidCrate⦄ ⦃url : UrlCrate⦄ ⦃json : JsonCrate⦄ {W : Type 0} (ports : Ports W)
    (trace : W → List Write) (stream : IsStream ports trace) where
  -- What an answer comes to: it always succeeds.
  record Answers (w : W) (dispatched : ProtocolDispatch) : Type 0 where
    message : ServerMessage
    before : List Write
    made : (answer ports dispatched w).0 ≡ ok message
    shown : trace (answer ports dispatched w).1 ≡ trace w ++ before
    answered : Answered ports w dispatched message before
    same_id : reply_id message ≡ dispatch_id dispatched
    reply : is_event message ≡ false

  answer-Answers :
      (dispatched : ProtocolDispatch) (w : W)
      → answers_with_event dispatched ≡ false
      → Answers w dispatched
  unfolding answer
  answer-Answers (immediate message) w h = record {
    message = message;
    before = [];
    made = refl;
    shown = sym (append-nil (trace w));
    answered = Answered.by_session message;
    same_id = refl;
    reply = h;
  }
  answer-Answers (command id c) w h =
      let (xs, e, p) = (handle_command-Commanded ports trace stream c).at w in
      let r = (handle_command (connection_service ports) c w).0 in
      let (same, reply) = reply_to-reply_id id r in
      record {
        message = reply_to id r;
        before = xs;
        made = refl;
        shown = e;
        answered = Answered.by_command id c r xs refl p;
        same_id = same;
        reply = reply;
      }

  handle_line-Handled :
      (session : ProtocolSession) (line : String) (w : W)
      → (xs : List Write) × (trace (handle_line ports session line w).1 ≡ trace w ++ xs)
        × Handled ports session line w (handle_line ports session line w).0 xs
  unfolding handle_line
  handle_line-Handled session line w =
      let a =
        answer-Answers (receive_line session line).0 w
          (answers_with_event-receive_line session line) in
      let reply : IsReply line a.message = record {
        reply = a.reply;
        same_id = ground (arith, a.same_id, dispatch_id-receive_line session line);
      } in
      go a reply (answer ports (receive_line session line).0 w).0
        (answer ports (receive_line session line).0 w).1 a.made a.shown
    where
      written :
          (a : Answers w (receive_line session line).0)
          → IsReply line a.message
          → (r : Result String (Unit {0})) (w'' : W) (ys : List Write)
          → trace w'' ≡ trace w ++ (a.before ++ ys)
          → Message a.message r ys
          → let (r', w3) = (lift r >> pure (receive_line session line).1) w'' in
            (xs : List Write) × (trace w3 ≡ trace w ++ xs) × Handled ports session line w r' xs
      written a reply (ok _) w'' ys same p =
          (a.before ++ ys, same, Handled.replied a.message a.before ys a.answered reply p)
      written a reply (err e) w'' ys same p =
          (a.before ++ ys, same, Handled.cut a.message e a.before ys a.answered reply p)

      go :
          (a : Answers w (receive_line session line).0)
          → IsReply line a.message
          → (r : Result String ServerMessage) (w' : W) → r ≡ ok a.message
          → trace w' ≡ trace w ++ a.before
          → let (r', w3) =
              (lift r >>= λ m. write_protocol_message ports m >> pure (receive_line session line).1)
                w' in
            (xs : List Write) × (trace w3 ≡ trace w ++ xs) × Handled ports session line w r' xs
      go a reply (err x) w' made shown = absurd (ground arith)
      go a reply (ok m) w' made shown =
          let same : a.message ≡ m = ground arith in
          let (ys, e, p) = (write_protocol_message-Message ports trace stream a.message).at w' in
          rw (← same) (
            written a reply (write_protocol_message ports a.message w').0
              (write_protocol_message ports a.message w').1 ys (rw (e, shown, append_assoc) refl) p)

  -- A line is handled, and then the rest.
  goes_on :
      (session : ProtocolSession) (line : String) (lines : List (Result String String)) (w : W)
      (xs : List Write) (r : Result String ProtocolSession)
      → trace (handle_line ports session line w).1 ≡ trace w ++ xs
      → Handled ports session line w r xs
      → let w' = (handle_line ports session line w).1 in
        ((next : ProtocolSession)
          → (ys : List Write) × (trace (handle_lines ports next lines w').1 ≡ trace w' ++ ys)
            × Transcript ports next w' (handle_lines ports next lines w').0 lines ys)
        → let (end, last) = (lift r >>= λ session. handle_lines ports session lines) w' in
          (zs : List Write) × (trace last ≡ trace w ++ zs)
          × Transcript ports session w end (ok line ∷ lines) zs
  goes_on session line lines w xs (ok next) same p rest =
      let (ys, e, shown) = rest next in
      (
        xs ++ ys,
        rw (e, same, append_assoc) refl,
        Transcript.onward session w line next _ lines xs ys p shown,
      )
  goes_on session line lines w xs (err e) same p rest =
      (xs, same, Transcript.ended session w line e lines xs p)

  -- When the ports write to the stream by `write_line` only: however the commands, the writes and
  -- the reads of a connection end, its writes are a transcript. Each line that is handled gives the
  -- events of its command, then one reply under the line's request id for the command's own result,
  -- also when the command fails. The connection ends with an error only at a line that cannot be
  -- read or at a reply that is not written, and nothing is written after that.
  pub handle_lines-Transcript :
      (session : ProtocolSession) (lines : List (Result String String)) (w : W)
      → (xs : List Write) × (trace (handle_lines ports session lines w).1 ≡ trace w ++ xs)
        × Transcript ports session w (handle_lines ports session lines w).0 lines xs
  unfolding handle_lines
  handle_lines-Transcript session [] w = ([], sym (append-nil (trace w)), Transcript.done session w)
  handle_lines-Transcript session (err e ∷ lines) w =
      ([], sym (append-nil (trace w)), Transcript.unread session w e lines)
  handle_lines-Transcript session (ok line ∷ lines) w =
      let (xs, same, p) = handle_line-Handled session line w in
      goes_on session line lines w xs (handle_line ports session line w).0 same p
        (λ next. handle_lines-Transcript next lines (handle_line ports session line w).1)
