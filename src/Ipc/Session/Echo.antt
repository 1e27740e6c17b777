-- ===== src/Ipc/Session/Echo.antt =====
-- Request ids in the replies of `ProtocolSession` (crates/core-ipc/src/lib.rs).
use keyro_core.Common.{
  String, ◌≡◌, refl, Bool, true, false, Option, none, some, arith, Result, ok, err,
}
use keyro_core.Common.Text.{has_content, is_empty-trim}
use keyro_core.Domain.Ids.{UuidCrate}
use keyro_core.Domain.Urls.{UrlCrate}
use keyro_core.Protocol.Messages.{ClientEnvelope, ClientMessage, ServerMessage}
use keyro_core.Protocol.Codec.{JsonCrate, ProtocolError, decode_client_envelope, handshake_response}
use keyro_core.Ipc.Replies.{extract_request_id, protocol_error_message, ipc_error_message}
use keyro_core.Ipc.Session.{
  ProtocolSession, SessionState, awaiting_handshake, established, ProtocolDispatch, immediate,
  command, dispatch, dispatch_envelope, receive, receive_line,
}

-- The request id of a server message.
abbrev pub reply_id : ServerMessage → Option String
reply_id (ServerMessage.handshake_accepted id _ _) = some id
reply_id (ServerMessage.profiles id _) = some id
reply_id (ServerMessage.profile id _) = some id
reply_id (ServerMessage.snapshot id _ _ _) = some id
reply_id (ServerMessage.acknowledged id) = some id
reply_id (ServerMessage.action_event _) = none
reply_id (ServerMessage.error id _) = id

abbrev pub dispatch_id : ProtocolDispatch → Option String
dispatch_id (immediate message) = reply_id message
dispatch_id (command id _) = some id

-- The id that a line is answered under: its envelope's, or what can be read of it.
abbrev pub line_id :
    ⦃json : JsonCrate⦄ → String → Result ProtocolError ClientEnvelope → Option String
line_id line (ok envelope) = some envelope.request_id
line_id line (err _) = extract_request_id line

abbrev pub is_event : ServerMessage → Bool
is_event (ServerMessage.action_event _) = true
is_event _ = false

abbrev pub answers_with_event : ProtocolDispatch → Bool
answers_with_event (immediate message) = is_event message
answers_with_event (command _ _) = false

module _ ⦃uuid : UuidCrate⦄ ⦃url : UrlCrate⦄ where
  answers_with_event-dispatch :
      (s : SessionState) (session : ProtocolSession) (id : String) (m : ClientMessage)
      → answers_with_event (dispatch s session id m).0 ≡ false
  unfolding dispatch_envelope handshake_response ipc_error_message
  answers_with_event-dispatch established session id (ClientMessage.handshake m) = refl
  answers_with_event-dispatch established session id m = ground arith
  answers_with_event-dispatch awaiting_handshake session id (ClientMessage.handshake m) =
      ground arith
  answers_with_event-dispatch awaiting_handshake session id m = refl

  dispatch_id-dispatch :
      (s : SessionState) (session : ProtocolSession) (id : String) (m : ClientMessage)
      → dispatch_id (dispatch s session id m).0 ≡ some id
  unfolding dispatch_envelope handshake_response ipc_error_message
  dispatch_id-dispatch established session id (ClientMessage.handshake m) = refl
  dispatch_id-dispatch established session id m = ground arith
  dispatch_id-dispatch awaiting_handshake session id (ClientMessage.handshake m) = ground arith
  dispatch_id-dispatch awaiting_handshake session id m = refl

module _ ⦃uuid : UuidCrate⦄ ⦃url : UrlCrate⦄ ⦃json : JsonCrate⦄ where
  -- Every line is answered or routed under the request id of its envelope, or, when it does not
  -- decode, under the one that can be read off it, if any.
  pub dispatch_id-receive_line :
      (session : ProtocolSession) (line : String)
      → dispatch_id (receive_line session line).0 ≡ line_id line (decode_client_envelope line)
  unfolding receive_line protocol_error_message dispatch_envelope
  dispatch_id-receive_line session line = go (decode_client_envelope line)
    where
      go :
          (r : Result ProtocolError ClientEnvelope)
          → dispatch_id (receive session line r).0 ≡ line_id line r
      go (ok envelope) =
          dispatch_id-dispatch session.state session envelope.request_id envelope.message
      go (err e) = refl

  -- The session itself never answers with an action event.
  pub answers_with_event-receive_line :
      (session : ProtocolSession) (line : String)
      → answers_with_event (receive_line session line).0 ≡ false
  unfolding receive_line protocol_error_message dispatch_envelope
  answers_with_event-receive_line session line = go (decode_client_envelope line)
    where
      go :
          (r : Result ProtocolError ClientEnvelope)
          → answers_with_event (receive session line r).0 ≡ false
      go (ok envelope) =
          answers_with_event-dispatch session.state session envelope.request_id envelope.message
      go (err e) = refl

  decoded_id :
      (line : String) (envelope : ClientEnvelope)
      → decode_client_envelope line ≡ ok envelope
      → has_content envelope.request_id ≡ true
  unfolding decode_client_envelope
  decoded_id line envelope h = ground (arith, is_empty-trim envelope.request_id)

  extracted_id : (line id : String) → extract_request_id line ≡ some id → has_content id ≡ true
  unfolding extract_request_id
  extracted_id line id h = ground (arith, is_empty-trim id)

  -- No line is answered under a blank request id.
  pub dispatch_id-has_content :
      (session : ProtocolSession) (line : String) (id : String)
      → dispatch_id (receive_line session line).0 ≡ some id
      → has_content id ≡ true
  dispatch_id-has_content session line id h =
      go (decode_client_envelope line) refl (rw dispatch_id-receive_line at h)
    where
      go :
          (r : Result ProtocolError ClientEnvelope)
          → decode_client_envelope line ≡ r
          → line_id line r ≡ some id
          → has_content id ≡ true
      go (ok envelope) e h = ground (arith, decoded_id line envelope e)
      go (err _) e h = extracted_id line id h
