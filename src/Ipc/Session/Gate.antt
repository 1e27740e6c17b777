-- ===== src/Ipc/Session/Gate.antt =====
-- The handshake gate of `ProtocolSession` (crates/core-ipc/src/lib.rs): when a session opens, and
-- what passes it.
use keyro_core.Common.{
  String, ◌≡◌, ◌↔◌, ◌⊎◌, inl, inr, sym, subst, refl, List, [], ◌∷◌, All, arith, Result, ok, err,
}
use keyro_core.Domain.Ids.{UuidCrate}
use keyro_core.Domain.Urls.{UrlCrate}
use keyro_core.App.Model.{CoreCommand}
use keyro_core.Protocol.Messages.{ClientEnvelope, ClientMessage, current}
use keyro_core.Protocol.Codec.{JsonCrate, ProtocolError, decode_client_envelope, handshake_response}
use keyro_core.Ipc.Commands.{command_from_message}
use keyro_core.Ipc.Session.{
  ProtocolSession, SessionState, awaiting_handshake, established, ProtocolDispatch, immediate,
  command, dispatch, dispatch_envelope, receive, receive_line, receive_lines,
}

-- A message that asks for the current protocol version.
abbrev pub Offers : ClientMessage → Type 0
Offers (ClientMessage.handshake m) = m.protocol ≡ current
Offers _ = ⊥

module _ ⦃uuid : UuidCrate⦄ ⦃url : UrlCrate⦄ where
  dispatch_established :
      (s : SessionState) (session : ProtocolSession) (id : String) (m : ClientMessage)
      → session.state ≡ s
      → ((dispatch s session id m).1.state ≡ established) ↔ ((s ≡ established) ⊎ Offers m)
  unfolding dispatch_envelope handshake_response
  dispatch_established established session id (ClientMessage.handshake m) e =
      (λ h. inl refl, λ h. e)
  dispatch_established established session id m e = (λ h. inl refl, λ h. e)
  dispatch_established awaiting_handshake session id (ClientMessage.handshake m) e =
      (λ h. inr (ground arith), λ h. ground arith)
  dispatch_established awaiting_handshake session id m e = (λ h. ground arith, λ h. ground arith)

  -- After an envelope the session is open exactly when it was open, or the envelope is a handshake
  -- with the current version.
  pub established_iff :
      (session : ProtocolSession) (envelope : ClientEnvelope)
      → ((dispatch_envelope session envelope).1.state ≡ established)
        ↔ ((session.state ≡ established) ⊎ Offers envelope.message)
  unfolding dispatch_envelope
  established_iff session envelope =
      dispatch_established session.state session envelope.request_id envelope.message refl

  dispatch-command :
      (s : SessionState) (session : ProtocolSession) (id request : String) (m : ClientMessage)
      (c : CoreCommand)
      → ((dispatch s session id m).0 ≡ command request c)
        ↔ ((s ≡ established) × (id ≡ request) × (command_from_message m ≡ ok c))
  unfolding dispatch_envelope handshake_response command_from_message
  dispatch-command established session id request (ClientMessage.handshake m) c =
      (λ h. ground arith, λ h. ground arith)
  dispatch-command established session id request m c = (λ h. ground arith, λ h. ground arith)
  dispatch-command awaiting_handshake session id request (ClientMessage.handshake m) c =
      (λ h. ground arith, λ h. ground arith)
  dispatch-command awaiting_handshake session id request m c =
      (λ h. ground arith, λ h. ground arith)

  -- An envelope is routed as a command exactly when the session is open and its message converts to
  -- that command, under the request id of the envelope.
  pub command_iff :
      (session : ProtocolSession) (envelope : ClientEnvelope) (request : String) (c : CoreCommand)
      → ((dispatch_envelope session envelope).0 ≡ command request c) ↔ (
          (session.state ≡ established)
          × (envelope.request_id ≡ request)
          × (command_from_message envelope.message ≡ ok c))
  unfolding dispatch_envelope
  command_iff session envelope request c =
      dispatch-command session.state session envelope.request_id request envelope.message c

abbrev pub IsImmediate : ProtocolDispatch → Type 0
IsImmediate (immediate _) = Unit
IsImmediate (command _ _) = ⊥

abbrev pub OffersIn : Result ProtocolError ClientEnvelope → Type 0
OffersIn (ok envelope) = Offers envelope.message
OffersIn (err _) = ⊥

-- The line decodes to a handshake with the current version.
abbrev pub OpensSession : ⦃json : JsonCrate⦄ → String → Type 0
OpensSession line = OffersIn (decode_client_envelope line)

module _ ⦃uuid : UuidCrate⦄ ⦃url : UrlCrate⦄ where
  dispatch_closed :
      (session : ProtocolSession) (id : String) (m : ClientMessage)
      → session.state ≡ awaiting_handshake
      → ¬ Offers m
      → IsImmediate (dispatch awaiting_handshake session id m).0
        × ((dispatch awaiting_handshake session id m).1.state ≡ awaiting_handshake)
  unfolding dispatch_envelope handshake_response
  dispatch_closed session id (ClientMessage.handshake m) closed h = (tt, ground arith)
  dispatch_closed session id m closed h = (tt, closed)

module _ ⦃uuid : UuidCrate⦄ ⦃url : UrlCrate⦄ ⦃json : JsonCrate⦄ where
  receive_closed :
      (session : ProtocolSession) (line : String) (r : Result ProtocolError ClientEnvelope)
      → session.state ≡ awaiting_handshake
      → ¬ OffersIn r
      → IsImmediate (receive session line r).0
        × ((receive session line r).1.state ≡ awaiting_handshake)
  unfolding receive_line dispatch_envelope
  receive_closed session line (err e) closed h = (tt, closed)
  receive_closed session line (ok envelope) closed h =
      subst
        (λ s.
          let (dispatched, session') = dispatch s session envelope.request_id envelope.message in
          IsImmediate dispatched × (session'.state ≡ awaiting_handshake))
        (sym closed) (dispatch_closed session envelope.request_id envelope.message closed h)

  -- On a session that waits for its handshake, if no line opens the session, no line reaches Core
  -- as a command.
  pub receive_lines-IsImmediate :
      (session : ProtocolSession) (lines : List String)
      → session.state ≡ awaiting_handshake
      → All (λ line. ¬ OpensSession line) lines
      → All IsImmediate (receive_lines session lines)
  unfolding receive_lines receive_line
  receive_lines-IsImmediate session [] closed h = tt
  receive_lines-IsImmediate session (line ∷ lines) closed h =
      let step = receive_closed session line (decode_client_envelope line) closed h.0 in
      (step.0, receive_lines-IsImmediate (receive_line session line).1 lines step.1 h.1)
