-- ===== src/Protocol/Codec.antt =====
-- Decoding, encoding and the handshake of crates/core-protocol/src/lib.rs, over serde_json.
use Prim.Native.String.{◌++◌}
use keyro_core.Common.{String, Option, some, Result, ok, err, map_err, ◌>>=◌, if◌then◌else◌}
use keyro_core.Common.Text
use keyro_core.Common.Text.{trim}
use keyro_core.Protocol.Messages.{
  ProtocolVersion, current, is_exactly, ClientEnvelope, ServerMessage, handshake_accepted, error,
  incompatible_protocol,
}

-- What the program calls of serde_json, with the (de)serializers that serde derives for the message
-- types. A `serde_json::Error` is known by its `Display` text.
pub record JsonCrate : Type 1 where
  pub Value : Type 0
  pub envelope_from_str : String → Result String ClientEnvelope
  pub message_to_string : ServerMessage → Result String String
  pub value_from_str : String → Result String Value
  pub get : Value → String → Option Value
  pub as_str : Value → Option String

pub data ProtocolError : Type 0 where
  decode encode : String → ProtocolError
  empty_request_id : ProtocolError

unfoldable pub protocol_error_text : ProtocolError → String
protocol_error_text (decode e) = "failed to decode client protocol envelope: " ++ e
protocol_error_text (encode e) = "failed to encode server protocol message: " ++ e
protocol_error_text empty_request_id = "request_id cannot be empty"

module _ ⦃json : JsonCrate⦄ where
  unfoldable pub decode_client_envelope : String → Result ProtocolError ClientEnvelope
  unfolding trim
  decode_client_envelope line = do
    envelope ← map_err decode (json.envelope_from_str line)
    if Text.is_empty (trim envelope.request_id) then err empty_request_id else ok envelope

  unfoldable pub encode_server_message : ServerMessage → Result ProtocolError String
  encode_server_message message = map_err encode (json.message_to_string message)

unfoldable pub handshake_response : String → ProtocolVersion → String → ServerMessage
unfolding is_exactly
handshake_response request_id protocol core_version =
    if is_exactly protocol current
    then handshake_accepted request_id core_version protocol
    else error (some request_id)
        (record { code = incompatible_protocol; message = "unsupported protocol version" })
