-- ===== src/Ipc/Errors.antt =====
-- `IpcError` of crates/core-ipc/src/lib.rs, and its `Display` text.
use Prim.Native.String.{◌++◌}
use keyro_core.Common.{ℕ, String}
use keyro_core.Common.Decimal.{decimal}
use keyro_core.Domain.Errors.{DomainError, domain_error_text}
use keyro_core.Protocol.Codec.{ProtocolError, protocol_error_text}

pub data IpcError : Type 0 where
  protocol : ProtocolError → IpcError
  domain : DomainError → IpcError
  handshake_requires_session : IpcError
  index_out_of_range : String → ℕ → IpcError

unfoldable pub ipc_error_text : IpcError → String
unfolding decimal domain_error_text protocol_error_text
ipc_error_text (protocol e) = protocol_error_text e
ipc_error_text (domain e) = domain_error_text e
ipc_error_text handshake_requires_session =
    "handshake messages must be handled by the IPC session before command routing"
ipc_error_text (index_out_of_range field value) =
    field ++ " index " ++ decimal value ++ " is outside the supported protocol adapter range"
