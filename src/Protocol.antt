-- ===== src/Protocol.antt =====
-- crates/core-protocol/src/lib.rs: the wire messages, the decoding of a line and the handshake.
pub mod Messages
pub mod Codec
