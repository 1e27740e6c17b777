-- ===== src/Ipc.antt =====
-- crates/core-ipc/src/lib.rs: from protocol messages to Core commands and back.
pub mod Errors
pub mod Convert
pub mod Commands
pub mod Replies
pub mod Session
