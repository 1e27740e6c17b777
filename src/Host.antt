-- ===== src/Host.antt =====
-- The process of crates/keyro-core/src.
pub mod Logs
pub mod Workers
pub mod Listener
pub mod Instance
pub mod Connection
pub mod Startup
