-- ===== src/Host/Logs.antt =====
-- The log files of crates/keyro-core/src/logging.rs.
pub mod Disk
pub mod Retention
pub mod Writer
mod Contents
mod Scan
mod Current
pub mod Enforce
pub mod Limits
mod Keeping
pub mod Directory
mod Renaming
pub mod Foreign
mod Rotating
pub mod Ownership
mod Cleared
mod Ready
pub mod Handle
pub mod Calm
mod Scanning
mod Cleaning
pub mod Elapsed
pub mod Room
pub mod Progress
mod Turnover
pub mod Success
