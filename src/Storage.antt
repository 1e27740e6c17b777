-- ===== src/Storage.antt =====
-- crates/core-storage-sqlite/src/lib.rs: the profile repository over SQLite.
pub mod Database
pub mod Statements
pub mod Columns
pub mod Rows
pub mod Queries
pub mod Repository
pub mod Keeps
pub mod Consistency
pub mod Atomicity
pub mod Assignments
pub mod Listing
mod Data
pub mod Board
pub mod Renames
