-- ===== src/Storage/Assignments.antt =====
-- The assignments of crates/core-storage-sqlite/src/lib.rs as a map from a profile and a control to
-- the list of actions.
pub mod Rows
pub mod Identity
pub mod Lookup
