-- ===== src/Domain.antt =====
-- crates/core-domain/src/lib.rs: profiles, controls, actions and their validation.
pub mod Errors
pub mod Ids
pub mod Layout
pub mod Urls
pub mod Profiles
pub mod Assignments
