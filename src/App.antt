-- ===== src/App.antt =====
-- crates/core-app/src/lib.rs: the commands of Core, its ports and the service behind them.
pub mod Errors
pub mod Model
pub mod Ports
pub mod Service
pub mod Routing
