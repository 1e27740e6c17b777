-- ===== src/App/Routing.antt =====
-- What a virtual control input makes visible: `CoreService::route_virtual_control` of
-- crates/core-app/src/lib.rs, seen as the sequence of its calls of the ports with their answers.
pub mod Rules
pub mod Order
