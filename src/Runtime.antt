-- ===== src/Runtime.antt =====
-- crates/tds-host/src/runtime.rs: the sandbox around the agent module.
pub mod Memory
pub mod State
pub mod Dispatch
pub mod Calls
pub mod Reach
pub mod Exec
pub mod Module
pub mod Run
pub mod Overlap
pub mod Ticker
pub mod New
