-- ===== src/Tools.antt =====
-- crates/tds-host/src/tools.rs: the tools that the host runs on the agent's behalf.
pub mod Known
pub mod Specs
pub mod Http
pub mod Scratchpad
pub mod Invoke
