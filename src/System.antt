-- ===== src/System.antt =====
-- The agent on the host: what crates/tds-agent/src/lib.rs imports is what
-- crates/tds-host/src/runtime.rs registers.
pub mod Guest
pub mod Reaching
pub mod Refinement
pub mod Promises
pub mod Capabilities
pub mod Bounds
pub mod Module
pub mod Handshake
pub mod Actions
pub mod Completion
pub mod Direct
pub mod Reported
pub mod Denials
