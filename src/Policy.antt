-- ===== src/Policy.antt =====
-- crates/tds-host/src/policy.rs: what the agent may consume and reach.
pub mod Types
pub mod Validation
pub mod Load
pub mod Hosts
