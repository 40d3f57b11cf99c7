-- ===== src/Agent.antt =====
-- crates/tds-agent/src/lib.rs, the guest. What it imports from the host, the allocator of its memory and
-- the JSON encodings are parameters.
pub mod Imports
pub mod Truncate
pub mod Loop
pub mod Exports
