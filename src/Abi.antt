-- ===== src/Abi.antt =====
-- crates/tds-abi/src/lib.rs: the contract between the agent and the host. The data types are
-- parameterised by the type `V` of JSON values, which belongs to the serializer's crate.
pub mod Packing
pub mod Types
