-- ===== src/Tests.antt =====
-- The unit tests of the sources, as tests of the definitions here, on JSON trees.
pub mod Tree
pub mod Abi
pub mod Policy
pub mod Tools
pub mod Llm
