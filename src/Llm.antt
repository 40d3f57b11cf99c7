-- ===== src/Llm.antt =====
-- crates/tds-host/src/llm.rs, the model providers.
pub mod Mock
pub mod Anthropic
pub mod Build
