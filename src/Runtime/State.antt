-- ===== src/Runtime/State.antt =====
-- crates/tds-host/src/runtime.rs, `LogLine`, `HostState` and what the store of a run holds; and the
-- trait `LlmProvider` of crates/tds-host/src/llm.rs.
use tds_wasm_ai.Common.{ℕ, String, Option, List, [], Result}
use tds_wasm_ai.Abi.Types.{CapError, LlmRequest, LlmResponse}
use tds_wasm_ai.Policy.Types.{Policy}
use tds_wasm_ai.Tools.Invoke.{ToolBox, new}

pub record LogLine : Type 0 where
  pub level : String
  pub message : String

-- A completion may call out, so it takes and returns the world.
pub record LlmProvider (V W : Type 0) : Type 0 where
  pub complete : LlmRequest V → W → Result CapError (LlmResponse V) × W
  pub describe : String

-- The provider is a parameter of the operations, and the store's limits are kept by the engine.
pub record HostState (W : Type 0) : Type 0 where
  pub policy : Policy
  pub tools : ToolBox
  pub pending : List ℕ
  pub logs : List LogLine
  pub llm_calls : ℕ
  pub world : W

-- The state that `run` builds.
unfoldable pub fresh : {W : Type 0} → Policy → W → HostState W
fresh policy w = record {
  policy = policy;
  tools = new policy;
  pending = [];
  logs = [];
  llm_calls = 0;
  world = w;
}

-- A store: the guest's memory, the fuel that is left and the host's state.
pub record Store (W : Type 0) : Type 0 where
  pub memory : Option (List ℕ)
  pub fuel : ℕ
  pub host : HostState W
