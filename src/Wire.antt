-- ===== src/Wire.antt =====
-- The JSON encodings of the messages (serde and serde_json), which the sources only call. An encoder
-- may fail, and the text of its error stands for the error.
use tds_wasm_ai.Common.{ℕ, ◌≡◌, String, List, Result, ok}
use tds_wasm_ai.Abi.Types.{
  CapResponse, AgentInput, AgentOutput, ToolInvokeRequest, ToolInvokeResponse, ToolsListResponse,
  LlmRequest, LlmResponse,
}

pub record Codec (A : Type 0) : Type 0 where
  pub encode : A → Result String (List ℕ)
  pub decode : List ℕ → Result String A

-- What an encoding promises: what was encoded is decoded to the same value.
pub record RoundTrips {A : Type 0} (c : Codec A) : Type 0 where
  pub decode-encode : (a : A) (bs : List ℕ) → c.encode a ≡ ok bs → c.decode bs ≡ ok a

pub record Wire (V : Type 0) : Type 0 where
  pub value : Codec V
  pub tool_invoke_request : Codec (ToolInvokeRequest V)
  pub llm_request : Codec (LlmRequest V)
  pub agent_input : Codec AgentInput
  pub agent_output : Codec (AgentOutput V)
  pub unit_response : Codec (CapResponse (Unit {0}))
  pub tools_list_response : Codec (CapResponse (ToolsListResponse V))
  pub tool_invoke_response : Codec (CapResponse ToolInvokeResponse)
  pub llm_response : Codec (CapResponse (LlmResponse V))
