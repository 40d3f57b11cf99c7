-- ===== src/Agent/Loop/Simulation.antt =====
-- Two sets of imports that answer alike.
pub mod Capabilities
pub mod Runs
use tds_wasm_ai.Common.{
  ℕ, zero, suc, ◌-◌, max, ◌^◌, ◌<◌, ◌≡◌, refl, sym, ◌∙◌, eqb, Bool-cases, Result-cases, inl, inr,
  String, Bool, true, false, some, List, [], ◌∷◌, ◌++◌, filter_map, is_empty, ◌==◌, replicate,
  length, length-replicate, Result, ok, err,
}
use mathlib.Core.Path.{subst}
use tds_wasm_ai.Common.Int.{ℤ, pos, negsuc, eqb_ℤ}
use tds_wasm_ai.Common.Text.{format, show}
use tds_wasm_ai.Common.Utf8.{as_bytes}
use tds_wasm_ai.External.{Json}
use tds_wasm_ai.Wire.{Codec, Wire}
use tds_wasm_ai.Abi.Types.{
  AgentInput, AgentOutput, CapError, CapResponse, LogLevel, ToolInvokeResponse, ToolCallRecord,
  Content, result_block, assistant_message, user_message, add, no_usage, cap_error, display,
  ToolSpec, LlmRequest, LlmResponse, StopReason, as_tool_use, tools_list, tool_invoke, llm_complete,
}
use tds_wasm_ai.Agent.Imports.{Imports, emit, reason, settle, fetch, host_call}
use tds_wasm_ai.Agent.Loop.{
  Progress, Turn, finished, again, finish, run_tool, run_tools, follow, take_turn, turns, run_agent,
  list_tools, opening, system_prompt,
}
use mathlib.Core.Bool.{not}
use tds_wasm_ai.Agent.Truncate.{truncate}

-- Two outcomes with one value and related states.
pub record Agrees {S T A : Type 0} (R : S → T → Type 0) (o : A × S) (o' : A × T) : Type 0 where
  pub value : o.0 ≡ o'.0
  pub state : R o.1 o'.1

module _ {S T : Type 0} {R : S → T → Type 0} where
  pub same : {A : Type 0} (a : A) {s : S} {t : T} → R s t → Agrees R (a, s) (a, t)
  same a r = record { value = refl; state = r }

  -- What follows two outcomes that agree.
  pub Agrees-then :
      {A B : Type 0} (o : A × S) (o' : A × T) (f : A → S → B × S) (g : A → T → B × T)
      → Agrees R o o'
      → ((a : A) → o.0 ≡ a → R o.1 o'.1 → Agrees R (f a o.1) (g a o'.1))
      → Agrees R (f o.0 o.1) (g o'.0 o'.1)
  Agrees-then o o' f g agree after =
      subst (λ a. Agrees R (f o.0 o.1) (g a o'.1)) agree.value (after o.0 refl agree.state)

-- The imports of one host simulate those of another: they answer alike, in related states.
pub record Simulates {S T : Type 0} (R : S → T → Type 0) (host : Imports S) (other : Imports T)
    : Type 0 where
  pub log :
      (level : ℤ) (message : List ℕ) (s : S) (t : T)
      → R s t
      → R (host.log level message s) (other.log level message t)
  pub call :
      (name body : List ℕ) (s : S) (t : T)
      → R s t
      → Agrees R (host.call name body s) (other.call name body t)
  -- No length is announced that a 32-bit guest could not fetch.
  pub short : (name body : List ℕ) (t : T) (n : ℕ) → (other.call name body t).0 ≡ pos n → n < 2 ^ 31
  pub fetch :
      (buf : List ℕ) (s : S) (t : T)
      → length buf < 2 ^ 31
      → R s t
      → Agrees R (host.response_read buf s) (other.response_read buf t)
