-- ===== src/System/Direct/Quiet.antt =====
-- The log does not matter to the host's answers.
use tds_wasm_ai.Common.{
  ℕ, ◌*◌, min, ◌≡◌, refl, String, List, length, ltb, leb, ◌==◌, Result, ok, err, inl, inr,
  Bool-cases, Option-cases, arith,
}
use tds_wasm_ai.Common.Int.{ℤ}
use tds_wasm_ai.External.{External}
use tds_wasm_ai.Wire.{Wire}
use tds_wasm_ai.Abi.Types.{LlmRequest, ToolInvokeRequest, tools_list, tool_invoke, llm_complete}
use tds_wasm_ai.Runtime.Memory.{read_guest}
use tds_wasm_ai.Runtime.State.{LlmProvider, Store, HostState}
use tds_wasm_ai.Runtime.Dispatch.{dispatch, list_tools, invoke_tool, complete, complete_turn}
use tds_wasm_ai.Runtime.Calls.{log}
use tds_wasm_ai.System.Direct.{quiet}

pub log-quiet :
    {W : Type 0} (s : Store W) (level : ℤ) (ptr len : ℕ)
    → quiet (log s level ptr len).host ≡ quiet s.host
unfolding log
log-quiet s level ptr len = elim (Option-cases (read_guest s.memory ptr (min len (8 * 1024)))) [
  | inl outside ↦ rw (log, outside) refl
  | inr (bytes, inside) ↦ elim (Bool-cases (ltb (length s.host.logs) 512)) [
    | inl room ↦ rw (log, inside, room) refl
    | inr full ↦ rw (log, inside, full) refl
  ]
]

module _ {V U W : Type 0} (x : External V U W) (wire : Wire V) (llm : LlmProvider V W) where
  abbrev hushed : {A : Type 0} → A × HostState W → A × HostState W
  hushed (a, h) = (a, quiet h)

  complete_turn-quiet :
      (h : HostState W) (r : Result String (LlmRequest V))
      → complete_turn x wire llm (quiet h) r ≡ hushed (complete_turn x wire llm h r)
  unfolding complete_turn
  complete_turn-quiet h (ok req) = refl
  complete_turn-quiet h (err e) = refl

  complete-quiet :
      (h : HostState W) (body : List ℕ)
      → complete x wire llm (quiet h) body ≡ hushed (complete x wire llm h body)
  unfolding complete
  complete-quiet h body = elim (Bool-cases (leb h.policy.limits.max_steps h.llm_calls)) [
    | inl spent ↦ rw (complete, spent) refl
    | inr left ↦ rw (complete, left) (complete_turn-quiet h (wire.llm_request.decode body))
  ]

  invoke_tool-quiet :
      (h : HostState W) (r : Result String (ToolInvokeRequest V))
      → invoke_tool x wire llm (quiet h) r ≡ hushed (invoke_tool x wire llm h r)
  unfolding invoke_tool
  invoke_tool-quiet h (ok req) = refl
  invoke_tool-quiet h (err e) = refl

  -- The log does not matter to what is dispatched.
  pub dispatch-quiet :
      (h : HostState W) (name : String) (body : List ℕ)
      → dispatch x wire llm (quiet h) name body ≡ hushed (dispatch x wire llm h name body)
  unfolding dispatch list_tools
  dispatch-quiet h name body = elim (Bool-cases (name == tools_list)) [
    | inl first ↦ rw (dispatch, first) refl
    | inr not_first ↦ elim (Bool-cases (name == tool_invoke)) [
      | inl second ↦
          rw (dispatch, not_first, second)
            (invoke_tool-quiet h (wire.tool_invoke_request.decode body))
      | inr not_second ↦ elim (Bool-cases (name == llm_complete)) [
        | inl third ↦ rw (dispatch, not_first, not_second, third) (complete-quiet h body)
        | inr other ↦ rw (dispatch, not_first, not_second, other) refl
      ]
    ]
  ]

  complete-policy :
      (h : HostState W) (body : List ℕ) → (complete x wire llm h body).1.policy ≡ h.policy
  unfolding complete complete_turn
  complete-policy h body = ground arith

  invoke_tool-policy :
      (h : HostState W) (r : Result String (ToolInvokeRequest V))
      → (invoke_tool x wire llm h r).1.policy ≡ h.policy
  unfolding invoke_tool
  invoke_tool-policy h (ok req) = refl
  invoke_tool-policy h (err e) = refl

  pub dispatch-policy :
      (h : HostState W) (name : String) (body : List ℕ)
      → (dispatch x wire llm h name body).1.policy ≡ h.policy
  unfolding dispatch list_tools
  dispatch-policy h name body =
      ground
        (arith, complete-policy h body, invoke_tool-policy h (wire.tool_invoke_request.decode body))
