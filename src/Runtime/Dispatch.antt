-- ===== src/Runtime/Dispatch.antt =====
-- crates/tds-host/src/runtime.rs, `respond` and `dispatch`.
use tds_wasm_ai.Common.{
  ℕ, ◌+◌, ◌%◌, ◌^◌, String, List, [], ◌∷◌, ◌==◌, if◌then◌else◌, leb, Result, ok, err, map_ok,
}
use tds_wasm_ai.Common.Text.{format, show}
use tds_wasm_ai.Common.Utf8.{as_bytes}
use tds_wasm_ai.External.{External}
use tds_wasm_ai.Wire.{Codec, Wire}
use tds_wasm_ai.Abi.Types.{
  CapError, CapResponse, ToolInvokeRequest, LlmRequest, cap_error, denied, invalid, not_found,
  tools_list, tool_invoke, llm_complete,
}
use tds_wasm_ai.Tools.Specs.{specs}
use tds_wasm_ai.Tools.Invoke.{invoke}
use tds_wasm_ai.Runtime.State.{LlmProvider, HostState}

abbrev pub envelope : {T : Type 0} → Result CapError T → CapResponse T
envelope (ok value) = CapResponse.ok value
envelope (err error) = CapResponse.err error

-- `unwrap_or_else` on the outcome of an encoder
abbrev or_else : Result String (List ℕ) → (String → List ℕ) → List ℕ
or_else (ok bytes) f = bytes
or_else (err e) f = f e

module _ {V : Type 0} (wire : Wire V) where
  unfoldable pub respond : {T : Type 0} → Codec (CapResponse T) → Result CapError T → List ℕ
  respond codec result = or_else (codec.encode (envelope result)) λ e.
      or_else
        (wire.unit_response.encode (
          CapResponse.err
            (cap_error "internal" (format ("host could not encode its response: " ∷ e ∷ [])))))
        λ _. as_bytes "{\"err\":{}}"

module _ {V U W : Type 0} (x : External V U W) (wire : Wire V) (llm : LlmProvider V W) where
  unfoldable pub list_tools : HostState W → List ℕ × HostState W
  list_tools s =
      (respond wire wire.tools_list_response (ok (record { tools = specs x s.tools.policy })), s)

  unfoldable pub invoke_tool :
      HostState W → Result String (ToolInvokeRequest V) → List ℕ × HostState W
  invoke_tool s (ok req) =
      let o = invoke x s.tools req.name req.input s.world in
      (
        respond wire wire.tool_invoke_response
            (map_ok (λ content. record { content = content }) o.result),
        record s { tools = o.box; world = o.world },
      )
  invoke_tool s (err e) = (
    respond wire wire.tool_invoke_response
        (err (invalid (format ("malformed tool.invoke request: " ∷ e ∷ [])))),
    s,
  )

  unfoldable pub complete_turn : HostState W → Result String (LlmRequest V) → List ℕ × HostState W
  complete_turn s (ok req) =
      let (response, w) = llm.complete req s.world in
      (
        respond wire wire.llm_response response,
        record s { llm_calls = (s.llm_calls + 1) % 2 ^ 32; world = w },
      )
  complete_turn s (err e) = (
    respond wire wire.llm_response
        (err (invalid (format ("malformed llm.complete request: " ∷ e ∷ [])))),
    s,
  )

  unfoldable pub complete : HostState W → List ℕ → List ℕ × HostState W
  complete s request =
      let allowed = s.policy.limits.max_steps in
      if leb allowed s.llm_calls
      then (
        respond wire wire.llm_response (
            err (
              denied
                (format ("this run has already used its " ∷ show allowed ∷ " model turns" ∷ [])))),
        s,
      )
      else complete_turn s (wire.llm_request.decode request)

  -- The response, and the host's state after the call.
  unfoldable pub dispatch : HostState W → String → List ℕ → List ℕ × HostState W
  dispatch s name request =
      if name == tools_list
      then list_tools s
      else if name == tool_invoke
      then invoke_tool s (wire.tool_invoke_request.decode request)
      else if name == llm_complete
      then complete s request
      else (
        respond wire wire.unit_response (
            err
              (not_found (format ("this host provides no capability named " ∷ x.debug name ∷ [])))),
        s,
      )
