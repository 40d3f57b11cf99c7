-- ===== src/System/Denials.antt =====
-- A tool call of the agent that the policy does not permit.
use tds_wasm_ai.Common.{
  ℕ, ◌^◌, ◌≤◌, ◌<◌, ◌≡◌, ◌⊎◌, refl, sym, ap, ◌∙◌, false, true, String, List, [], ◌∷◌, Memᴰ, length,
  Result, ok, err, map_ok, arith,
}
use mathlib.Core.Path.{subst}
use tds_wasm_ai.Common.Text.{format, show}
use tds_wasm_ai.External.{External}
use tds_wasm_ai.Wire.{Wire, RoundTrips}
use tds_wasm_ai.Abi.Types.{
  CapError, ToolInvokeRequest, ToolInvokeResponse, LogLevel, display, result_block, tool_invoke,
}
use tds_wasm_ai.Tools.Invoke.{Outcome, invoke}
use tds_wasm_ai.Tools.Invoke.Laws.{invoke_unlisted}
use tds_wasm_ai.Tools.Specs.Laws.{shown}
use tds_wasm_ai.Runtime.State.{LlmProvider, Store, HostState}
use tds_wasm_ai.Runtime.Dispatch.{envelope}
use tds_wasm_ai.Agent.Imports.{emit, host_call}
use tds_wasm_ai.Agent.Truncate.{truncate}
use tds_wasm_ai.Agent.Loop.{run_tool}
use tds_wasm_ai.System.Guest.{Layout, IsLayout, imports}
use tds_wasm_ai.System.Promises.{promise_invoke}
use tds_wasm_ai.System.Capabilities.{invoke-refines}
use tds_wasm_ai.System.Direct.{quiet}
use tds_wasm_ai.System.Direct.Answers.{guest_log-quiet}

module _ {V U W : Type 0} (x : External V U W) (wire : Wire V) (llm : LlmProvider V W)
    (layout : Layout W) (faithful : IsLayout layout) where
  -- The log line before a call changes nothing else of the host.
  logged-quiet :
      (level : LogLevel) (message : String) (s : Store W)
      → quiet (emit (imports x wire llm layout) level message s).host ≡ quiet s.host
  unfolding emit
  logged-quiet level message s = guest_log-quiet x wire llm layout faithful _ _ s

  promise_invoke-refused :
      (h : HostState W) (request : ToolInvokeRequest V) (e : CapError)
      → invoke x h.tools request.name request.input h.world
        ≡ record { result = err e; box = h.tools; world = h.world }
      → promise_invoke x llm h request ≡ (err e, h)
  unfolding promise_invoke
  promise_invoke-refused h request e same =
      ap
        (λ (o : Outcome W). (
          map_ok (λ content. record { content = content }) o.result,
          record h { tools = o.box; world = o.world },
        ))
        same

  -- On a layout that keeps its promise, with encodings that are decoded again, a request within the
  -- limit and below 2^31 bytes and a response below 2^31 bytes: where the model asks for a tool
  -- that the agent is not shown, the agent records a call that failed and answers the model with an
  -- error, both with the host's refusal, which is `denied` or `not_found`; and neither the
  -- scratchpad nor the world changes.
  pub run_tool_unlisted :
      (step : ℕ) (id name : String) (args : V) (s : Store W) (body bytes : List ℕ)
      → let request : ToolInvokeRequest V = record { name = name; input = args } in
        RoundTrips wire.tool_invoke_request
        → RoundTrips wire.tool_invoke_response
        → ¬ Memᴰ name (shown x s.host.tools.policy)
        → wire.tool_invoke_request.encode request ≡ ok body
        → length body ≤ s.host.policy.limits.max_request_bytes
        → length body < 2 ^ 31
        → wire.tool_invoke_response.encode (envelope (promise_invoke x llm s.host request).0)
          ≡ ok bytes
        → length bytes < 2 ^ 31
        → let o = run_tool wire (imports x wire llm layout) step id name args s in
          (e : CapError) × ((e.kind ≡ "denied") ⊎ (e.kind ≡ "not_found"))
          × (o.0 ≡ (
            record {
              step = step;
              name = name;
              input = args;
              ok = false;
              result = truncate (display e) 512;
            },
            result_block id (display e) true,
          ))
          × (o.1.host.tools ≡ s.host.tools)
          × (o.1.host.world ≡ s.host.world)
  unfolding run_tool promise_invoke
  run_tool_unlisted step id name args s body bytes there back unlisted sent fits low answer small =
      let request : ToolInvokeRequest V = record { name = name; input = args } in
      let t =
        emit (imports x wire llm layout) LogLevel.info
          (format ("step " ∷ show step ∷ ": calling tool " ∷ name ∷ [])) s in
      let same : quiet t.host ≡ quiet s.host = logged-quiet LogLevel.info _ s in
      let (e, refused, kind) =
        invoke_unlisted x t.host.tools name args t.host.world
          (subst (λ (h : HostState W). ¬ Memᴰ name (shown x h.tools.policy)) (sym same) unlisted) in
      let promised = promise_invoke-refused t.host request e refused in
      let (value, state) =
        invoke-refines x wire llm layout faithful t request body bytes there back sent
          (omega (arith, fits, ap (λ (h : HostState W). h.policy.limits.max_request_bytes) same))
          low
          (ap
              (λ (h : HostState W).
                wire.tool_invoke_response.encode (envelope (promise_invoke x llm h request).0))
              same
            ∙ answer)
          small in
      let o =
        host_call (imports x wire llm layout) wire.tool_invoke_request wire.tool_invoke_response
          tool_invoke request t in
      let failed : o.0 ≡ err e =
        value ∙ ap (λ (p : Result CapError ToolInvokeResponse × HostState W). p.0) promised in
      let left : quiet o.1.host ≡ quiet (record t.host { pending = [] }) =
        ap quiet state
        ∙ ap
            (λ (p : Result CapError ToolInvokeResponse × HostState W).
              quiet (record p.1 { pending = [] }))
            promised in
      (
        e,
        kind,
        rw failed refl,
        ap (λ (h : HostState W). h.tools) left ∙ ap (λ (h : HostState W). h.tools) same,
        ap (λ (h : HostState W). h.world) left ∙ ap (λ (h : HostState W). h.world) same,
      )
