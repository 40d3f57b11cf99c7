-- ===== src/System/Capabilities.antt =====
-- The agent's calls of the two capabilities with a request.
use tds_wasm_ai.Common.{ℕ, ◌^◌, ◌≤◌, ◌<◌, ◌≡◌, List, length, ok, arith}
use tds_wasm_ai.External.{External}
use tds_wasm_ai.Wire.{RoundTrips, Wire}
use tds_wasm_ai.Abi.Types.{ToolInvokeRequest, LlmRequest, tool_invoke, llm_complete}
use tds_wasm_ai.Runtime.State.{LlmProvider, Store}
use tds_wasm_ai.Runtime.Dispatch.{envelope}
use tds_wasm_ai.Agent.Imports.{host_call}
use tds_wasm_ai.System.Guest.{Layout, IsLayout, imports}
use tds_wasm_ai.System.Promises.{
  promise_complete, promise_invoke, Fulfils, fulfilled, complete-promise, invoke-promise,
  named-tool_invoke, named-llm_complete, lengths,
}

module _ {V U W : Type 0} (x : External V U W) (wire : Wire V) (llm : LlmProvider V W)
    (layout : Layout W) (faithful : IsLayout layout) (s : Store W) where
  -- On a layout that keeps its promise, in any state of the host: a call of `llm.complete` by the
  -- agent, with encodings that are decoded again, a request within the limit and below 2^31 bytes,
  -- a response below 2^31 bytes and a limit of turns below 2^32, gives what a completion promises:
  -- a refusal without a call of the provider if the turns are used up, else the provider's answer
  -- to this request with one turn counted. It leaves the host in the promised state, with nothing
  -- pending.
  pub complete-refines :
      (request : LlmRequest V) (body bytes : List ℕ)
      → RoundTrips wire.llm_request
      → RoundTrips wire.llm_response
      → wire.llm_request.encode request ≡ ok body
      → length body ≤ s.host.policy.limits.max_request_bytes
      → length body < 2 ^ 31
      → wire.llm_response.encode (envelope (promise_complete x llm s.host request).0) ≡ ok bytes
      → length bytes < 2 ^ 31
      → s.host.policy.limits.max_steps < 2 ^ 32
      → Fulfils x wire llm
          (host_call
            (imports x wire llm layout)
            wire.llm_request
            wire.llm_response
            llm_complete
            request
            s)
          (promise_complete x llm s.host request)
  complete-refines request body bytes there back sent fits low answer small turns =
      fulfilled x wire llm layout faithful wire.llm_request wire.llm_response llm_complete request
        body bytes s (promise_complete x llm s.host request) back sent named-llm_complete
        (omega (arith, lengths.1)) fits low answer small
        (complete-promise x wire llm s.host request body turns
          (there.decode-encode request body sent))

  -- On a layout that keeps its promise, in any state of the host: a call of `tool.invoke` by the
  -- agent, with encodings that are decoded again, a request within the limit and below 2^31 bytes
  -- and a response below 2^31 bytes, gives the outcome of the tool that it names, and leaves the
  -- host with the tool box and the world that the tool left, with nothing pending.
  pub invoke-refines :
      (request : ToolInvokeRequest V) (body bytes : List ℕ)
      → RoundTrips wire.tool_invoke_request
      → RoundTrips wire.tool_invoke_response
      → wire.tool_invoke_request.encode request ≡ ok body
      → length body ≤ s.host.policy.limits.max_request_bytes
      → length body < 2 ^ 31
      → wire.tool_invoke_response.encode (envelope (promise_invoke x llm s.host request).0)
        ≡ ok bytes
      → length bytes < 2 ^ 31
      → Fulfils x wire llm
          (host_call
            (imports x wire llm layout)
            wire.tool_invoke_request
            wire.tool_invoke_response
            tool_invoke
            request
            s)
          (promise_invoke x llm s.host request)
  invoke-refines request body bytes there back sent fits low answer small =
      fulfilled x wire llm layout faithful wire.tool_invoke_request wire.tool_invoke_response
        tool_invoke request body bytes s (promise_invoke x llm s.host request) back sent
        named-tool_invoke (omega (arith, lengths.0)) fits low answer small
        (invoke-promise x wire llm s.host request body (there.decode-encode request body sent))
