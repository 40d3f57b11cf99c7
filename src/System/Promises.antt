-- ===== src/System/Promises.antt =====
-- What the two capabilities with a request promise, without memory, encodings or a pending response.
use tds_wasm_ai.Common.{
  ℕ, ◌+◌, ◌%◌, ◌^◌, ◌≤◌, ◌<◌, ◌≡◌, refl, ◌∙◌, ap, Bool-cases, inl, inr, String, some, List, [], ◌∷◌,
  length, leb, if◌then◌else◌, Result, ok, err, map_ok, arith,
}
use tds_wasm_ai.Common.Text.{format, show}
use tds_wasm_ai.Common.Utf8.{as_bytes, encode_scalar, from_utf8, decode, advance}
use tds_wasm_ai.External.{External}
use tds_wasm_ai.Wire.{Codec, RoundTrips, Wire}
use tds_wasm_ai.Abi.Types.{
  CapError, CapResponse, ToolInvokeRequest, ToolInvokeResponse, LlmRequest, LlmResponse, denied,
  into_result, tool_invoke, llm_complete,
}
use tds_wasm_ai.Tools.Invoke.{invoke}
use tds_wasm_ai.Runtime.State.{LlmProvider, Store, HostState}
use tds_wasm_ai.Runtime.Dispatch.{envelope, respond, dispatch, complete, complete_turn, invoke_tool}
use tds_wasm_ai.Agent.Imports.{host_call}
use tds_wasm_ai.System.Guest.{Layout, IsLayout, imports}
use tds_wasm_ai.System.Refinement.{emptied, host_call-dispatch}

module _ {V U W : Type 0} (x : External V U W) (llm : LlmProvider V W) where
  -- A completion, until the turns of the policy are used up.
  unfoldable pub promise_complete :
      HostState W → LlmRequest V → Result CapError (LlmResponse V) × HostState W
  promise_complete h request =
      if leb h.policy.limits.max_steps h.llm_calls
      then (
        err (
            denied (
              format (
                "this run has already used its "
                ∷ show h.policy.limits.max_steps
                ∷ " model turns"
                ∷ []))),
        h,
      )
      else let (r, w) = llm.complete request h.world in
        (r, record h { llm_calls = h.llm_calls + 1; world = w })

  unfoldable pub promise_invoke :
      HostState W → ToolInvokeRequest V → Result CapError ToolInvokeResponse × HostState W
  promise_invoke h request =
      let o = invoke x h.tools request.name request.input h.world in
      (
        map_ok (λ content. record { content = content }) o.result,
        record h { tools = o.box; world = o.world },
      )

into_result-envelope : {T : Type 0} (r : Result CapError T) → into_result (envelope r) ≡ r
unfolding into_result
into_result-envelope (ok a) = refl
into_result-envelope (err e) = refl

module _ {V U W : Type 0} (x : External V U W) (wire : Wire V) (llm : LlmProvider V W) where
  respond-encoded :
      {T : Type 0} (codec : Codec (CapResponse T)) (r : Result CapError T) (bytes : List ℕ)
      → codec.encode (envelope r) ≡ ok bytes
      → respond wire codec r ≡ bytes
  unfolding respond
  respond-encoded codec r bytes h = rw (respond, h) refl

  -- How a call of the agent keeps a promise: the value is the promised one, and so is the host's state,
  -- but that nothing is pending.
  abbrev pub Fulfils :
      {T : Type 0} → Result CapError T × Store W → Result CapError T × HostState W → Type 0
  Fulfils o promised = (o.0 ≡ promised.0) × (o.1.host ≡ emptied promised.1)

  module _ (layout : Layout W) (faithful : IsLayout layout) where
    -- A dispatch that keeps a promise, under encodings that are decoded again.
    pub fulfilled :
        {Req Res : Type 0} (sent : Codec Req) (received : Codec (CapResponse Res)) (name : String)
        (request : Req) (body bytes : List ℕ) (s : Store W)
        (promised : Result CapError Res × HostState W)
        → RoundTrips received
        → sent.encode request ≡ ok body
        → from_utf8 (as_bytes name) ≡ some name
        → length (as_bytes name) ≤ 256
        → length body ≤ s.host.policy.limits.max_request_bytes
        → length body < 2 ^ 31
        → received.encode (envelope promised.0) ≡ ok bytes
        → length bytes < 2 ^ 31
        → dispatch x wire llm s.host name body ≡ (respond wire received promised.0, promised.1)
        → Fulfils (host_call (imports x wire llm layout) sent received name request s) promised
    fulfilled sent received name request body bytes s promised back encoded named short fits low
          answer small served =
        let d = dispatch x wire llm s.host name body in
        let is : d.0 ≡ bytes =
          ap (λ (o : List ℕ × HostState W). o.0) served
          ∙ respond-encoded received promised.0 bytes answer in
        let (value, state) =
          host_call-dispatch x wire llm layout faithful sent received name request body s
            (envelope promised.0) encoded named short fits low
            (ap received.decode is ∙ back.decode-encode (envelope promised.0) bytes answer)
            (omega (arith, small, ap (λ (b : List ℕ). length b) is)) in
        (
          value ∙ into_result-envelope promised.0,
          state ∙ ap (λ (o : List ℕ × HostState W). emptied o.1) served,
        )

  pub complete-promise :
      (h : HostState W) (request : LlmRequest V) (body : List ℕ)
      → h.policy.limits.max_steps < 2 ^ 32
      → wire.llm_request.decode body ≡ ok request
      → dispatch x wire llm h llm_complete body ≡ (
        respond wire wire.llm_response (promise_complete x llm h request).0,
        (promise_complete x llm h request).1,
      )
  unfolding dispatch complete complete_turn promise_complete
  complete-promise h request body small decoded =
      elim (Bool-cases (leb h.policy.limits.max_steps h.llm_calls)) [
        | inl used ↦ rw (complete, promise_complete, used) refl
        | inr left ↦
            let one_more : (h.llm_calls + 1) % 2 ^ 32 ≡ h.llm_calls + 1 = ground arith in
            rw (complete, promise_complete, left, decoded, complete_turn, one_more) refl
      ]

  pub invoke-promise :
      (h : HostState W) (request : ToolInvokeRequest V) (body : List ℕ)
      → wire.tool_invoke_request.decode body ≡ ok request
      → dispatch x wire llm h tool_invoke body ≡ (
        respond wire wire.tool_invoke_response (promise_invoke x llm h request).0,
        (promise_invoke x llm h request).1,
      )
  unfolding dispatch invoke_tool promise_invoke
  invoke-promise h request body decoded = rw (decoded, invoke_tool) refl

pub named-tool_invoke : from_utf8 (as_bytes tool_invoke) ≡ some tool_invoke
unfolding as_bytes encode_scalar from_utf8 decode advance
named-tool_invoke = refl

pub named-llm_complete : from_utf8 (as_bytes llm_complete) ≡ some llm_complete
unfolding as_bytes encode_scalar from_utf8 decode advance
named-llm_complete = refl

pub lengths : (length (as_bytes tool_invoke) ≡ 11) × (length (as_bytes llm_complete) ≡ 12)
unfolding as_bytes encode_scalar
lengths = (refl, refl)
