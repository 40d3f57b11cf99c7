-- ===== src/System/Direct/Refusals.antt =====
-- A capability call of the agent that the host refuses before it dispatches it.
use tds_wasm_ai.Common.{
  ℕ, ◌^◌, ◌<◌, ◌≡◌, refl, ap, ◌∙◌, true, false, ◌||◌, String, List, [], ◌∷◌, length,
  length-replicate, replicate, eqb, ltb, Result, ok, err, arith,
}
use tds_wasm_ai.Common.Int.{ℤ, pos, as_i32, as_i32-pos, eqb_ℤ}
use tds_wasm_ai.Common.Utf8.{as_bytes}
use tds_wasm_ai.External.{External}
use tds_wasm_ai.Wire.{Codec, Wire}
use tds_wasm_ai.Abi.Types.{CapError, CapResponse, into_result}
use tds_wasm_ai.Runtime.State.{LlmProvider, Store, HostState}
use tds_wasm_ai.Runtime.Dispatch.{respond}
use tds_wasm_ai.Agent.Imports.{fetch, settle, host_call}
use tds_wasm_ai.Agent.Loop.Simulation.Capabilities.{served, host_call-Agrees}
use tds_wasm_ai.System.Guest.{Layout, IsLayout, imports}
use tds_wasm_ai.System.Direct.{quiet, too_large, announce, direct_call, direct_read, direct}
use tds_wasm_ai.System.Direct.Answers.{Mirrors, imports-Simulates}

module _ {V U W : Type 0} (x : External V U W) (wire : Wire V) (llm : LlmProvider V W) where
  module _ {Res : Type 0} (received : Codec (CapResponse Res)) (name : String) where
    settle-decoded :
        (n : ℕ) (bytes : List ℕ) (h : HostState W) (response : CapResponse Res)
        → received.decode bytes ≡ ok response
        → settle (direct x wire llm) received name n ((pos n, bytes), h) ≡ (into_result response, h)
    unfolding settle eqb_ℤ
    settle-decoded n bytes h response decoded =
        let all : eqb n n ≡ true = ground arith in rw (settle, all, decoded) refl

    -- What is pending is fetched and decoded.
    fetch-decoded :
        (h : HostState W) (bytes : List ℕ) (response : CapResponse Res)
        → h.pending ≡ bytes
        → received.decode bytes ≡ ok response
        → length bytes < 2 ^ 31
        → fetch (direct x wire llm) received name (length bytes) h
          ≡ (into_result response, record h { pending = [] })
    unfolding fetch direct_read
    fetch-decoded h [] response waits decoded small =
        settle-decoded 0 [] h response decoded
        ∙ ap (λ p. (into_result response, record h { pending = p })) waits
    fetch-decoded h (b ∷ bytes) response waits decoded small =
        let n = length (b ∷ bytes) in
        let buf : List ℕ = replicate n 0 in
        let long : length buf ≡ n = length-replicate {A = ℕ} n 0 in
        let some_ : eqb n 0 ≡ false = ground arith in
        let all : eqb (length h.pending) (length buf) ≡ true =
          ground (arith, long, ap (λ (p : List ℕ). length p) waits) in
        let whole : as_i32 (length buf) ≡ pos n = ap as_i32 long ∙ as_i32-pos n small in
        rw (fetch, some_, direct_read, all, whole, waits)
          (settle-decoded n (b ∷ bytes) (record h { pending = [] }) response decoded)

    direct-oversized :
        {Req : Type 0} (sent : Codec Req) (request : Req) (body : List ℕ) (h : HostState W)
        → let limit = h.policy.limits.max_request_bytes in
          let e = too_large (length body) limit in
          let answer = respond wire wire.unit_response (err e) in
          sent.encode request ≡ ok body
          → limit < length body
          → received.decode answer ≡ ok (CapResponse.err e)
          → length answer < 2 ^ 31
          → host_call (direct x wire llm) sent received name request h
            ≡ (err e, record h { pending = [] })
    unfolding host_call direct_call announce into_result
    direct-oversized sent request body h encoded large decoded small =
        let limit = h.policy.limits.max_request_bytes in
        let e = too_large (length body) limit in
        let answer = respond wire wire.unit_response (err e) in
        let over : (ltb limit (length body) || ltb 256 (length (as_bytes name))) ≡ true =
          ground (arith, large) in
        let count : as_i32 (length answer) ≡ pos (length answer) =
          as_i32-pos (length answer) small in
        let called : (direct x wire llm).call (as_bytes name) body h
            ≡ (pos (length answer), record h { pending = answer }) =
          rw (direct_call, over, announce, count) refl in
        rw (host_call, encoded)
          (ap (λ (o : ℤ × HostState W). served received name (direct x wire llm) o.0 o.1) called
            ∙ fetch-decoded (record h { pending = answer }) answer (CapResponse.err e) refl decoded
                small)

  -- On a layout that keeps its promise, under a policy whose requests have fewer than 2^31 bytes: a
  -- capability call of the agent, of whatever name, whose encoded request is longer than the policy
  -- allows fails with the host's refusal, if its encoding has fewer than 2^31 bytes and is decoded
  -- as that refusal, and leaves the host as it was, its log lines aside, with nothing pending.
  pub oversized-eq-err :
      (layout : Layout W) (faithful : IsLayout layout) {Req Res : Type 0} (sent : Codec Req)
      (received : Codec (CapResponse Res)) (name : String) (request : Req) (body : List ℕ)
      (s : Store W)
      → let limit = s.host.policy.limits.max_request_bytes in
        let e = too_large (length body) limit in
        let answer = respond wire wire.unit_response (err e) in
        limit < 2 ^ 31
        → sent.encode request ≡ ok body
        → limit < length body
        → received.decode answer ≡ ok (CapResponse.err e)
        → length answer < 2 ^ 31
        → let o = host_call (imports x wire llm layout) sent received name request s in
          (o.0 ≡ err e) × (quiet o.1.host ≡ quiet (record s.host { pending = [] }))
  oversized-eq-err layout faithful {Req} {Res} sent received name request body s low encoded large
        decoded small =
      let agree =
        host_call-Agrees (imports x wire llm layout) (direct x wire llm) Mirrors
          (imports-Simulates x wire llm layout faithful) received name sent request s (quiet s.host)
          (record { host = refl; limit = low }) in
      let refused =
        direct-oversized received name sent request body (quiet s.host) encoded large decoded
          small in
      (
        agree.value ∙ ap (λ (o : Result CapError Res × HostState W). o.0) refused,
        agree.state.host ∙ ap (λ (o : Result CapError Res × HostState W). o.1) refused,
      )
