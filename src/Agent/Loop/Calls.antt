-- ===== src/Agent/Loop/Calls.antt =====
-- How often a run of the agent calls the model.
use native.Mathlib.Nat.{le_refl}
use tds_wasm_ai.Common.{
  ℕ, zero, suc, ◌+◌, ◌≤◌, max, ◌≢◌, ap, String, List, [], ◌∷◌, replicate, filter_map, Result, ok,
  err, eqb, inl, inr, Bool-cases, Result-cases, arith,
}
use tds_wasm_ai.Common.Int.{ℤ, pos, negsuc}
use tds_wasm_ai.Common.Utf8.{as_bytes, encode_scalar}
use tds_wasm_ai.Common.Text.{format, show}
use tds_wasm_ai.External.{Json}
use tds_wasm_ai.Wire.{Wire, Codec}
use tds_wasm_ai.Abi.Types.{
  AgentInput, CapError, cap_error, warn, info, as_tool_use, CapResponse, LogLevel, ToolSpec,
  LlmResponse, llm_complete, tools_list, tool_invoke,
}
use tds_wasm_ai.Agent.Imports.{Imports, emit, fetch, host_call, reason}
use tds_wasm_ai.Agent.Imports.Laws.{settle-state}
use tds_wasm_ai.Agent.Loop.{
  Progress, run_tool, run_tools, follow, take_turn, turns, run_agent, list_tools,
}
use tds_wasm_ai.Agent.Loop.Tooling.{take_turn-Decided, asking}

tool_invoke-differs : as_bytes tool_invoke ≢ as_bytes llm_complete
unfolding as_bytes encode_scalar
tool_invoke-differs e = ground arith

tools_list-differs : as_bytes tools_list ≢ as_bytes llm_complete
unfolding as_bytes encode_scalar
tools_list-differs e = ground arith

module _ {V S : Type 0} (wire : Wire V) (host : Imports S) where
  -- A count of the model calls that the world has seen: a host call adds at most one, and none if it is
  -- of another capability; writing a log line or fetching a response adds none.
  pub record IsCount (count : S → ℕ) : Type 0 where
    pub log : (level : ℤ) (message : List ℕ) (s : S) → count (host.log level message s) ≤ count s
    pub fetch : (buf : List ℕ) (s : S) → count (host.response_read buf s).1 ≤ count s
    pub call : (name body : List ℕ) (s : S) → count (host.call name body s).1 ≤ count s + 1
    pub other :
        (name body : List ℕ) (s : S)
        → name ≢ as_bytes llm_complete
        → count (host.call name body s).1 ≤ count s

  module _ (count : S → ℕ) (c : IsCount count) where
    fetch-count :
        {Res : Type 0} (codec : Codec (CapResponse Res)) (name : String) (n : ℕ) (s : S)
        → count (fetch host codec name n s).1 ≤ count s
    unfolding fetch
    fetch-count codec name n s = elim (Bool-cases (eqb n 0)) [
      | inl nothing ↦
          rw (fetch, nothing)
            (omega (arith, ap count (settle-state host codec codec name n ((pos 0, []), s))))
      | inr some ↦
          let o = host.response_read (replicate n 0) s in
          rw (fetch, some)
            (omega
              (arith, ap count (settle-state host codec codec name n o), c.fetch (replicate n 0) s))
    ]

    served :
        {Res : Type 0} (codec : Codec (CapResponse Res)) (name : String) (n : ℤ) (t : S) {bound : ℕ}
        → count t ≤ bound
        → count
            (elim n as (λ _. Result CapError Res × S) [
              | negsuc k ↦
                  (err (cap_error "host" (format (name ∷ ": " ∷ reason (negsuc k) ∷ []))), t)
              | pos k ↦ fetch host codec name k t
            ]).1
          ≤ bound
    served codec name (negsuc k) t h = h
    served codec name (pos k) t h = omega (arith, h, fetch-count codec name k t)

    host_call-count :
        {Req Res : Type 0} (sent : Codec Req) (received : Codec (CapResponse Res)) (name : String)
        (request : Req) (s : S) (k : ℕ)
        → ((body : List ℕ) → count (host.call (as_bytes name) body s).1 ≤ count s + k)
        → count (host_call host sent received name request s).1 ≤ count s + k
    unfolding host_call
    host_call-count sent received name request s k h = elim (Result-cases (sent.encode request)) [
      | inr (e, bad) ↦ rw (host_call, bad) (omega arith)
      | inl (body, good) ↦
          rw (host_call, good)
            (served received name (host.call (as_bytes name) body s).0
              (host.call (as_bytes name) body s).1 (h body))
    ]

    emit-count :
        (level : LogLevel) (message : String) (s : S) → count (emit host level message s) ≤ count s
    unfolding emit
    emit-count level message s = c.log _ _ s

    -- A capability other than the model.
    other-count :
        {Req Res : Type 0} (sent : Codec Req) (received : Codec (CapResponse Res)) (name : String)
        (request : Req) (s : S)
        → as_bytes name ≢ as_bytes llm_complete
        → count (host_call host sent received name request s).1 ≤ count s
    other-count sent received name request s differs = omega (
      arith,
      host_call-count sent received name request s 0
          (λ body. omega (arith, c.other (as_bytes name) body s differs)),
    )

    either :
        {A B : Type 0} (r : Result CapError A) (f : A → B × S) (g : CapError → B × S) {bound : ℕ}
        → ((a : A) → count (f a).1 ≤ bound)
        → ((e : CapError) → count (g e).1 ≤ bound)
        → count (elim r as (λ _. B × S) [ ok a ↦ f a | err e ↦ g e ]).1 ≤ bound
    either (ok a) f g hf hg = hf a
    either (err e) f g hf hg = hg e

    run_tool-count :
        (step : ℕ) (id name : String) (args : V) (s : S)
        → count (run_tool wire host step id name args s).1 ≤ count s
    unfolding run_tool
    run_tool-count step id name args s = omega (
      arith,
      emit-count info (format ("step " ∷ show step ∷ ": calling tool " ∷ name ∷ [])) s,
      other-count wire.tool_invoke_request wire.tool_invoke_response tool_invoke
          (record { name = name; input = args })
          (emit host info (format ("step " ∷ show step ∷ ": calling tool " ∷ name ∷ [])) s)
          tool_invoke-differs,
    )

    run_tools-count :
        (step : ℕ) (requested : List (String × String × V)) (s : S)
        → count (run_tools wire host step requested s).1 ≤ count s
    unfolding run_tools
    run_tools-count step [] s = le_refl _
    run_tools-count step ((id, name, args) ∷ requested) s = omega (
      arith,
      run_tool-count step id name args s,
      run_tools-count step requested (run_tool wire host step id name args s).1,
    )

    follow-count :
        (step : ℕ) (p : Progress V) (response : LlmResponse V) (s : S)
        → count (follow wire host step p response s).1 ≤ count s
    unfolding follow
    follow-count step p response s =
        ground (arith, run_tools-count step (filter_map as_tool_use response.content) s)

    take_turn-count :
        (tools : List (ToolSpec V)) (step : ℕ) (p : Progress V) (s : S)
        → count (take_turn wire host tools step p s).1 ≤ count s + 1
    unfolding take_turn
    take_turn-count tools step p s =
        let o = asking wire host tools p s in
        let once : count o.1 ≤ count s + 1 =
          host_call-count wire.llm_request wire.llm_response llm_complete _ s 1
            (λ body. c.call _ _ s) in
        either o.0 _ _ (λ response. omega (arith, once, follow-count step p response o.1))
          (λ e. omega (arith, once, emit-count LogLevel.error _ o.1))

    turns-count :
        (tools : List (ToolSpec V)) (left step : ℕ) (p : Progress V) (s : S)
        → count (turns wire host tools left step p s).1 ≤ count s + left
    unfolding turns
    turns-count tools zero step p s = omega (arith, emit-count warn "agent hit its step limit" s)
    turns-count tools (suc left) step p s =
        let o = take_turn wire host tools step p s in
        elim (take_turn-Decided wire host tools step p s) [
          | inl (out, e, ends) ↦ rw (turns, e) (omega (arith, take_turn-count tools step p s))
          | inr (q, e, goes_on) ↦
              rw (turns, e)
                (omega
                  (arith, take_turn-count tools step p s, turns-count tools left (suc step) q o.1))
        ]

    list_tools-count : (json : Json V) (s : S) → count (list_tools json wire host s).1 ≤ count s
    unfolding list_tools
    list_tools-count json s =
        let o = host_call host wire.value wire.tools_list_response tools_list (json.object []) s in
        let none_made : count o.1 ≤ count s =
          other-count wire.value wire.tools_list_response tools_list (json.object []) s
            tools_list-differs in
        either o.0 _ _ (λ found. none_made) (λ e. omega (arith, none_made, emit-count warn _ o.1))

    -- A run of the agent calls the model at most `max_steps` times (once, if that is 0), by any
    -- count of the calls, whatever the host answers.
    pub run_agent-count :
        (json : Json V) (input : AgentInput) (s : S)
        → count (run_agent json wire host input s).1 ≤ count s + max input.max_steps 1
    unfolding run_agent
    run_agent-count json input s = omega (
      arith,
      list_tools-count json s,
      emit-count info _ _,
      turns-count _ (max input.max_steps 1) 1 _ _,
    )
