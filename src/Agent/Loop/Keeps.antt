-- ===== src/Agent/Loop/Keeps.antt =====
-- What the three imports keep, a run of the agent keeps: it touches the world in no other way.
use tds_wasm_ai.Common.{
  ℕ, zero, suc, max, eqb, Bool-cases, Result-cases, inl, inr, String, List, [], ◌∷◌, filter_map,
  is_empty, ◌==◌, replicate, Result, ok, err, sym,
}
use mathlib.Core.Path.{subst}
use tds_wasm_ai.Common.Int.{ℤ, pos, negsuc}
use tds_wasm_ai.Common.Text.{format, show}
use tds_wasm_ai.Common.Utf8.{as_bytes}
use tds_wasm_ai.External.{Json}
use tds_wasm_ai.Wire.{Codec, Wire}
use tds_wasm_ai.Abi.Types.{
  AgentInput, CapError, CapResponse, LogLevel, ToolSpec, LlmResponse, cap_error, as_tool_use,
  tools_list, tool_invoke, llm_complete,
}
use tds_wasm_ai.Agent.Imports.{Imports, emit, fetch, host_call, reason}
use tds_wasm_ai.Agent.Imports.Laws.{settle-state}
use tds_wasm_ai.Agent.Loop.{
  Progress, run_tool, run_tools, follow, take_turn, turns, run_agent, list_tools,
}
use tds_wasm_ai.Agent.Loop.Tooling.{take_turn-Decided, asking}

module _ {V S : Type 0} (wire : Wire V) (host : Imports S) where
  -- A property of the world that the imports keep.
  pub record IsKept (Q : S → Type 0) : Type 0 where
    pub log : (level : ℤ) (message : List ℕ) (s : S) → Q s → Q (host.log level message s)
    pub call : (name body : List ℕ) (s : S) → Q s → Q (host.call name body s).1
    pub fetch : (buf : List ℕ) (s : S) → Q s → Q (host.response_read buf s).1

  module _ (Q : S → Type 0) (k : IsKept Q) where
    emit-keeps : (level : LogLevel) (message : String) (s : S) → Q s → Q (emit host level message s)
    unfolding emit
    emit-keeps level message s q = k.log _ _ s q

    fetch-keeps :
        {Res : Type 0} (codec : Codec (CapResponse Res)) (name : String) (n : ℕ) (s : S)
        → Q s
        → Q (fetch host codec name n s).1
    unfolding fetch
    fetch-keeps codec name n s q = elim (Bool-cases (eqb n 0)) [
      | inl nothing ↦
          rw (fetch, nothing)
            (subst Q (sym (settle-state host codec codec name n ((pos 0, []), s))) q)
      | inr some ↦
          let o = host.response_read (replicate n 0) s in
          rw (fetch, some)
            (subst Q (sym (settle-state host codec codec name n o)) (k.fetch (replicate n 0) s q))
    ]

    served :
        {Res : Type 0} (codec : Codec (CapResponse Res)) (name : String) (n : ℤ) (t : S)
        → Q t
        → Q
            (elim n as (λ _. Result CapError Res × S) [
              | negsuc k ↦
                  (err (cap_error "host" (format (name ∷ ": " ∷ reason (negsuc k) ∷ []))), t)
              | pos k ↦ fetch host codec name k t
            ]).1
    served codec name (negsuc n) t q = q
    served codec name (pos n) t q = fetch-keeps codec name n t q

    host_call-keeps :
        {Req Res : Type 0} (sent : Codec Req) (received : Codec (CapResponse Res)) (name : String)
        (request : Req) (s : S)
        → Q s
        → Q (host_call host sent received name request s).1
    unfolding host_call
    host_call-keeps sent received name request s q = elim (Result-cases (sent.encode request)) [
      | inr (e, bad) ↦ rw (host_call, bad) q
      | inl (body, good) ↦
          let o = host.call (as_bytes name) body s in
          rw (host_call, good) (served received name o.0 o.1 (k.call (as_bytes name) body s q))
    ]

    either :
        {A B : Type 0} (r : Result CapError A) (f : A → B × S) (g : CapError → B × S)
        → ((a : A) → Q (f a).1)
        → ((e : CapError) → Q (g e).1)
        → Q (elim r as (λ _. B × S) [ ok a ↦ f a | err e ↦ g e ]).1
    either (ok a) f g hf hg = hf a
    either (err e) f g hf hg = hg e

    run_tools-keeps :
        (step : ℕ) (requested : List (String × String × V)) (s : S)
        → Q s
        → Q (run_tools wire host step requested s).1
    unfolding run_tools run_tool
    run_tools-keeps step [] s q = q
    run_tools-keeps step ((id, name, args) ∷ requested) s q =
        run_tools-keeps step requested (run_tool wire host step id name args s).1 (
          host_call-keeps wire.tool_invoke_request wire.tool_invoke_response tool_invoke
            (record { name = name; input = args })
            (emit host LogLevel.info (format ("step " ∷ show step ∷ ": calling tool " ∷ name ∷ []))
              s)
            (emit-keeps LogLevel.info _ s q))

    follow-keeps :
        (step : ℕ) (p : Progress V) (response : LlmResponse V) (s : S)
        → Q s
        → Q (follow wire host step p response s).1
    unfolding follow
    follow-keeps step p response s q = elim (Bool-cases (response.stop_reason == "refusal")) [
      | inl refused ↦ rw (follow, refused) q
      | inr willing ↦ elim (Bool-cases (is_empty (filter_map as_tool_use response.content))) [
        | inl idle ↦ rw (follow, willing, idle) q
        | inr asked ↦ rw (follow, willing, asked) (run_tools-keeps step _ s q)
      ]
    ]

    take_turn-keeps :
        (tools : List (ToolSpec V)) (step : ℕ) (p : Progress V) (s : S)
        → Q s
        → Q (take_turn wire host tools step p s).1
    unfolding take_turn
    take_turn-keeps tools step p s q =
        let o = asking wire host tools p s in
        let kept : Q o.1 = host_call-keeps wire.llm_request wire.llm_response llm_complete _ s q in
        either o.0 _ _ (λ response. follow-keeps step p response o.1 kept)
          (λ e. emit-keeps LogLevel.error _ o.1 kept)

    turns-keeps :
        (tools : List (ToolSpec V)) (left step : ℕ) (p : Progress V) (s : S)
        → Q s
        → Q (turns wire host tools left step p s).1
    unfolding turns
    turns-keeps tools zero step p s q = emit-keeps LogLevel.warn _ s q
    turns-keeps tools (suc left) step p s q =
        let o = take_turn wire host tools step p s in
        elim (take_turn-Decided wire host tools step p s) [
          | inl (out, e, ends) ↦ rw (turns, e) (take_turn-keeps tools step p s q)
          | inr (next, e, goes_on) ↦
              rw (turns, e)
                (turns-keeps tools left (suc step) next o.1 (take_turn-keeps tools step p s q))
        ]

    list_tools-keeps : (json : Json V) (s : S) → Q s → Q (list_tools json wire host s).1
    unfolding list_tools
    list_tools-keeps json s q =
        let o = host_call host wire.value wire.tools_list_response tools_list (json.object []) s in
        let kept : Q o.1 =
          host_call-keeps wire.value wire.tools_list_response tools_list (json.object []) s q in
        either o.0 _ _ (λ found. kept) (λ e. emit-keeps LogLevel.warn _ o.1 kept)

    -- A run of the agent keeps every property of the world that the three imports keep.
    pub run_agent-keeps :
        (json : Json V) (input : AgentInput) (s : S) → Q s → Q (run_agent json wire host input s).1
    unfolding run_agent
    run_agent-keeps json input s q =
        turns-keeps _ (max input.max_steps 1) 1 _ _
          (emit-keeps LogLevel.info _ _ (list_tools-keeps json s q))
