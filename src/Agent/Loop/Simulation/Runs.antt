-- ===== src/Agent/Loop/Simulation/Runs.antt =====
-- The runs of the agent on two sets of imports that answer alike.
use tds_wasm_ai.Common.{
  ℕ, zero, suc, ◌-◌, max, refl, Bool-cases, inl, inr, String, Bool, true, false, some, List, [],
  ◌∷◌, ◌++◌, filter_map, is_empty, ◌==◌, length, Result, ok, err,
}
use tds_wasm_ai.Common.Text.{format, show}
use tds_wasm_ai.External.{Json}
use tds_wasm_ai.Wire.{Wire}
use tds_wasm_ai.Abi.Types.{
  AgentInput, AgentOutput, CapError, LogLevel, ToolInvokeResponse, ToolCallRecord, Content,
  result_block, assistant_message, user_message, add, no_usage, display, ToolSpec, LlmRequest,
  LlmResponse, StopReason, as_tool_use, tools_list, tool_invoke, llm_complete,
}
use tds_wasm_ai.Agent.Imports.{Imports, emit, host_call}
use tds_wasm_ai.Agent.Loop.{
  Progress, Turn, finished, again, finish, run_tool, run_tools, follow, take_turn, turns, run_agent,
  list_tools, opening, system_prompt,
}
use mathlib.Core.Bool.{not}
use tds_wasm_ai.Agent.Truncate.{truncate}
use tds_wasm_ai.Agent.Loop.Simulation.{Agrees, same, Agrees-then, Simulates}
use tds_wasm_ai.Agent.Loop.Simulation.Capabilities.{emit-simulated, host_call-Agrees, either}

module _ {V S T : Type 0} (wire : Wire V) (host : Imports S) (other : Imports T)
    (R : S → T → Type 0) (sim : Simulates R host other) where
  abbrev entry :
      ℕ → String → String → V → Result CapError ToolInvokeResponse → ToolCallRecord V × Content V
  entry step id name args r =
      let (text, fine) : String × Bool = elim r [
        | ok found ↦ (found.content, true)
        | err e ↦ (display e, false)
      ] in
      (
        record { step = step; name = name; input = args; ok = fine; result = truncate text 512 },
        result_block id text (not fine),
      )

  run_tool-Agrees :
      (step : ℕ) (id name : String) (args : V) (s : S) (t : T)
      → R s t
      → Agrees R (run_tool wire host step id name args s) (run_tool wire other step id name args t)
  unfolding run_tool
  run_tool-Agrees step id name args s t r =
      let message = format ("step " ∷ show step ∷ ": calling tool " ∷ name ∷ []) in
      let agree =
        host_call-Agrees host other R sim wire.tool_invoke_response tool_invoke
          wire.tool_invoke_request (record { name = name; input = args })
          (emit host LogLevel.info message s) (emit other LogLevel.info message t)
          (emit-simulated host other R sim LogLevel.info message s t r) in
      Agrees-then _ _ (λ o u. (entry step id name args o, u))
        (λ o u. (entry step id name args o, u)) agree (λ o _ r'. same _ r')

  run_tools-Agrees :
      (step : ℕ) (requested : List (String × String × V)) (s : S) (t : T)
      → R s t
      → Agrees R (run_tools wire host step requested s) (run_tools wire other step requested t)
  unfolding run_tools
  run_tools-Agrees step [] s t r = same _ r
  run_tools-Agrees step ((id, name, args) ∷ requested) s t r =
      let o = run_tool wire host step id name args s in
      let o' = run_tool wire other step id name args t in
      let first = run_tool-Agrees step id name args s t r in
      Agrees-then o o'
        (λ e u.
          let ((entries, blocks), w) = run_tools wire host step requested u in
          ((e.0 ∷ entries, e.1 ∷ blocks), w))
        (λ e u.
          let ((entries, blocks), w) = run_tools wire other step requested u in
          ((e.0 ∷ entries, e.1 ∷ blocks), w))
        first
        (λ e _ r'.
          Agrees-then (run_tools wire host step requested o.1)
            (run_tools wire other step requested o'.1) (λ es w. ((e.0 ∷ es.0, e.1 ∷ es.1), w))
            (λ es w. ((e.0 ∷ es.0, e.1 ∷ es.1), w)) (run_tools-Agrees step requested o.1 o'.1 r')
            (λ es _ r''. same _ r''))

  abbrev continued :
      Progress V → LlmResponse V → List (ToolCallRecord V) × List (Content V) → Progress V
  continued p response (entries, blocks) = record {
    messages = p.messages ++ assistant_message response.content ∷ user_message blocks ∷ [];
    record_ = p.record_ ++ entries;
    usage = add p.usage response.usage;
  }

  follow-Agrees :
      (step : ℕ) (p : Progress V) (response : LlmResponse V) (s : S) (t : T)
      → R s t
      → Agrees R (follow wire host step p response s) (follow wire other step p response t)
  unfolding follow
  follow-Agrees step p response s t r = elim (Bool-cases (response.stop_reason == "refusal")) [
    | inl refused ↦ rw (follow, refused) (same _ r)
    | inr willing ↦ elim (Bool-cases (is_empty (filter_map as_tool_use response.content))) [
      | inl idle ↦ rw (follow, willing, idle) (same _ r)
      | inr asked ↦
          rw (follow, willing, asked)
            (Agrees-then _ _ (λ answers u. (again (continued p response answers), u))
              (λ answers u. (again (continued p response answers), u))
              (run_tools-Agrees step (filter_map as_tool_use response.content) s t r)
              (λ answers _ r'. same _ r'))
    ]
  ]

  abbrev failure : ℕ → CapError → String
  failure step e = format ("model turn " ∷ show step ∷ " failed: " ∷ display e ∷ [])

  abbrev failed : {U : Type 0} → Imports U → ℕ → Progress V → CapError → U → Turn V × U
  failed imports step p e u = (
    finished (
        finish (step - 1) StopReason.error
          (format ("The model call failed at step " ∷ show step ∷ ": " ∷ display e ∷ [])) p),
    emit imports LogLevel.error (failure step e) u,
  )

  take_turn-Agrees :
      (tools : List (ToolSpec V)) (step : ℕ) (p : Progress V) (s : S) (t : T)
      → R s t
      → Agrees R (take_turn wire host tools step p s) (take_turn wire other tools step p t)
  unfolding take_turn
  take_turn-Agrees tools step p s t r =
      let request : LlmRequest V = record {
        system = some system_prompt;
        messages = p.messages;
        tools = tools;
      } in
      either host other R sim
        (host_call host wire.llm_request wire.llm_response llm_complete request s)
        (host_call other wire.llm_request wire.llm_response llm_complete request t)
        (follow wire host step p) (failed host step p) (follow wire other step p)
        (failed other step p)
        (host_call-Agrees host other R sim wire.llm_response llm_complete wire.llm_request request s
          t r)
        (λ response r'. follow-Agrees step p response _ _ r')
        (λ e r'. record {
          value = refl;
          state = emit-simulated host other R sim LogLevel.error (failure step e) _ _ r';
        })

  abbrev onward :
      {U : Type 0} → Imports U → List (ToolSpec V) → ℕ → ℕ → Turn V → U → AgentOutput V × U
  onward {U} imports tools left step turn u = elim turn as (λ _. AgentOutput V × U) [
    | finished o ↦ (o, u)
    | again q ↦ turns wire imports tools left (suc step) q u
  ]

  turns-Agrees :
      (tools : List (ToolSpec V)) (left step : ℕ) (p : Progress V) (s : S) (t : T)
      → R s t
      → Agrees R (turns wire host tools left step p s) (turns wire other tools left step p t)
  unfolding turns
  turns-Agrees tools zero step p s t r = record {
    value = refl;
    state = emit-simulated host other R sim LogLevel.warn _ s t r;
  }
  turns-Agrees tools (suc left) step p s t r =
      let o = take_turn wire host tools step p s in
      let o' = take_turn wire other tools step p t in
      Agrees-then o o' (onward host tools left step) (onward other tools left step)
        (take_turn-Agrees tools step p s t r)
        (λ turn _ r'.
          elim turn
            as (λ turn.
              Agrees R (onward host tools left step turn o.1)
                (onward other tools left step turn o'.1)) [
                  | finished out ↦ same _ r'
                  | again q ↦ turns-Agrees tools left (suc step) q o.1 o'.1 r'
                ])

  abbrev unlisted : {U : Type 0} → Imports U → CapError → U → List (ToolSpec V) × U
  unlisted imports e u =
      ([], emit imports LogLevel.warn (format ("no tools available: " ∷ display e ∷ [])) u)

  list_tools-Agrees :
      (json : Json V) (s : S) (t : T)
      → R s t
      → Agrees R (list_tools json wire host s) (list_tools json wire other t)
  unfolding list_tools
  list_tools-Agrees json s t r =
      either host other R sim
        (host_call host wire.value wire.tools_list_response tools_list (json.object []) s)
        (host_call other wire.value wire.tools_list_response tools_list (json.object []) t)
        (λ found u. (found.tools, u)) (unlisted host) (λ found u. (found.tools, u)) (unlisted other)
        (host_call-Agrees host other R sim wire.tools_list_response tools_list wire.value
          (json.object []) s t r)
        (λ found r'. same _ r')
        (λ e r'. record {
          value = refl;
          state =
              emit-simulated host other R sim LogLevel.warn
                (format ("no tools available: " ∷ display e ∷ [])) _ _ r';
        })

  abbrev first : AgentInput → Progress V
  first input = record { messages = opening input; record_ = []; usage = no_usage }

  abbrev started : {U : Type 0} → Imports U → AgentInput → List (ToolSpec V) → U → AgentOutput V × U
  started imports input tools u = turns wire imports tools (max input.max_steps 1) 1 (first input) (
      emit imports LogLevel.info
        (format ("agent starting with " ∷ show (length tools) ∷ " tool(s)" ∷ [])) u)

  -- Where the imports of one host simulate those of another, runs of the agent on the two, from related
  -- states, have one output and end in related states.
  pub run_agent-Agrees :
      (json : Json V) (input : AgentInput) (s : S) (t : T)
      → R s t
      → Agrees R (run_agent json wire host input s) (run_agent json wire other input t)
  unfolding run_agent
  run_agent-Agrees json input s t r =
      let o = list_tools json wire host s in
      let o' = list_tools json wire other t in
      Agrees-then o o' (started host input) (started other input) (list_tools-Agrees json s t r)
        (λ tools _ r'.
          turns-Agrees tools (max input.max_steps 1) 1 (first input) _ _
            (emit-simulated host other R sim LogLevel.info _ o.1 o'.1 r'))
