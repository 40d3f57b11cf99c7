-- ===== src/Agent/Loop.antt =====
-- crates/tds-agent/src/lib.rs, `run_agent`: the loop in which the model is asked what to do and the
-- tools that it asks for are run.
pub mod Turns
pub mod Tooling
pub mod Calls
pub mod Keeps
pub mod Simulation
use tds_wasm_ai.Common.{
  ℕ, zero, suc, ◌+◌, ◌-◌, max, Bool, true, false, String, Option, none, some, List, [], ◌∷◌, ◌++◌,
  filter_map, length, is_empty, ◌==◌, if◌then◌else◌, Result, ok, err,
}
use mathlib.Core.Bool.{not}
use tds_wasm_ai.Common.Text.{format, join, show, trim, is_empty_text}
use tds_wasm_ai.External.{Json}
use tds_wasm_ai.Wire.{Wire}
use tds_wasm_ai.Abi.Types.{
  CapError, AgentInput, AgentOutput, ToolSpec, Message, Content, LlmRequest, LlmResponse,
  ToolCallRecord, ToolInvokeResponse, StopReason, completed, step_limit, refusal, error, Usage,
  no_usage, add, LogLevel, info, warn, text_block, result_block, user_message, assistant_message,
  as_tool_use, joined_text, display, tools_list, tool_invoke, llm_complete,
}
use tds_wasm_ai.Agent.Imports.{Imports, emit, host_call}
use tds_wasm_ai.Agent.Truncate.{truncate}

abbrev pub system_prompt : String
system_prompt = join "\n\n" (
    join " " (
      "You are an autonomous agent running inside a sandboxed WebAssembly module. You"
      ∷ "have no direct access to the network, the filesystem, or the clock — the only"
      ∷ "way to affect or observe anything outside your own memory is the tools listed"
      ∷ "below, each of which the host authorizes individually." ∷ [])
    ∷ join " " (
        "Work the task to completion. Call a tool when you need information you do not"
        ∷ "already have, and prefer one well-chosen call over several speculative ones. If"
        ∷ "a tool returns an error, read it: a denial means the host's policy forbids that"
        ∷ "action and retrying it will fail the same way, so find another route or explain"
        ∷ "what you would need." ∷ [])
    ∷ join " " (
        "When you have the answer, state it directly. Lead with the outcome, then any"
        ∷ "supporting detail. Do not narrate your process or describe the tools you used"
        ∷ "unless the task asked for that." ∷ [])
    ∷ [])

-- The variables of the loop.
pub record Progress (V : Type 0) : Type 0 where
  pub messages : List (Message V)
  pub record_ : List (ToolCallRecord V)
  pub usage : Usage

-- A turn ends the run, or the loop goes on.
pub data Turn (V : Type 0) : Type 0 where
  finished : AgentOutput V → Turn V
  again : Progress V → Turn V

module _ {V : Type 0} where
  -- The conversation that the loop begins with.
  unfoldable pub opening : AgentInput → List (Message V)
  opening input =
      elim input.context [
        | none ↦ []
        | some context ↦
            if is_empty_text (trim context)
            then []
            else user_message (text_block (format ("Background context:\n" ∷ context ∷ [])) ∷ [])
              ∷ []
      ]
      ++ user_message (text_block input.task ∷ []) ∷ []

  unfoldable pub finish : ℕ → StopReason → String → Progress V → AgentOutput V
  finish steps stop answer p = record {
    answer = answer;
    steps = steps;
    stop = stop;
    tool_calls = p.record_;
    usage = p.usage;
  }

module _ {V S : Type 0} (wire : Wire V) (host : Imports S) where
  -- One tool call: its entry in the record and the block that answers it.
  unfoldable pub run_tool : ℕ → String → String → V → S → (ToolCallRecord V × Content V) × S
  run_tool step id name args s =
      let t0 = emit host info (format ("step " ∷ show step ∷ ": calling tool " ∷ name ∷ [])) s in
      let (r, t) =
        host_call host wire.tool_invoke_request wire.tool_invoke_response tool_invoke
          (record { name = name; input = args }) t0 in
      let (text, fine) : String × Bool = elim r [
        | ok found ↦ (found.content, true)
        | err e ↦ (display e, false)
      ] in
      (
        (
          record { step = step; name = name; input = args; ok = fine; result = truncate text 512 },
          result_block id text (not fine),
        ),
        t,
      )

  -- The tool calls of a turn, in the order in which the model asked for them.
  unfoldable pub run_tools :
      ℕ → List (String × String × V) → S → (List (ToolCallRecord V) × List (Content V)) × S
  run_tools step [] s = (([], []), s)
  run_tools step ((id, name, args) ∷ requested) s =
      let ((entry, block), t) = run_tool step id name args s in
      let ((entries, blocks), u) = run_tools step requested t in
      ((entry ∷ entries, block ∷ blocks), u)

  -- What a turn does with the model's response.
  unfoldable pub follow : ℕ → Progress V → LlmResponse V → S → Turn V × S
  follow step p0 response s =
      let p = record p0 { usage = add p0.usage response.usage } in
      let requested = filter_map as_tool_use response.content in
      if response.stop_reason == "refusal"
      then (finished (finish step refusal (joined_text response) p), s)
      else if is_empty requested
      then (finished (finish step completed (joined_text response) p), s)
      else let ((entries, blocks), t) = run_tools step requested s in
        (
          again (record {
            messages = p.messages ++ assistant_message response.content ∷ user_message blocks ∷ [];
            record_ = p.record_ ++ entries;
            usage = p.usage;
          }),
          t,
        )

  unfoldable pub take_turn : List (ToolSpec V) → ℕ → Progress V → S → Turn V × S
  take_turn tools step p s =
      let request : LlmRequest V = record {
        system = some system_prompt;
        messages = p.messages;
        tools = tools;
      } in
      let (r, t) = host_call host wire.llm_request wire.llm_response llm_complete request s in
      elim r [
        | err e ↦
            let u =
              emit host LogLevel.error
                (format ("model turn " ∷ show step ∷ " failed: " ∷ display e ∷ [])) t in
            let answer =
              format ("The model call failed at step " ∷ show step ∷ ": " ∷ display e ∷ []) in
            (finished (finish (step - 1) StopReason.error answer p), u)
        | ok response ↦ follow step p response t
      ]

  -- The `for` loop, with the steps that are left and the step it is at.
  unfoldable pub turns : List (ToolSpec V) → ℕ → ℕ → Progress V → S → AgentOutput V × S
  turns tools zero step p s = (
    finish (step - 1) step_limit
        "Stopped after reaching the step limit without producing a final answer." p,
    emit host warn "agent hit its step limit" s,
  )
  turns tools (suc left) step p s =
      let (turn, t) = take_turn tools step p s in
      elim turn [ finished o ↦ (o, t) | again q ↦ turns tools left (suc step) q t ]

module _ {V S : Type 0} (json : Json V) (wire : Wire V) (host : Imports S) where
  unfoldable pub list_tools : S → List (ToolSpec V) × S
  list_tools s =
      let (r, t) =
        host_call host wire.value wire.tools_list_response tools_list (json.object []) s in
      elim r [
        | ok found ↦ (found.tools, t)
        | err e ↦ ([], emit host warn (format ("no tools available: " ∷ display e ∷ [])) t)
      ]

  unfoldable pub run_agent : AgentInput → S → AgentOutput V × S
  run_agent input s =
      let (tools, t) = list_tools s in
      let u =
        emit host info (format ("agent starting with " ∷ show (length tools) ∷ " tool(s)" ∷ []))
          t in
      turns wire host tools (max input.max_steps 1) 1
        (record { messages = opening input; record_ = []; usage = no_usage }) u
