-- ===== src/Examples/Completions.antt =====
-- The agent's module run by the host, with no encoding for the requests to the model.
use tds_wasm_ai.Common.{
  ℕ, ◌≡◌, ◌≢◌, refl, ap, ◌∙◌, Bool, true, false, ◌&&◌, none, some, List, [], ◌∷◌, replicate, eqb,
  ◌==◌, ok, and-eq-true, eq_iff, arith,
}
use tds_wasm_ai.Runtime.Memory.{read_guest, write_guest}
use tds_wasm_ai.Runtime.State.{HostState, Store, fresh}
use tds_wasm_ai.System.Direct.{quiet, direct}
use tds_wasm_ai.System.Direct.Runs.{run_agent-direct, run-direct}
use tds_wasm_ai.System.Completion.{outcome, started}
use tds_wasm_ai.System.Module.{agent}
use tds_wasm_ai.System.Guest.{imports, guest_log, guest_call}
use tds_wasm_ai.Runtime.Memory.{checked_add, get_range, overwrite}
use tds_wasm_ai.Runtime.Calls.{log}
use tds_wasm_ai.Runtime.Exec.{Failure, failure}
use tds_wasm_ai.Runtime.Run.{Engine, RunReport, run, blank, clamp_steps}
use tds_wasm_ai.Agent.Imports.{emit, host_call}
use tds_wasm_ai.Agent.Loop.{run_agent, list_tools, turns, take_turn, finish, opening}
use tds_wasm_ai.Common.Text.{format, show, from_u32}
use tds_wasm_ai.Common.Utf8.{as_bytes, encode_scalar, from_utf8_lossy, lossy, advance, lead}
use tds_wasm_ai.Abi.Types.{
  AgentInput, AgentOutput, StopReason, completed, step_limit, refusal, error, display, level_number,
  from_i32, as_str, no_usage,
}
use tds_wasm_ai.Wire.{Wire}
use tds_wasm_ai.Examples.Codecs.{
  only, only-RoundTrips, nil, nil-eq, unused, unused-eq, absent, absent-eq,
}
use tds_wasm_ai.Examples.Parts.{Value, World, start, ext, wire, model, open_policy, never}
use tds_wasm_ai.Examples.Allocators.{heap, IsLive, heap-IsAllocator, heap-IsComputing}
use tds_wasm_ai.Examples.Buffers.{layout, layout-IsTidy, layout-IsLayout}

abbrev task : AgentInput
task = record { task = "What time is it?"; context = none; max_steps = 1 }

abbrev is_task : AgentInput → Bool
is_task i = i.task == "What time is it?" && (absent i.context && eqb i.max_steps 1)

is_task-eq : (i : AgentInput) → is_task i ≡ true → i ≡ task
is_task-eq i h =
    let (asked, rest) =
      and-eq-true (i.task == "What time is it?") (absent i.context && eqb i.max_steps 1) h in
    let (alone, once) = and-eq-true (absent i.context) (eqb i.max_steps 1) rest in
    let steps : i.max_steps ≡ 1 = ground arith in
    ap (λ t. record i { task = t }) ((eq_iff i.task "What time is it?").0 asked)
    ∙ ap (λ c. record task { context = c; max_steps = i.max_steps }) (absent-eq i.context alone)
    ∙ ap (λ n. record task { max_steps = n }) steps

abbrev failed : AgentOutput Value
failed = record {
  answer =
      "The model call failed at step 1: invalid: could not encode llm.complete request: no encoding";
  steps = 0;
  stop = error;
  tool_calls = [];
  usage = no_usage;
}

abbrev is_error : StopReason → Bool
is_error completed = false
is_error step_limit = false
is_error refusal = false
is_error error = true

is_error-eq : (r : StopReason) → is_error r ≡ true → r ≡ error
is_error-eq completed h = cc (h)
is_error-eq step_limit h = cc (h)
is_error-eq refusal h = cc (h)
is_error-eq error h = refl

abbrev is_failed : AgentOutput Value → Bool
is_failed o =
    o.answer == failed.answer
    && (eqb o.steps 0 && (is_error o.stop && (nil o.tool_calls && unused o.usage)))

is_failed-eq : (o : AgentOutput Value) → is_failed o ≡ true → o ≡ failed
is_failed-eq o h =
    let (said, rest) = and-eq-true (o.answer == failed.answer) _ h in
    let (first, rest) = and-eq-true (eqb o.steps 0) _ rest in
    let (stopped, rest) = and-eq-true (is_error o.stop) _ rest in
    let (no_calls, no_tokens) = and-eq-true (nil o.tool_calls) (unused o.usage) rest in
    let steps : o.steps ≡ 0 = ground arith in
    ap (λ t. record o { answer = t }) ((eq_iff o.answer failed.answer).0 said)
    ∙ ap (λ n. record o { answer = failed.answer; steps = n }) steps
    ∙ ap (λ r. record failed { stop = r; tool_calls = o.tool_calls; usage = o.usage })
        (is_error-eq o.stop stopped)
    ∙ ap (λ l. record failed { tool_calls = l; usage = o.usage }) (nil-eq o.tool_calls no_calls)
    ∙ ap (λ u. record failed { usage = u }) (unused-eq o.usage no_tokens)

abbrev bare : Wire Value
bare = record wire {
  value = never;
  llm_request = never;
  agent_input = only task is_task;
  agent_output = only failed is_failed;
}

-- No block is in use.
abbrev arena : List ℕ
arena = 1 ∷ replicate 15 0

abbrev begun : Store World
begun = record {
  memory = some arena;
  fuel = open_policy.limits.fuel;
  host = fresh open_policy start;
}

abbrev trapped : Failure
trapped = failure "out of bounds memory access"

abbrev ended : AgentOutput Value × Store World
ended = outcome ext bare model layout heap trapped (1 ∷ []) task begun

output_ended : ended.0 ≡ failed
unfolding outcome started run_agent list_tools turns take_turn host_call emit guest_log guest_call
    log read_guest checked_add get_range write_guest overwrite finish format show as_bytes
    encode_scalar from_utf8_lossy lossy advance display opening fresh level_number lead from_u32
    from_i32 as_str
output_ended = refl

next_address : (heap.alloc 1 ended.1).0 ≡ 3
unfolding outcome started run_agent list_tools turns take_turn host_call emit guest_log guest_call
    log read_guest checked_add get_range write_guest overwrite finish format show as_bytes
    encode_scalar from_utf8_lossy lossy advance display opening fresh level_number lead from_u32
    from_i32 as_str
next_address = refl

next_block : (heap.alloc 1 ended.1).0 ≢ 0
next_block = omega (arith, next_address)

first_address : (heap.alloc 1 begun).0 ≡ 1
first_address = refl

-- An engine whose modules are the agent with sixteen bytes of memory.
abbrev linked : Engine World
linked = record {
  client = ok tt;
  instantiate = λ ticks memory_bytes table_elements s.
      (ok (agent ext bare model layout heap trapped), record s { memory = some arena });
}

-- A request for no steps is raised to one.
abbrev asked : AgentInput
asked = record task { max_steps = 0 }

run_agent-direct_example :
    let o = run_agent ext.json bare (imports ext bare model layout) task begun in
    let d = run_agent ext.json bare (direct ext bare model) task (quiet begun.host) in
    (o.0 ≡ d.0) × (quiet o.1.host ≡ d.1)
unfolding fresh
run_agent-direct_example =
    run_agent-direct ext bare model layout layout-IsLayout task begun (omega arith)

abbrev spoken : AgentOutput Value × HostState World
spoken = run_agent ext.json bare (direct ext bare model) task (fresh open_policy start)

output_spoken : spoken.0 ≡ failed
unfolding run_agent list_tools turns take_turn host_call emit finish format show as_bytes
    encode_scalar display opening fresh level_number from_u32
output_spoken = refl

run-direct_example :
    (r : RunReport Value) × ((run bare model linked open_policy 12 asked start).0 ≡ ok r)
    × (r.output ≡ spoken.0)
unfolding clamp_steps blank
run-direct_example =
    run-direct ext bare model layout layout-IsLayout heap trapped heap-IsComputing IsLive
      heap-IsAllocator layout-IsTidy linked open_policy 12 asked start (1 ∷ []) (1 ∷ []) begun arena
      refl refl refl (omega arith) (only-RoundTrips task is_task is_task-eq)
      (only-RoundTrips failed is_failed is_failed-eq) refl refl (omega arith) (omega arith)
      (omega (arith, first_address)) (rw output_spoken refl) (omega arith) (omega arith) next_block
