-- ===== src/Main.antt =====
-- crates/tds-host/src/main.rs, the command line: `Cli`, `main` and `print_report`. What is printed is a
-- list of lines. Parsing the arguments, the files, the engine and the HTTP server are parameters; a path and
-- an address are their `Display`.
pub mod Laws
pub mod Confined
pub mod Performed
pub mod Served
use tds_wasm_ai.Common.{
  ℕ, Bool, true, false, String, Option, none, some, List, [], ◌∷◌, map, Result, ok, err, ◌>>=◌,
  ◌>>◌, map_ok, map_err, length, if◌then◌else◌,
}
use tds_wasm_ai.Common.Text.{format, show, trim, is_empty_text}
use tds_wasm_ai.Service.{
  RunRequest, Request, get_healthz, get_policy, post_runs, Answer, text, value, ran, Derived,
  Refusal, input_of, run_handler, policy_handler,
}
use tds_wasm_ai.External.{External}
use tds_wasm_ai.Wire.{Wire}
use tds_wasm_ai.Abi.Types.{
  AgentInput, AgentOutput, StopReason, completed, step_limit, refusal, error, ToolCallRecord,
}
use tds_wasm_ai.Policy.Types.{Policy, default_policy}
use tds_wasm_ai.Policy.Validation.{validate}
use tds_wasm_ai.Policy.Load.{load}
use tds_wasm_ai.Runtime.Exec.{Failure, failure, in_context}
use tds_wasm_ai.Runtime.State.{LlmProvider, Store}
use tds_wasm_ai.Runtime.Run.{Engine, RunReport, run}
use tds_wasm_ai.Runtime.New.{Wasmtime, Runtime, new, from_files}
use tds_wasm_ai.Llm.Build.{Machine}
use tds_wasm_ai.Llm.Anthropic.{Remote}
use tds_wasm_ai.Llm.Mock.{mock_provider}

pub record CommonArgs : Type 0 where
  pub agent : String
  pub policy : Option String

pub data Command : Type 0 where
  run_task : (task : String) (context : Option String) (max_steps : ℕ) (json : Bool) → Command
  serve : (addr : String) → Command
  check : (offline : Bool) → Command

pub record Cli : Type 0 where
  pub common : CommonArgs
  pub command : Command

-- What the command line needs of its surroundings. `engine` is what an engine, a module and a provider are to a
-- run. `listen` binds the address and
-- yields the requests for its routes that arrive until the service is shut down, and `serving` is how that
-- ends.
pub record Platform (V W E M : Type 0) : Type 0 where
  pub debug : String → String
  pub read : String → Result Failure (List ℕ)
  pub read_to_string : String → Result Failure String
  pub from_str : String → Result Failure Policy
  pub machine : Machine
  pub remote : Remote V W
  pub wire : Wire V
  pub wasmtime : Wasmtime E M
  pub engine : E → M → LlmProvider V W → Engine W
  pub to_string_pretty : RunReport V → Result Failure String
  pub listen : String → Result Failure (List Request)
  pub derived : Derived V
  pub serving : Result Failure (Unit {0})

-- `Debug` of `StopReason`
abbrev stop_debug : StopReason → String
stop_debug completed = "Completed"
stop_debug step_limit = "StepLimit"
stop_debug refusal = "Refusal"
stop_debug error = "Error"

abbrev mark : Bool → String
mark true = "ok"
mark false = "failed"

unfoldable pub print_report : {V : Type 0} → RunReport V → List String
print_report report =
    report.output.answer
    ∷ ""
    ∷ format (
        "— "
        ∷ stop_debug report.output.stop
        ∷ " after "
        ∷ show report.output.steps
        ∷ " step(s) in "
        ∷ show report.duration_ms
        ∷ " ms via "
        ∷ report.model
        ∷ " (fuel "
        ∷ show report.fuel_used
        ∷ ", tokens "
        ∷ show report.output.usage.input_tokens
        ∷ "/"
        ∷ show report.output.usage.output_tokens
        ∷ ")"
        ∷ [])
    ∷ map
        (λ call.
          format ("  step " ∷ show call.step ∷ " · " ∷ call.name ∷ " · " ∷ mark call.ok ∷ []))
        report.output.tool_calls

module _ {V W E M : Type 0} (host : Platform V W E M) where
  -- The policy that is named, or the default.
  unfoldable pub policy_of : Option String → Result Failure Policy
  policy_of (some path) = load host.debug host.read_to_string host.from_str path
  policy_of none = do map_err failure (validate host.debug default_policy); ok default_policy

  abbrev open_files : Policy → String → Result Failure (Runtime V W E M)
  open_files policy agent =
      from_files host.debug host.wasmtime host.read host.machine host.remote host.wire.value policy
        agent

  -- The runtime that a check makes. Offline, its provider is the mock.
  unfoldable pub checked : Bool → Policy → String → Result Failure (Runtime V W E M)
  checked true policy agent = do
    wasm ← in_context (format ("reading agent module " ∷ agent ∷ [])) (host.read agent)
    new host.debug host.wasmtime policy wasm (mock_provider host.remote.json host.wire.value)
  checked false policy agent = open_files policy agent

  abbrev not_checked : Bool → String
  not_checked true = ", credential not checked"
  not_checked false = ""

  unfoldable pub accepted : Bool → Runtime V W E M → List String
  accepted offline runtime =
      format (
        "ok: policy valid, agent module accepted ("
        ∷ show (length runtime.policy.tools.enabled)
        ∷ " tool(s) enabled"
        ∷ not_checked offline
        ∷ ")"
        ∷ [])
      ∷ []

  unfoldable pub printed : Bool → RunReport V → Result Failure (List String)
  printed true report = map_ok (λ line. line ∷ []) (host.to_string_pretty report)
  printed false report = ok (print_report report)

  -- `Runtime::run`, with the world that the run leaves.
  unfoldable pub run_in : ℕ → Runtime V W E M → AgentInput → W → Result Failure (RunReport V) × W
  run_in duration_ms runtime input w =
      let engine = host.engine runtime.engine runtime.module_ runtime.llm in
      let (r, s) = run host.wire runtime.llm engine runtime.policy duration_ms input w in
      (r, s.host.world)

  -- The handler of a request whose task does not panic. A blank task is not run.
  unfoldable pub handle : ℕ → Runtime V W E M → RunRequest → W → Result Refusal (RunReport V) × W
  handle duration_ms runtime request w =
      let (r, after) = run_in duration_ms runtime (input_of request) w in
      (run_handler (λ input. ok r) request, if is_empty_text (trim request.task) then w else after)

  -- The routes.
  unfoldable pub route : ℕ → Runtime V W E M → Request → W → Answer V × W
  route duration_ms runtime get_healthz w = (text "ok", w)
  route duration_ms runtime get_policy w =
      (value (policy_handler host.remote.json host.derived runtime.policy), w)
  route duration_ms runtime (post_runs request) w =
      let (answer, after) = handle duration_ms runtime request w in (ran answer, after)

  -- The requests of a service, whose runs are carried out one after the other.
  unfoldable pub answers : ℕ → Runtime V W E M → List Request → W → List (Answer V) × W
  answers duration_ms runtime [] w = ([], w)
  answers duration_ms runtime (request ∷ more) w =
      let (answer, after) = route duration_ms runtime request w in
      let (rest, end) = answers duration_ms runtime more after in (answer ∷ rest, end)

  abbrev served :
      ℕ → Runtime V W E M → Result Failure (List Request) → W → Result Failure (List String) × W
  served duration_ms runtime (ok requests) w =
      (map_ok (λ _. []) host.serving, (answers duration_ms runtime requests w).1)
  served duration_ms runtime (err e) w = (err e, w)

  abbrev with_runtime :
      Result Failure (Runtime V W E M)
      → (Runtime V W E M → W → Result Failure (List String) × W)
      → W
      → Result Failure (List String) × W
  with_runtime (ok runtime) f w = f runtime w
  with_runtime (err e) f w = (err e, w)

  -- One command, under a policy.
  unfoldable pub perform : ℕ → String → Command → Policy → W → Result Failure (List String) × W
  perform duration_ms agent (check offline) policy w =
      (map_ok (accepted offline) (checked offline policy agent), w)
  perform duration_ms agent (run_task task context max_steps json) policy w =
      with_runtime (open_files policy agent)
        (λ runtime w.
          let input : AgentInput = record {
            task = task;
            context = context;
            max_steps = max_steps;
          } in
          let (r, after) = run_in duration_ms runtime input w in (r >>= printed json, after))
        w
  perform duration_ms agent (serve addr) policy w =
      with_runtime (open_files policy agent)
        (λ runtime w. served duration_ms runtime (host.listen addr) w) w

  -- `main`, from the arguments: what is printed, and the world at the end. `duration_ms` is the time that
  -- each run takes.
  unfoldable pub main : ℕ → Cli → W → Result Failure (List String) × W
  main duration_ms cli w = elim (policy_of cli.common.policy) [
    | ok policy ↦ perform duration_ms cli.common.agent cli.command policy w
    | err e ↦ (err e, w)
  ]
