-- ===== src/Runtime/Run.antt =====
-- crates/tds-host/src/runtime.rs, `check_abi_version`, `invoke_agent`, `describe_trap` and
-- `Runtime::run`. The engine and the compiled module are parameters.
pub mod Sandboxed
pub mod Reports
use tds_wasm_ai.Common.{
  ℕ, ◌-◌, ◌/◌, ◌%◌, ◌^◌, min, max, Bool, ◌||◌, String, Option, none, some, List, [], ◌∷◌, eqb, ltb,
  if◌then◌else◌, length, Result, ok, err, map_err, ok_or,
}
use mathlib.Core.Bool.{not}
use tds_wasm_ai.Common.Int.{ℤ, pos, negsuc, show_ℤ, eqb_ℤ}
use tds_wasm_ai.Common.Text.{format, join, show}
use tds_wasm_ai.Abi.Types.{AgentInput, AgentOutput, error, no_usage, abi_version}
use tds_wasm_ai.Abi.Packing.{unpack_ptr_len}
use tds_wasm_ai.Wire.{Wire}
use tds_wasm_ai.Policy.Types.{Policy}
use tds_wasm_ai.Runtime.Memory.{read_guest, write_guest}
use tds_wasm_ai.Runtime.State.{LlmProvider, LogLine, Store, HostState, fresh}
use tds_wasm_ai.Runtime.Exec.{
  Trap, out_of_fuel, interrupt, unreachable_code_reached, other, Failure, failure, with_context,
  Exec, pure, bail, lift, context, ◌>>=◌, ◌>>◌, bail_if,
}

-- The functions of an instance, each looked up by its name and type, which may fail.
pub record Instance (W : Type 0) : Type 0 where
  pub tds_abi_version : Result Failure (Exec W ℤ)
  pub tds_alloc : Result Failure (ℕ → Exec W ℕ)
  pub tds_dealloc : Result Failure (ℕ → ℕ → Exec W (Unit {0}))
  pub tds_run : Result Failure (ℕ → ℕ → Exec W ℕ)

-- `linker.instantiate` under a deadline in ticks and ceilings on memory and tables; it runs the module's
-- start function. `client` is the outcome of building the HTTP client of the tool box.
pub record Engine (W : Type 0) : Type 0 where
  pub client : Result Failure (Unit {0})
  pub instantiate : (ticks memory_bytes table_elements : ℕ) → Exec W (Instance W)

pub record RunReport (V : Type 0) : Type 0 where
  pub output : AgentOutput V
  pub model : String
  pub duration_ms : ℕ
  pub fuel_used : ℕ
  pub logs : List LogLine

unfoldable pub describe_trap : Failure → String
describe_trap f = elim f.trap [
  | none ↦ format ("The agent run failed: " ∷ join ": " f.chain ∷ [])
  | some t ↦ elim t [
    | out_of_fuel ↦ "The agent was stopped: it exhausted its compute budget (limits.fuel)."
    | interrupt ↦ "The agent was stopped: it exceeded its wall-clock budget (limits.wall_clock_ms)."
    | unreachable_code_reached ↦ "The agent panicked inside the sandbox and was stopped."
    | other text ↦ format ("The agent trapped and was stopped: " ∷ text ∷ "." ∷ [])
  ]
]

module _ {W : Type 0} where
  unfoldable pub check_abi_version : Instance W → Exec W (Unit {0})
  check_abi_version i = do
    call ← context "agent module has no usable tds_abi_version export" (lift i.tds_abi_version)
    version ← context "calling tds_abi_version" call
    bail_if (not (eqb_ℤ version abi_version)) (
        format (
          "agent module speaks ABI version "
          ∷ show_ℤ version
          ∷ ", host speaks "
          ∷ show_ℤ abi_version
          ∷ []))

  -- `memory.write`, which fails out of bounds.
  unfoldable pub write_memory : ℕ → List ℕ → Exec W (Unit {0})
  write_memory ptr bytes s = elim (write_guest s.memory ptr bytes) [
    | none ↦ (err (failure "out of bounds memory access"), s)
    | some memory ↦ (ok tt, record s { memory = some memory })
  ]

  -- `memory.read`, which fails out of bounds.
  unfoldable pub read_memory : ℕ → ℕ → Exec W (List ℕ)
  read_memory ptr len s =
      (ok_or (read_guest s.memory ptr len) (failure "out of bounds memory access"), s)

  unfoldable pub has_memory : Exec W (Unit {0})
  has_memory s = (
    elim s.memory [
      | none ↦ err (failure "agent module does not export its memory")
      | some memory ↦ ok tt
    ],
    s,
  )

  -- The end of `invoke_agent`, from the word that the agent's run returned.
  unfoldable pub collect :
      {V : Type 0} → Wire V → (ℕ → ℕ → Exec W (Unit {0})) → ℕ → Exec W (AgentOutput V)
  collect wire dealloc packed = do
    let out_ptr = (unpack_ptr_len packed).0
    let out_len = (unpack_ptr_len packed).1
    bail_if (eqb out_ptr 0 || eqb out_len 0) "agent returned an empty result"
    buffer ← context "reading the agent result from guest memory" (read_memory out_ptr out_len)
    dealloc out_ptr out_len
    context "decoding the agent result" (lift (map_err failure (wire.agent_output.decode buffer)))

  unfoldable pub invoke_agent :
      {V : Type 0} → Wire V → Instance W → AgentInput → Exec W (AgentOutput V)
  invoke_agent wire i input = do
    has_memory
    alloc ← lift i.tds_alloc
    dealloc ← lift i.tds_dealloc
    run ← lift i.tds_run
    encoded ← lift (map_err failure (wire.agent_input.encode input))
    let len = length encoded % 2 ^ 32
    ptr ← alloc len
    bail_if (eqb ptr 0)
        (format ("agent module could not allocate " ∷ show len ∷ " bytes for its input" ∷ []))
    context "writing agent input into guest memory" (write_memory ptr encoded)
    packed ← run ptr len
    dealloc ptr len
    collect wire dealloc packed

-- `max_steps.clamp(1, limit)`
unfoldable pub clamp_steps : ℕ → ℕ → ℕ
clamp_steps limit requested =
    if ltb requested 1 then 1 else if ltb limit requested then limit else requested

abbrev pub clamped : Policy → AgentInput → AgentInput
clamped p input = record input { max_steps = clamp_steps p.limits.max_steps input.max_steps }

-- How often the epoch advances, in milliseconds.
abbrev pub epoch_tick : ℕ
epoch_tick = 10

-- The wall-clock budget in ticks.
unfoldable pub deadline_ticks : Policy → ℕ
deadline_ticks p = max (p.limits.wall_clock_ms / epoch_tick) 1

-- The store that a run begins with.
unfoldable pub blank : {W : Type 0} → Policy → W → Store W
blank p w = record { memory = none; fuel = p.limits.fuel; host = fresh p w }

-- Everything before the agent is invoked.
unfoldable pub prepare : {W : Type 0} → Engine W → Policy → Exec W (Instance W)
prepare engine p = do
  lift engine.client
  i ←
      context "instantiating the agent module"
        (engine.instantiate (deadline_ticks p) p.limits.memory_bytes p.limits.table_elements)
  check_abi_version i
  pure i

module _ {V W : Type 0} (wire : Wire V) (llm : LlmProvider V W) (engine : Engine W)
    (p : Policy) where
  -- The report: a run that did not complete is one whose answer says why.
  unfoldable pub report : ℕ → Result Failure (AgentOutput V) → Store W → RunReport V
  report duration_ms result s = record {
    output = elim result [
      | ok output ↦ output
      | err f ↦ record {
        answer = describe_trap f;
        steps = 0;
        stop = error;
        tool_calls = [];
        usage = no_usage;
      }
    ];
    model = llm.describe;
    duration_ms = duration_ms;
    fuel_used = p.limits.fuel - s.fuel;
    logs = s.host.logs;
  }

  unfoldable pub conclude :
      ℕ → Result Failure (AgentOutput V) × Store W → Result Failure (RunReport V) × Store W
  conclude duration_ms (result, s) =
      (ok (report duration_ms result s), record s { host = record (s.host) { logs = [] } })

  -- `Runtime::run`: the outcome, and the store at its end. `duration_ms` is the time that the run took.
  unfoldable pub run : ℕ → AgentInput → W → Result Failure (RunReport V) × Store W
  run duration_ms input w =
      let (r, s) = prepare engine p (blank p w) in
      elim r [
        | err f ↦ (err f, s)
        | ok i ↦ conclude duration_ms (invoke_agent wire i (clamped p input) s)
      ]
