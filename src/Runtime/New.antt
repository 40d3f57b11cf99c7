-- ===== src/Runtime/New.antt =====
-- crates/tds-host/src/runtime.rs, `Runtime`, `Runtime::new` and `Runtime::from_files`. The engine and
-- its compiler, the file system and the outcome of spawning a thread are parameters.
pub mod Laws
use tds_wasm_ai.Common.{ℕ, String, Bool, true, List, [], ◌∷◌, Result, ok, err, ◌>>=◌, ◌>>◌, map_err}
use tds_wasm_ai.Common.Text.{format}
use tds_wasm_ai.Wire.{Codec}
use tds_wasm_ai.Policy.Types.{Policy}
use tds_wasm_ai.Policy.Validation.{validate}
use tds_wasm_ai.Runtime.State.{LlmProvider}
use tds_wasm_ai.Runtime.Exec.{Failure, failure, in_context}
use tds_wasm_ai.Runtime.Module.{Shape, verify_module_shape}
use tds_wasm_ai.Runtime.Ticker.{Ticker, spawned}
use tds_wasm_ai.Llm.Build.{Machine, build}
use tds_wasm_ai.Llm.Anthropic.{Remote}

-- The settings of the engine that are made; the others are its defaults.
pub record Config : Type 0 where
  pub consume_fuel : Bool
  pub epoch_interruption : Bool
  pub wasm_backtrace : Bool

abbrev pub config : Config
config = record { consume_fuel = true; epoch_interruption = true; wasm_backtrace = true }

-- `E` is the type of engines and `M` of compiled modules. `epoch` is the engine's counter when the
-- ticker is spawned.
pub record Wasmtime (E M : Type 0) : Type 0 where
  pub new_engine : Config → Result Failure E
  pub new_module : E → List ℕ → Result Failure M
  pub shape : M → Shape
  pub spawn : Result Failure (Unit {0})
  pub epoch : E → ℕ

pub record Runtime (V W E M : Type 0) : Type 0 where
  pub engine : E
  pub module_ : M
  pub policy : Policy
  pub llm : LlmProvider V W
  pub ticker : Ticker

module _ {V W E M : Type 0} (debug : String → String) (wasmtime : Wasmtime E M) where
  unfoldable pub new : Policy → List ℕ → LlmProvider V W → Result Failure (Runtime V W E M)
  new policy wasm llm = do
    map_err failure (validate debug policy)
    engine ← in_context "creating the Wasm engine" (wasmtime.new_engine config)
    module_ ← in_context "compiling the agent module" (wasmtime.new_module engine wasm)
    map_err failure (verify_module_shape debug (wasmtime.shape module_))
    in_context "spawning the epoch ticker" wasmtime.spawn
    ok (record {
      engine = engine;
      module_ = module_;
      policy = policy;
      llm = llm;
      ticker = spawned (wasmtime.epoch engine);
    })

  -- `read` is `std::fs::read`, and a path is its `Display`.
  unfoldable pub from_files :
      (String → Result Failure (List ℕ))
      → Machine
      → Remote V W
      → Codec V
      → Policy
      → String
      → Result Failure (Runtime V W E M)
  from_files read machine remote value policy wasm_path = do
    wasm ← in_context (format ("reading agent module " ∷ wasm_path ∷ [])) (read wasm_path)
    llm ← build machine remote value policy.llm
    new policy wasm llm
