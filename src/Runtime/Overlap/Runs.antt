-- ===== src/Runtime/Overlap/Runs.antt =====
-- `Runtime::run` as one of the runs that may overlap.
use tds_wasm_ai.Common.{ℕ, ◌≡◌, refl, [], ◌∷◌}
use tds_wasm_ai.External.{External}
use tds_wasm_ai.Wire.{Wire}
use tds_wasm_ai.Abi.Types.{AgentInput}
use tds_wasm_ai.Policy.Types.{Policy}
use tds_wasm_ai.Runtime.State.{LlmProvider, Store, fresh}
use tds_wasm_ai.Runtime.Reach.{Reach, here, next}
use tds_wasm_ai.Runtime.Run.{Engine, run, blank, conclude}
use tds_wasm_ai.Runtime.Run.Sandboxed.{IsSandboxed}
use tds_wasm_ai.Runtime.Run.Reports.{early, late, run-Ends}
use tds_wasm_ai.Runtime.Overlap.{Shared, begins, steps, Overlaps, rests, goes_on}

-- The shared state with a run more, which has left the world as it is in the run's store.
abbrev pub joined_by : {W : Type 0} → Shared W → Store W → Shared W
joined_by a t = record { stores = t ∷ a.stores; world = t.host.world }

module _ {V U W : Type 0} (x : External V U W) (wire : Wire V) (llm : LlmProvider V W)
    (p : Policy) where
  pub Overlaps-trans :
      {a b c : Shared W}
      → Overlaps x wire llm p a b
      → Overlaps x wire llm p b c
      → Overlaps x wire llm p a c
  Overlaps-trans o rests = o
  Overlaps-trans o (goes_on q step) = goes_on (Overlaps-trans o q) step

  Reach-Overlaps :
      (a : Shared W) (t : Store W)
      → Reach x wire llm (blank p a.world) t
      → Overlaps x wire llm p a (joined_by a t)
  unfolding blank fresh
  Reach-Overlaps a t here = goes_on {b = a} rests (begins refl)
  Reach-Overlaps a t (next {t = u} r st) =
      goes_on {b = joined_by a u} (Reach-Overlaps a u r) (steps [] u a.stores t refl st refl)

  -- In an engine that keeps the sandbox, `Runtime::run`, whatever the guest does and whether or not
  -- it succeeds, is one of the behaviours of overlapping runs: from any state of the runs that have
  -- begun and the world, it adds one run to them and leaves the world in which that run's steps
  -- have left it.
  pub run-Overlaps :
      (engine : Engine W) (safe : IsSandboxed x wire llm engine) (duration : ℕ) (input : AgentInput)
      (a : Shared W)
      → (t : Store W) × Overlaps x wire llm p a (joined_by a t)
        × (t.host.world ≡ (run wire llm engine p duration input a.world).1.host.world)
  unfolding conclude
  run-Overlaps engine safe duration input a =
      elim (run-Ends x wire llm engine p safe duration input a.world) [
        | early f t reach e ↦ (t, Reach-Overlaps a t reach, rw e refl)
        | late result t reach e ↦ (t, Reach-Overlaps a t reach, rw e refl)
      ]
