-- ===== src/System/Bounds.antt =====
-- The limits of the policy on a run of the agent in its host.
use tds_wasm_ai.Common.{ℕ, ◌+◌, ◌^◌, ◌≤◌, ◌<◌, refl}
use tds_wasm_ai.External.{External}
use tds_wasm_ai.Wire.{Wire}
use tds_wasm_ai.Abi.Types.{AgentInput}
use tds_wasm_ai.Policy.Types.{Policy}
use tds_wasm_ai.Runtime.State.{LlmProvider, Store}
use tds_wasm_ai.Runtime.Reach.Bounds.{IsSound, fresh-IsSound, Reach-IsSound}
use tds_wasm_ai.Runtime.Reach.Turns.{IsCount, turns-le}
use tds_wasm_ai.Runtime.Run.{blank}
use tds_wasm_ai.Agent.Loop.{run_agent}
use tds_wasm_ai.System.Guest.{Layout, IsLayout, imports}
use tds_wasm_ai.System.Reaching.{run_agent-Reach}

module _ {V U W : Type 0} (x : External V U W) (wire : Wire V) (llm : LlmProvider V W)
    (layout : Layout W) where
  -- The store after the agent's own code has run from the start of a run.
  unfoldable after_agent : Policy → AgentInput → W → Store W
  after_agent p input w = (run_agent x.json wire (imports x wire llm layout) input (blank p w)).1

  after_agent-IsSound :
      (faithful : IsLayout layout) (p : Policy) (input : AgentInput) (w : W)
      → IsSound p (after_agent p input w).host
  unfolding after_agent blank
  after_agent-IsSound faithful p input w =
      Reach-IsSound x wire llm p (fresh-IsSound x wire llm p w)
        (run_agent-Reach x wire llm layout faithful (blank p w) input)

  -- On a layout that keeps its promise, a run of the agent's own code from the start of a run under
  -- a policy ends with at most `limits.max_steps` completions made, by any count of them, whatever
  -- number of steps its input asks for, if the limit is below 2^32.
  after_agent-turns :
      (faithful : IsLayout layout) (p : Policy) (input : AgentInput) (w : W) (count : W → ℕ)
      → IsCount x wire llm count
      → p.limits.max_steps < 2 ^ 32
      → count (after_agent p input w).host.world ≤ count w + p.limits.max_steps
  unfolding after_agent blank
  after_agent-turns faithful p input w count counts small =
      turns-le x wire llm p count w (blank p w) _ counts small refl
        (run_agent-Reach x wire llm layout faithful (blank p w) input)
