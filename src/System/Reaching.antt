-- ===== src/System/Reaching.antt =====
-- The agent, run on the host, is one of the guests that the step relation describes.
use tds_wasm_ai.Common.{ap, refl, length}
use tds_wasm_ai.External.{External}
use tds_wasm_ai.Wire.{Wire}
use tds_wasm_ai.Abi.Types.{AgentInput}
use tds_wasm_ai.Runtime.State.{LlmProvider, Store}
use tds_wasm_ai.Runtime.Reach.{Step, logged, called, received, computed, Reach, here, next}
use tds_wasm_ai.Agent.Loop.{run_agent}
use tds_wasm_ai.Agent.Loop.Keeps.{IsKept, run_agent-keeps}
use tds_wasm_ai.System.Guest.{
  Layout, IsLayout, Computes, guest_log, guest_call, guest_read, imports,
}

module _ {V U W : Type 0} (x : External V U W) (wire : Wire V) (llm : LlmProvider V W) where
  pub Computes-Step : (s t : Store W) → Computes s t → Step x wire llm s t
  Computes-Step s t c = computed t.memory t.fuel c.fuel (ap (λ h. record t { host = h }) c.host)

  module _ (layout : Layout W) (faithful : IsLayout layout) (s : Store W) where
    -- Every import takes a store that the guest can reach to one that it can reach.
    imports-IsKept : IsKept wire (imports x wire llm layout) (Reach x wire llm s)
    unfolding guest_log guest_call guest_read
    imports-IsKept = record {
      log = λ level message t r.
          next (next r (Computes-Step t (layout.one message t).1 (faithful.one_computes message t)))
            (logged level (layout.one message t).0 (length message) refl);
      call = λ name body t r.
          next
            (next r
              (Computes-Step t (layout.two name body t).1 (faithful.two_computes name body t)))
            (called _ _ _ _ refl);
      fetch = λ buf t r.
          next (next r (Computes-Step t (layout.one buf t).1 (faithful.one_computes buf t)))
            (received _ _ refl);
    }

    -- On a layout that keeps its promise, whatever the agent's run does to the store of its host, a guest
    -- of the step relation can do.
    pub run_agent-Reach :
        (input : AgentInput)
        → Reach x wire llm s (run_agent x.json wire (imports x wire llm layout) input s).1
    run_agent-Reach input =
        run_agent-keeps wire (imports x wire llm layout) (Reach x wire llm s) imports-IsKept x.json
          input s here
