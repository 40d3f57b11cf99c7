-- ===== src/System/Reported.antt =====
-- `Runtime::run` of the host on the exports of the agent.
use tds_wasm_ai.Common.{
  ℕ, ◌^◌, ◌<◌, ◌≡◌, ◌≢◌, refl, ap, ◌∙◌, some, Option, List, length, Result, ok, err,
}
use tds_wasm_ai.Common.Int.{eqb_ℤ}
use tds_wasm_ai.External.{External}
use tds_wasm_ai.Wire.{Wire, RoundTrips}
use tds_wasm_ai.Abi.Types.{AgentInput, AgentOutput}
use tds_wasm_ai.Policy.Types.{Policy}
use tds_wasm_ai.Runtime.State.{LlmProvider, Store}
use tds_wasm_ai.Runtime.Exec.{Failure, lift, context, ◌>>=◌}
use tds_wasm_ai.Runtime.Run.{
  Engine, Instance, RunReport, run, prepare, check_abi_version, conclude, report, blank, clamped,
  deadline_ticks, invoke_agent,
}
use tds_wasm_ai.Agent.Exports.{Heap}
use tds_wasm_ai.System.Guest.{Layout}
use tds_wasm_ai.System.Module.{agent}
use tds_wasm_ai.System.Handshake.{IsAllocator, IsTidy}
use tds_wasm_ai.System.Actions.{bind_run, context_run}
use tds_wasm_ai.System.Completion.{outcome, invoke_agent-outcome}

module _ {V U W : Type 0} (x : External V U W) (wire : Wire V) (llm : LlmProvider V W)
    (layout : Layout W) (heap : Heap (Store W)) (trapped : Failure) where
  check_abi_version-ok :
      (s : Store W) → check_abi_version (agent x wire llm layout heap trapped) s ≡ (ok tt, s)
  unfolding check_abi_version ◌>>=◌ eqb_ℤ
  check_abi_version-ok s = refl

  prepare-ok :
      (engine : Engine W) (p : Policy) (s t : Store W) (i : Instance W)
      → engine.client ≡ ok tt
      → engine.instantiate (deadline_ticks p) p.limits.memory_bytes p.limits.table_elements s
        ≡ (ok i, t)
      → check_abi_version i t ≡ (ok tt, t)
      → prepare engine p s ≡ (ok i, t)
  unfolding prepare
  prepare-ok engine p s t i client linked speaks =
      bind_run (lift engine.client) _ s s tt (ap (λ c. (c, s)) client)
      ∙ bind_run
          (context _
            (engine.instantiate (deadline_ticks p) p.limits.memory_bytes p.limits.table_elements))
          _ s t i
          (context_run "instantiating the agent module"
            (engine.instantiate (deadline_ticks p) p.limits.memory_bytes p.limits.table_elements) s
            t i linked)
      ∙ bind_run (check_abi_version i) _ t t tt speaks

  -- A run that is prepared reports what invoking the agent gives.
  run-reported :
      (engine : Engine W) (p : Policy) (duration : ℕ) (input : AgentInput) (w : W) (s : Store W)
      (i : Instance W) (output : AgentOutput V)
      → prepare engine p (blank p w) ≡ (ok i, s)
      → (invoke_agent wire i (clamped p input) s).0 ≡ ok output
      → (r : RunReport V) × ((run wire llm engine p duration input w).0 ≡ ok r)
        × (r.output ≡ output)
  unfolding run conclude report
  run-reported engine p duration input w s i output ready done =
      let (result, t) = invoke_agent wire i (clamped p input) s in
      (
        report wire llm engine p duration result t,
        ap
            (λ (o : Result Failure (Instance W) × Store W).
              (elim o.0 as (λ _. Result Failure (RunReport V) × Store W) [
                | err f ↦ (err f, o.1)
                | ok i ↦
                    conclude wire llm engine p duration (invoke_agent wire i (clamped p input) o.1)
              ]).0)
            ready,
        rw done refl,
      )

  -- In an engine that instantiates the exports of the agent, with an allocator and a layout that
  -- keep their promises and encodings that are decoded again: if the module then has a memory, the
  -- encoded input, with its steps clamped, and the output have from 1 to 2^31 - 1 bytes, and the
  -- allocator gives a block for each, then `Runtime::run` gives a report whose output is the one
  -- that `run_agent` gives for this input.
  pub run-outcome :
      (Live : Option (List ℕ) → ℕ → ℕ → Type 0) (keeps : IsAllocator heap Live)
      (tidy : IsTidy layout Live) (engine : Engine W) (p : Policy) (duration : ℕ)
      (input : AgentInput) (w : W) (b out : List ℕ) (s : Store W) (m : List ℕ)
      → engine.client ≡ ok tt
      → engine.instantiate
          (deadline_ticks p)
          p.limits.memory_bytes
          p.limits.table_elements
          (blank p w)
        ≡ (ok (agent x wire llm layout heap trapped), s)
      → RoundTrips wire.agent_input
      → RoundTrips wire.agent_output
      → s.memory ≡ some m
      → wire.agent_input.encode (clamped p input) ≡ ok b
      → 0 < length b
      → length b < 2 ^ 31
      → (heap.alloc (length b) s).0 ≢ 0
      → let o = outcome x wire llm layout heap trapped b (clamped p input) s in
        wire.agent_output.encode o.0 ≡ ok out
        → 0 < length out
        → length out < 2 ^ 31
        → (heap.alloc (length out) o.1).0 ≢ 0
        → (r : RunReport V) × ((run wire llm engine p duration input w).0 ≡ ok r) × (r.output ≡ o.0)
  run-outcome Live keeps tidy engine p duration input w b out s m client linked back_in back_out has
        encoded some_in small_in fine_in answered some_out small_out fine_out =
      run-reported engine p duration input w s (agent x wire llm layout heap trapped) _
        (prepare-ok engine p (blank p w) s _ client linked (check_abi_version-ok s))
        (invoke_agent-outcome x wire llm layout heap trapped Live keeps tidy b out (clamped p input)
          s m back_in back_out has encoded some_in small_in fine_in answered some_out small_out
          fine_out)
