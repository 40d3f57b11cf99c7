-- ===== src/System/Direct/Runs.antt =====
-- Runs of the agent in its host, and on a host without a memory.
use tds_wasm_ai.Common.{ℕ, ◌^◌, ◌<◌, ◌≡◌, ◌≢◌, refl, ap, ◌∙◌, some, Option, List, length, ok, arith}
use tds_wasm_ai.External.{External}
use tds_wasm_ai.Wire.{Wire, RoundTrips}
use tds_wasm_ai.Abi.Types.{AgentInput}
use tds_wasm_ai.Policy.Types.{Policy}
use tds_wasm_ai.Runtime.State.{LlmProvider, HostState, Store, fresh}
use tds_wasm_ai.Runtime.Exec.{Failure}
use tds_wasm_ai.Runtime.Run.{Engine, RunReport, run, blank, clamped, deadline_ticks}
use tds_wasm_ai.Agent.Exports.{Heap}
use tds_wasm_ai.Agent.Loop.{run_agent}
use tds_wasm_ai.Agent.Loop.Simulation.Runs.{run_agent-Agrees}
use tds_wasm_ai.System.Guest.{Layout, IsLayout, imports}
use tds_wasm_ai.System.Module.{IsComputing, agent}
use tds_wasm_ai.System.Handshake.{IsAllocator, IsTidy}
use tds_wasm_ai.System.Completion.{started, outcome}
use tds_wasm_ai.System.Reported.{run-outcome}
use tds_wasm_ai.System.Direct.{quiet, direct}
use tds_wasm_ai.System.Direct.Answers.{Mirrors, imports-Simulates}

module _ {V U W : Type 0} (x : External V U W) (wire : Wire V) (llm : LlmProvider V W)
    (layout : Layout W) (faithful : IsLayout layout) where
  -- On a layout that keeps its promise, under a policy whose requests have fewer than 2^31 bytes: a
  -- run of the agent, through its memory, the three host functions and the pending response, gives
  -- the output of a run on the host without a memory from the same state of the host, and leaves
  -- the host in the same state, its log lines aside.
  pub run_agent-direct :
      (input : AgentInput) (s : Store W)
      → s.host.policy.limits.max_request_bytes < 2 ^ 31
      → let o = run_agent x.json wire (imports x wire llm layout) input s in
        let d = run_agent x.json wire (direct x wire llm) input (quiet s.host) in
        (o.0 ≡ d.0) × (quiet o.1.host ≡ d.1)
  run_agent-direct input s low =
      let agree =
        run_agent-Agrees wire (imports x wire llm layout) (direct x wire llm) Mirrors
          (imports-Simulates x wire llm layout faithful) x.json input s (quiet s.host)
          (record { host = refl; limit = low }) in
      (agree.value, agree.state.host)

  -- The store in which the agent's own code starts has the host's state of the store before.
  started-host :
      (heap : Heap (Store W)) (trapped : Failure) (b : List ℕ) (s : Store W)
      → IsComputing heap
      → (started x wire llm layout heap trapped b s).host ≡ s.host
  unfolding started
  started-host heap trapped b s computing = (computing.alloc (length b) s).host

  module _ (heap : Heap (Store W)) (trapped : Failure) (computing : IsComputing heap) where
    -- In an engine that instantiates the exports of the agent in the host's fresh state, under a
    -- policy whose requests have fewer than 2^31 bytes, with an allocator and a layout that keep
    -- their promises and encodings that are decoded again: if the module then has a memory, the
    -- encoded input, with its steps clamped, and the output have from 1 to 2^31 - 1 bytes, and the
    -- allocator gives a block for each, then `Runtime::run` gives a report whose output is that of
    -- `run_agent`, for this input, on the host without a memory, from that fresh state.
    pub run-direct :
        (Live : Option (List ℕ) → ℕ → ℕ → Type 0) (keeps : IsAllocator heap Live)
        (tidy : IsTidy layout Live) (engine : Engine W) (p : Policy) (duration : ℕ)
        (input : AgentInput) (w : W) (b out : List ℕ) (s : Store W) (m : List ℕ)
        → engine.client ≡ ok tt
        → engine.instantiate
            (deadline_ticks p)
            p.limits.memory_bytes
            p.limits.table_elements
            (blank p w)
          ≡ (ok (agent x wire llm layout heap trapped), s)
        → s.host ≡ fresh p w
        → p.limits.max_request_bytes < 2 ^ 31
        → RoundTrips wire.agent_input
        → RoundTrips wire.agent_output
        → s.memory ≡ some m
        → wire.agent_input.encode (clamped p input) ≡ ok b
        → 0 < length b
        → length b < 2 ^ 31
        → (heap.alloc (length b) s).0 ≢ 0
        → let d = run_agent x.json wire (direct x wire llm) (clamped p input) (fresh p w) in
          wire.agent_output.encode d.0 ≡ ok out
          → 0 < length out
          → length out < 2 ^ 31
          → (heap.alloc
              (length out)
              (outcome x wire llm layout heap trapped b (clamped p input) s).1).0
            ≢ 0
          → (r : RunReport V) × ((run wire llm engine p duration input w).0 ≡ ok r)
            × (r.output ≡ d.0)
    unfolding outcome fresh
    run-direct Live keeps tidy engine p duration input w b out s m client linked begins low back_in
          back_out has encoded some_in small_in fine_in answered some_out small_out fine_out =
        let u = started x wire llm layout heap trapped b s in
        let begun : u.host ≡ fresh p w = started-host heap trapped b s computing ∙ begins in
        let same =
          (run_agent-direct (clamped p input) u (
            omega
              (arith, low, ap (λ (h : HostState W). h.policy.limits.max_request_bytes) begun))).0
          ∙ ap (λ h. (run_agent x.json wire (direct x wire llm) (clamped p input) (quiet h)).0)
              begun in
        let (r, ran, is) =
          run-outcome x wire llm layout heap trapped Live keeps tidy engine p duration input w b out
            s m client linked back_in back_out has encoded some_in small_in fine_in
            (ap wire.agent_output.encode same ∙ answered) some_out small_out fine_out in
        (r, ran, is ∙ same)
