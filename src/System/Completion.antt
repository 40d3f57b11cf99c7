-- ===== src/System/Completion.antt =====
-- `invoke_agent` of the host on the exports of the agent.
use tds_wasm_ai.Common.{
  ℕ, ◌^◌, ◌%◌, ◌<◌, ◌≡◌, ◌≢◌, ap, ◌∙◌, some, Option, List, length, Result, ok, arith,
}
use tds_wasm_ai.External.{External}
use tds_wasm_ai.Wire.{Wire, RoundTrips}
use tds_wasm_ai.Abi.Types.{AgentInput, AgentOutput}
use tds_wasm_ai.Abi.Packing.{unpack_ptr_len, unpack-pack}
use tds_wasm_ai.Runtime.Memory.{read_guest, write_guest}
use tds_wasm_ai.Runtime.Memory.Laws.{replaced}
use tds_wasm_ai.Runtime.State.{LlmProvider, Store}
use tds_wasm_ai.Runtime.Exec.{Failure}
use tds_wasm_ai.Runtime.Run.{invoke_agent}
use tds_wasm_ai.Agent.Exports.{Heap, tds_alloc, tds_dealloc, leak_to_host, run_input, tds_run}
use tds_wasm_ai.Agent.Loop.{run_agent}
use tds_wasm_ai.Agent.Loop.Keeps.{run_agent-keeps}
use tds_wasm_ai.System.Guest.{Layout, imports}
use tds_wasm_ai.System.Module.{agent}
use tds_wasm_ai.System.Handshake.{
  IsAllocator, IsTidy, imports-live, tds_alloc-alloc, leak_to_host-copy, tds_dealloc-reads,
}
use tds_wasm_ai.System.Actions.{write_memory-ok, run_export-ok, collect-ok, invoke_agent-collect}

module _ {V U W : Type 0} (x : External V U W) (wire : Wire V) (llm : LlmProvider V W)
    (layout : Layout W) (heap : Heap (Store W)) (trapped : Failure) where
  -- The store in which the agent's own code starts: the input is in a new block.
  unfoldable pub started : List ℕ → Store W → Store W
  started b s =
      let (p, t) = heap.alloc (length b) s in record t { memory = write_guest t.memory p b }

  -- What the agent's own code gives there.
  unfoldable pub outcome : List ℕ → AgentInput → Store W → AgentOutput V × Store W
  outcome b input s = run_agent x.json wire (imports x wire llm layout) input (started b s)

  module _ (Live : Option (List ℕ) → ℕ → ℕ → Type 0) (keeps : IsAllocator heap Live)
      (tidy : IsTidy layout Live) where
    -- What the agent leaves in memory: the word's block, other than the input's, holds the output.
    record Leaves (out : List ℕ) (p n : ℕ) (o : ℕ × Store W) : Type 0 where
      ptr : ℕ
      word : unpack_ptr_len o.0 ≡ (ptr, length out)
      given : ptr ≢ 0
      reads : read_guest o.1.memory ptr (length out) ≡ some out
      live : Live o.1.memory ptr (length out)
      input_live : Live o.1.memory p n
      apart : ptr ≢ p

    leak_to_host-Leaves :
        (out : List ℕ) (p n : ℕ) (s : Store W)
        → 0 < length out
        → length out < 2 ^ 31
        → (heap.alloc (length out) s).0 ≢ 0
        → Live s.memory p n
        → Leaves out p n (leak_to_host heap out s)
    leak_to_host-Leaves out p n s some_ small fine live =
        let (q, t) = heap.alloc (length out) s in
        let here : Live t.memory q (length out) = keeps.alloc_live (length out) s fine in
        let (there, apart) = keeps.alloc_apart (length out) s p n live in
        rw (leak_to_host-copy heap out s some_ small fine) (record {
          ptr = q;
          word =
              (unpack-pack q (length out) (keeps.alloc_word (length out) s)
                (omega (arith, small))).1;
          given = fine;
          reads = keeps.copied t q out here;
          live = keeps.copy_live t q out q (length out) here here;
          input_live = keeps.copy_live t q out p n here there;
          apart = apart;
        })

    tds_run-Leaves :
        (b out : List ℕ) (input : AgentInput) (p n : ℕ) (u : Store W)
        → wire.agent_input.decode b ≡ ok input
        → let o = run_agent x.json wire (imports x wire llm layout) input u in
          wire.agent_output.encode o.0 ≡ ok out
          → 0 < length out
          → length out < 2 ^ 31
          → (heap.alloc (length out) o.1).0 ≢ 0
          → Live u.memory p n
          → Leaves out p n (tds_run x.json wire (imports x wire llm layout) heap b u)
    unfolding tds_run run_input
    tds_run-Leaves b out input p n u read encoded some_ small fine live =
        let host = imports x wire llm layout in
        let o = run_agent x.json wire host input u in
        let kept : Live o.1.memory p n =
          run_agent-keeps wire host (λ t. Live t.memory p n)
            (imports-live x wire llm layout Live tidy p n) x.json input u live in
        rw (tds_run, run_input, read, encoded)
          (leak_to_host-Leaves out p n o.1 some_ small fine kept)

    -- The input's block is allocated, written and read.
    input_placed :
        (b : List ℕ) (s : Store W)
        → 0 < length b
        → length b < 2 ^ 31
        → (heap.alloc (length b) s).0 ≢ 0
        → let (p, t) = heap.alloc (length b) s in
          (after : List ℕ) × (write_guest t.memory p b ≡ some after)
          × (read_guest (some after) p (length b) ≡ some b)
          × Live (some after) p (length b)
    input_placed b s some_ small fine =
        let (p, t) = heap.alloc (length b) s in
        let here : Live t.memory p (length b) = keeps.alloc_live (length b) s fine in
        let (old, size, reads) = keeps.holds t.memory p (length b) here in
        let (after, wrote, back) = replaced t.memory old b p size (rw size reads) in
        (after, wrote, back, keeps.written t.memory p b after p (length b) here wrote here)

    -- With an allocator and a layout that keep their promises, and encodings that are decoded
    -- again: if the module has a memory, the encoded input and output have from 1 to 2^31 - 1
    -- bytes, and the allocator gives a block for each, then `invoke_agent` of the host on the
    -- exports of the agent succeeds with the very output that `run_agent` gives for this input in
    -- the store in which it starts.
    pub invoke_agent-outcome :
        (b out : List ℕ) (input : AgentInput) (s : Store W) (m : List ℕ)
        → RoundTrips wire.agent_input
        → RoundTrips wire.agent_output
        → s.memory ≡ some m
        → wire.agent_input.encode input ≡ ok b
        → 0 < length b
        → length b < 2 ^ 31
        → (heap.alloc (length b) s).0 ≢ 0
        → wire.agent_output.encode (outcome b input s).0 ≡ ok out
        → 0 < length out
        → length out < 2 ^ 31
        → (heap.alloc (length out) (outcome b input s).1).0 ≢ 0
        → (invoke_agent wire (agent x wire llm layout heap trapped) input s).0
          ≡ ok (outcome b input s).0
    unfolding outcome started
    invoke_agent-outcome b out input s m back_in back_out has encoded some_in small_in fine_in
          answered some_out small_out fine_out =
        let host = imports x wire llm layout in
        let p = (heap.alloc (length b) s).0 in
        let t = (heap.alloc (length b) s).1 in
        let u = started b s in
        let (after, wrote, reads, live) = input_placed b s some_in small_in fine_in in
        let reads_u : read_guest u.memory p (length b) ≡ some b = rw wrote reads in
        let live_u : Live u.memory p (length b) = rw wrote live in
        let word : length b % 2 ^ 32 ≡ length b = omega (arith, small_in) in
        let r = tds_run x.json wire host heap b u in
        let leaves : Leaves out p (length b) r =
          tds_run-Leaves b out input p (length b) u (back_in.decode-encode input b encoded) answered
            some_out small_out fine_out live_u in
        let len = length b % 2 ^ 32 in
        let v = tds_dealloc heap p len r.1 in
        let reads_v : read_guest v.memory leaves.ptr (length out) ≡ some out = rw word (
          tds_dealloc-reads heap Live keeps r.1 p (length b) leaves.ptr (length out) out
            leaves.input_live leaves.live leaves.apart leaves.reads) in
        let alloc : tds_alloc heap len s ≡ (p, t) =
          rw word (tds_alloc-alloc heap (length b) s some_in small_in) in
        let done =
          invoke_agent-collect x wire llm layout heap trapped b input s t u r.1 m p r.0 has encoded
            alloc fine_in (write_memory-ok t p b after wrote)
            (run_export-ok x wire llm layout heap trapped p len b u (rw word reads_u)) in
        ap (λ (o : Result Failure (AgentOutput V) × Store W). o.0) done
        ∙ collect-ok x wire llm layout heap trapped out (outcome b input s).0 p (length b) r.0 v
            back_out answered some_out leaves.ptr leaves.word leaves.given reads_v
