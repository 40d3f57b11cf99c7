-- ===== src/System/Actions.antt =====
-- The actions of `invoke_agent` on the exports of the agent, one after the other.
use tds_wasm_ai.Common.{
  ℕ, ◌^◌, ◌%◌, ◌<◌, ◌≡◌, ◌≢◌, refl, ap, ◌∙◌, ◌||◌, true, false, eqb, none, some, Option, List,
  length, String, Bool, Result, ok, err, map_err, arith,
}
use tds_wasm_ai.External.{External}
use tds_wasm_ai.Wire.{Wire, RoundTrips}
use tds_wasm_ai.Abi.Types.{AgentInput, AgentOutput}
use tds_wasm_ai.Abi.Packing.{unpack_ptr_len}
use tds_wasm_ai.Runtime.Memory.{read_guest, write_guest}
use tds_wasm_ai.Runtime.State.{LlmProvider, Store}
use tds_wasm_ai.Runtime.Exec.{Failure, Exec, failure, lift, context, bail_if, resume, ◌>>=◌}
use tds_wasm_ai.Runtime.Run.{invoke_agent, has_memory, write_memory, read_memory, collect}
use tds_wasm_ai.Agent.Exports.{Heap, tds_alloc, tds_dealloc, tds_run}
use tds_wasm_ai.System.Guest.{Layout, imports}
use tds_wasm_ai.System.Module.{agent, run_export, returning}

module _ {W : Type 0} where
  bail_if-ok :
      (b : Bool) (message : String) (s : Store W) → b ≡ false → bail_if b message s ≡ (ok tt, s)
  bail_if-ok true message s h = cc (h)
  bail_if-ok false message s h = refl

  has_memory-ok : (s : Store W) (m : List ℕ) → s.memory ≡ some m → has_memory s ≡ (ok tt, s)
  unfolding has_memory
  has_memory-ok s m has =
      ap
        (λ (m : Option (List ℕ)). (
          elim m as (λ _. Result Failure (Unit {0})) [
            | none ↦ err (failure "agent module does not export its memory")
            | some memory ↦ ok tt
          ],
          s,
        ))
        has

  pub write_memory-ok :
      (s : Store W) (p : ℕ) (b after : List ℕ)
      → write_guest s.memory p b ≡ some after
      → write_memory p b s ≡ (ok tt, record s { memory = write_guest s.memory p b })
  unfolding write_memory
  write_memory-ok s p b after wrote = rw (write_memory, wrote) refl

module _ {W A : Type 0} where
  pub bind_run :
      {B : Type 0} (m : Exec W A) (f : A → Exec W B) (s t : Store W) (a : A)
      → m s ≡ (ok a, t)
      → (m >>= f) s ≡ f a t
  unfolding ◌>>=◌
  bind_run m f s t a e = ap (λ (o : Result Failure A × Store W). resume o.0 f o.1) e

  pub context_run :
      (message : String) (m : Exec W A) (s t : Store W) (a : A)
      → m s ≡ (ok a, t)
      → context message m s ≡ (ok a, t)
  context_run message m s t a e = rw e refl

module _ {V U W : Type 0} (x : External V U W) (wire : Wire V) (llm : LlmProvider V W)
    (layout : Layout W) (heap : Heap (Store W)) (trapped : Failure) where
  pub run_export-ok :
      (p n : ℕ) (bytes : List ℕ) (s : Store W)
      → read_guest s.memory p n ≡ some bytes
      → run_export x wire llm layout heap trapped p n s
        ≡ returning (tds_run x.json wire (imports x wire llm layout) heap bytes s)
  unfolding run_export
  run_export-ok p n bytes s reads = rw (run_export, reads) refl

  -- The host reads the output from its block.
  pub collect-ok :
      (out : List ℕ) (output : AgentOutput V) (p n word : ℕ) (s : Store W)
      → RoundTrips wire.agent_output
      → wire.agent_output.encode output ≡ ok out
      → 0 < length out
      → (q : ℕ) → unpack_ptr_len word ≡ (q, length out)
      → q ≢ 0
      → read_guest s.memory q (length out) ≡ some out
      → (collect wire (λ ptr n s. (ok tt, tds_dealloc heap ptr n s)) word s).0 ≡ ok output
  unfolding collect ◌>>=◌ read_memory read_guest
  collect-ok out output p n word s back encoded some_ q is given reads =
      let there : (eqb q 0 || eqb (length out) 0) ≡ false = ground arith in
      let decoded : wire.agent_output.decode out ≡ ok output =
        back.decode-encode output out encoded in
      rw (collect, is, there, reads, decoded) refl

  -- The host's actions up to the end of the agent's run, where each of them succeeds.
  pub invoke_agent-collect :
      (b : List ℕ) (input : AgentInput) (s t u w : Store W) (m : List ℕ) (p word : ℕ)
      → s.memory ≡ some m
      → wire.agent_input.encode input ≡ ok b
      → tds_alloc heap (length b % 2 ^ 32) s ≡ (p, t)
      → p ≢ 0
      → write_memory p b t ≡ (ok tt, u)
      → run_export x wire llm layout heap trapped p (length b % 2 ^ 32) u ≡ (ok word, w)
      → invoke_agent wire (agent x wire llm layout heap trapped) input s
        ≡ collect wire
            (λ ptr n s. (ok tt, tds_dealloc heap ptr n s))
            word
            (tds_dealloc heap p (length b % 2 ^ 32) w)
  unfolding invoke_agent
  invoke_agent-collect b input s t u w m p word has encoded alloc given wrote ran =
      let i = agent x wire llm layout heap trapped in
      let len = length b % 2 ^ 32 in
      bind_run has_memory _ s s tt (has_memory-ok s m has)
      ∙ bind_run (lift i.tds_alloc) _ s s _ refl
      ∙ bind_run (lift i.tds_dealloc) _ s s _ refl
      ∙ bind_run (lift i.tds_run) _ s s _ refl
      ∙ bind_run (lift (map_err failure (wire.agent_input.encode input))) _ s s b
          (ap (λ e. (map_err failure e, s)) encoded)
      ∙ bind_run (λ w. returning (tds_alloc heap len w)) _ s t p (ap returning alloc)
      ∙ bind_run (bail_if (eqb p 0) _) _ t t tt (bail_if-ok (eqb p 0) _ t (ground arith))
      ∙ bind_run (context _ (write_memory p b)) _ t u tt
          (context_run _ (write_memory p b) t u tt wrote)
      ∙ bind_run (run_export x wire llm layout heap trapped p len) _ u w word ran
      ∙ bind_run (λ w. (ok tt, tds_dealloc heap p len w)) _ w (tds_dealloc heap p len w) tt refl
