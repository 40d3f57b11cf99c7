-- ===== src/System/Handshake.antt =====
-- `invoke_agent` of the host on the exports of the agent: how the input and the result pass through the
-- guest's memory.
use tds_wasm_ai.Common.{
  ℕ, ◌^◌, ◌-◌, ◌%◌, ◌<◌, ◌≡◌, ◌≢◌, refl, ◌||◌, true, false, Bool-cases, Option-cases, inl, inr, eqb,
  leb, some, Option, List, length, arith,
}
use tds_wasm_ai.External.{External}
use tds_wasm_ai.Wire.{Wire}
use tds_wasm_ai.Abi.Packing.{pack_ptr_len}
use tds_wasm_ai.Runtime.Memory.{read_guest, write_guest}
use tds_wasm_ai.Runtime.State.{LlmProvider, Store}
use tds_wasm_ai.Agent.Exports.{Heap, tds_alloc, tds_dealloc, leak_to_host}
use tds_wasm_ai.Agent.Loop.Keeps.{IsKept}
use tds_wasm_ai.Common.Int.{ℤ}
use tds_wasm_ai.Runtime.Calls.{log, call, serve, response_read}
use tds_wasm_ai.System.Guest.{Layout, guest_log, guest_call, guest_read, imports}

-- What an allocator promises. `Live m ptr n` says that the block of `n` bytes at `ptr` in the memory `m`
-- was handed out and is not freed yet.
pub record IsAllocator {W : Type 0} (heap : Heap (Store W))
    (Live : Option (List ℕ) → ℕ → ℕ → Type 0) : Type 0 where
  pub alloc_word : (n : ℕ) (s : Store W) → (heap.alloc n s).0 < 2 ^ 32
  pub alloc_live :
      (n : ℕ) (s : Store W)
      → (heap.alloc n s).0 ≢ 0
      → Live (heap.alloc n s).1.memory (heap.alloc n s).0 n
  pub alloc_apart :
      (n : ℕ) (s : Store W) (p m : ℕ)
      → Live s.memory p m
      → Live (heap.alloc n s).1.memory p m × ((heap.alloc n s).0 ≢ p)
  -- A block lies in the memory.
  pub holds :
      (m : Option (List ℕ)) (p n : ℕ)
      → Live m p n
      → (old : List ℕ) × (length old ≡ n) × (read_guest m p n ≡ some old)
  -- Writing to a block frees none.
  pub written :
      (m : Option (List ℕ)) (p : ℕ) (new after : List ℕ) (q n : ℕ)
      → Live m p (length new)
      → write_guest m p new ≡ some after
      → Live m q n
      → Live (some after) q n
  pub copied :
      (s : Store W) (p : ℕ) (new : List ℕ)
      → Live s.memory p (length new)
      → read_guest (heap.copy new p s).memory p (length new) ≡ some new
  pub copy_live :
      (s : Store W) (p : ℕ) (new : List ℕ) (q n : ℕ)
      → Live s.memory p (length new)
      → Live s.memory q n
      → Live (heap.copy new p s).memory q n
  -- Freeing a block leaves the others as they are.
  pub dealloc_apart :
      (s : Store W) (p n q m : ℕ) (bytes : List ℕ)
      → Live s.memory p n
      → Live s.memory q m
      → q ≢ p
      → read_guest s.memory q m ≡ some bytes
      → read_guest (heap.dealloc p n s).memory q m ≡ some bytes

-- What a compiler promises of its buffers besides: laying them out frees no block, and neither does a write
-- to one of them.
pub record IsTidy {W : Type 0} (layout : Layout W) (Live : Option (List ℕ) → ℕ → ℕ → Type 0)
    : Type 0 where
  pub one :
      (buf : List ℕ) (s : Store W) (q n : ℕ)
      → Live s.memory q n
      → Live (layout.one buf s).1.memory q n
  pub two :
      (a b : List ℕ) (s : Store W) (q n : ℕ)
      → Live s.memory q n
      → Live (layout.two a b s).1.memory q n
  pub one_written :
      (buf new after : List ℕ) (s : Store W) (q n : ℕ)
      → length new ≡ length buf
      → write_guest (layout.one buf s).1.memory (layout.one buf s).0 new ≡ some after
      → Live s.memory q n
      → Live (some after) q n

module _ {W : Type 0} where
  log-memory : (s : Store W) (level : ℤ) (ptr len : ℕ) → (log s level ptr len).memory ≡ s.memory
  unfolding log
  log-memory s level ptr len = ground arith

  call-memory :
      {V U : Type 0} (x : External V U W) (wire : Wire V) (llm : LlmProvider V W) (s : Store W)
      (a b c d : ℕ)
      → (call x wire llm s a b c d).1.memory ≡ s.memory
  unfolding call serve
  call-memory x wire llm s a b c d = ground arith

module _ {V U W : Type 0} (x : External V U W) (wire : Wire V) (llm : LlmProvider V W)
    (layout : Layout W) (Live : Option (List ℕ) → ℕ → ℕ → Type 0) (tidy : IsTidy layout Live)
    (q n : ℕ) where
  received-live :
      (buf : List ℕ) (s : Store W)
      → Live s.memory q n
      → Live (response_read (layout.one buf s).1 (layout.one buf s).0 (length buf)).1.memory q n
  unfolding response_read
  received-live buf s live =
      let (ptr, t) = layout.one buf s in
      elim (Bool-cases (eqb (length t.host.pending) (length buf))) [
        | inr other ↦ rw (response_read, other) (tidy.one buf s q n live)
        | inl all ↦ elim (Option-cases (write_guest t.memory ptr t.host.pending)) [
          | inl outside ↦ rw (response_read, all, outside) (tidy.one buf s q n live)
          | inr (after, inside) ↦
              rw (response_read, all, inside)
                (tidy.one_written buf t.host.pending after s q n (ground arith) inside live)
        ]
      ]

  -- The agent's calls of the host free no block.
  pub imports-live : IsKept wire (imports x wire llm layout) (λ t. Live t.memory q n)
  unfolding guest_log guest_call guest_read
  imports-live = record {
    log = λ level message s live.
        rw (log-memory (layout.one message s).1 level (layout.one message s).0 (length message))
          (tidy.one message s q n live);
    call = λ name body s live.
        rw
          (call-memory x wire llm (layout.two name body s).1 (layout.two name body s).0.0
            (length name) (layout.two name body s).0.1 (length body))
          (tidy.two name body s q n live);
    fetch = λ buf s live. received-live buf s live;
  }

module _ {W : Type 0} (heap : Heap (Store W)) where
  pub tds_alloc-alloc :
      (n : ℕ) (s : Store W) → 0 < n → n < 2 ^ 31 → tds_alloc heap n s ≡ heap.alloc n s
  unfolding tds_alloc
  tds_alloc-alloc n s some_ small =
      let here : eqb n 0 ≡ false = ground arith in
      let fits : leb n (2 ^ 31 - 1) ≡ true = ground arith in rw (tds_alloc, here, fits) refl

  pub leak_to_host-copy :
      (bytes : List ℕ) (s : Store W)
      → 0 < length bytes
      → length bytes < 2 ^ 31
      → (heap.alloc (length bytes) s).0 ≢ 0
      → let (out, t) = heap.alloc (length bytes) s in
        leak_to_host heap bytes s ≡ (pack_ptr_len out (length bytes), heap.copy bytes out t)
  unfolding leak_to_host
  leak_to_host-copy bytes s some_ small fine =
      let n = length bytes in
      let word : n % 2 ^ 32 ≡ n = omega (arith, small) in
      let given : eqb (heap.alloc n s).0 0 ≡ false = ground arith in
      rw (leak_to_host, word, tds_alloc-alloc n s some_ small, given) refl

  -- After a block has been freed, or not, another one reads as before.
  pub tds_dealloc-reads :
      (Live : Option (List ℕ) → ℕ → ℕ → Type 0) (keeps : IsAllocator heap Live) (s : Store W)
      (p n q m : ℕ) (bytes : List ℕ)
      → Live s.memory p n
      → Live s.memory q m
      → q ≢ p
      → read_guest s.memory q m ≡ some bytes
      → read_guest (tds_dealloc heap p n s).memory q m ≡ some bytes
  unfolding tds_dealloc
  tds_dealloc-reads Live keeps s p n q m bytes first second apart reads =
      elim (Bool-cases (eqb p 0 || eqb p 1 || eqb n 0)) [
        | inl dangling ↦ rw (tds_dealloc, dangling) reads
        | inr freed ↦ elim (Bool-cases (leb n (2 ^ 31 - 1))) [
          | inl fits ↦
              rw (tds_dealloc, freed, fits)
                (keeps.dealloc_apart s p n q m bytes first second apart reads)
          | inr large ↦ rw (tds_dealloc, freed, large) reads
        ]
      ]
