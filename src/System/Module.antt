-- ===== src/System/Module.antt =====
-- The agent as a module: its exports, on the store of a run, with the host's three functions as its
-- imports. The allocator is a parameter, and so is the trap of a `tds_run` on a range outside the memory.
use tds_wasm_ai.Common.{ℕ, none, some, List, Result, ok, err}
use tds_wasm_ai.External.{External}
use tds_wasm_ai.Wire.{Wire}
use tds_wasm_ai.Runtime.Memory.{read_guest}
use tds_wasm_ai.Runtime.State.{LlmProvider, Store}
use tds_wasm_ai.Runtime.Exec.{Failure, Exec, pure}
use tds_wasm_ai.Runtime.Run.{Instance}
use tds_wasm_ai.Agent.Exports.{Heap, tds_abi_version, tds_alloc, tds_dealloc, tds_run}
use tds_wasm_ai.System.Guest.{Layout, Computes, imports}

-- What an allocator promises here: it changes the guest's own state only.
pub record IsComputing {W : Type 0} (heap : Heap (Store W)) : Type 0 where
  pub alloc : (n : ℕ) (s : Store W) → Computes s (heap.alloc n s).1
  pub dealloc : (ptr n : ℕ) (s : Store W) → Computes s (heap.dealloc ptr n s)
  pub copy : (bytes : List ℕ) (ptr : ℕ) (s : Store W) → Computes s (heap.copy bytes ptr s)

abbrev pub returning : {W A : Type 0} → A × Store W → Result Failure A × Store W
returning (a, s) = (ok a, s)

module _ {V U W : Type 0} (x : External V U W) (wire : Wire V) (llm : LlmProvider V W)
    (layout : Layout W) (heap : Heap (Store W)) (trapped : Failure) where
  unfoldable pub run_export : ℕ → ℕ → Exec W ℕ
  run_export ptr len s = elim (read_guest s.memory ptr len) [
    | none ↦ (err trapped, s)
    | some bytes ↦ returning (tds_run x.json wire (imports x wire llm layout) heap bytes s)
  ]

  abbrev pub agent : Instance W
  agent = record {
    tds_abi_version = ok (pure tds_abi_version);
    tds_alloc = ok (λ n s. returning (tds_alloc heap n s));
    tds_dealloc = ok (λ ptr n s. (ok tt, tds_dealloc heap ptr n s));
    tds_run = ok run_export;
  }
