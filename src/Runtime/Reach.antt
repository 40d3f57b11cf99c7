-- ===== src/Runtime/Reach.antt =====
-- The steps that a guest can make in its store. The guest is any module that the host accepts: it may
-- compute, which changes its own memory and burns fuel, and it may call the three host functions with
-- any arguments. crates/tds-host/src/runtime.rs registers no other.
pub mod Branches
pub mod Bounds
pub mod Confinement
pub mod Turns
use tds_wasm_ai.Common.{ℕ, ◌≤◌, ◌≡◌, Option, List}
use tds_wasm_ai.Common.Int.{ℤ}
use tds_wasm_ai.External.{External}
use tds_wasm_ai.Wire.{Wire}
use tds_wasm_ai.Runtime.State.{LlmProvider, Store}
use tds_wasm_ai.Runtime.Calls.{log, call, response_read}

module _ {V U W : Type 0} (x : External V U W) (wire : Wire V) (llm : LlmProvider V W) where
  pub data Step (s t : Store W) : Type 0 where
    logged : (level : ℤ) (ptr len : ℕ) → t ≡ log s level ptr len → Step s t
    called :
        (name_ptr name_len req_ptr req_len : ℕ)
        → t ≡ (call x wire llm s name_ptr name_len req_ptr req_len).1
        → Step s t
    received : (ptr len : ℕ) → t ≡ (response_read s ptr len).1 → Step s t
    computed :
        (memory : Option (List ℕ)) (fuel : ℕ)
        → fuel ≤ s.fuel
        → t ≡ record s { memory = memory; fuel = fuel }
        → Step s t

  pub data Reach (s : Store W) : Store W → Type 0 where
    here : Reach s s
    next : {t u : Store W} → Reach s t → Step t u → Reach s u
