-- ===== src/Runtime/Overlap.antt =====
-- Runs of one runtime that overlap in time: crates/tds-host/src/main.rs shares the `Runtime` among the
-- requests of the service, and each run has a store of its own (`run` in crates/tds-host/src/runtime.rs).
-- The runs share the world outside. A step of a run is a step of its guest, in which at most one tool or
-- completion reaches the world.
pub mod Limits
pub mod Runs
use tds_wasm_ai.Common.{◌≡◌, List, [], ◌∷◌, ◌++◌}
use tds_wasm_ai.External.{External}
use tds_wasm_ai.Wire.{Wire}
use tds_wasm_ai.Policy.Types.{Policy}
use tds_wasm_ai.Runtime.State.{LlmProvider, Store}
use tds_wasm_ai.Runtime.Reach.{Step}
use tds_wasm_ai.Runtime.Run.{blank}

-- The stores of the runs that have begun, and the world.
pub record Shared (W : Type 0) : Type 0 where
  pub stores : List (Store W)
  pub world : W

abbrev pub idle : {W : Type 0} → W → Shared W
idle w = record { stores = []; world = w }

-- A run finds the world as the others left it.
abbrev pub lend : {W : Type 0} → W → Store W → Store W
lend w s = record s { host = record (s.host) { world = w } }

module _ {V U W : Type 0} (x : External V U W) (wire : Wire V) (llm : LlmProvider V W)
    (p : Policy) where
  pub data Advances (a b : Shared W) : Type 0 where
    begins : b ≡ record { stores = blank p a.world ∷ a.stores; world = a.world } → Advances a b
    steps :
        (before : List (Store W)) (s : Store W) (after : List (Store W)) (t : Store W)
        → a.stores ≡ before ++ s ∷ after
        → Step x wire llm (lend a.world s) t
        → b ≡ record { stores = before ++ t ∷ after; world = t.host.world }
        → Advances a b

  pub data Overlaps (a : Shared W) : Shared W → Type 0 where
    rests : Overlaps a a
    goes_on : {b c : Shared W} → Overlaps a b → Advances b c → Overlaps a c
