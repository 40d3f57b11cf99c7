-- ===== src/Examples/Services.antt =====
-- A service that is asked for its policy, for a run and for a run of a blank task.
use native.Mathlib.Nat.{le_refl}
use tds_wasm_ai.Common.{◌+◌, ◌*◌, ◌≤◌, List, [], ◌∷◌, length, arith}
use tds_wasm_ai.Service.{Request, get_policy, post_runs}
use tds_wasm_ai.Runtime.Reach.Turns.{IsCount}
use tds_wasm_ai.Main.{answers}
use tds_wasm_ai.Main.Served.{answers-turns}
use tds_wasm_ai.Examples.Parts.{start, ext, wire}
use tds_wasm_ai.Examples.Guests.{engine-IsSandboxed}
use tds_wasm_ai.Examples.Starting.{host, provider, runtime, request}

abbrev requests : List Request
requests = get_policy ∷ post_runs request ∷ post_runs (record request { task = " " }) ∷ []

counts : IsCount ext wire provider (λ w. w.1)
counts = record {
  clock = λ w. le_refl w.1;
  send = λ u w. le_refl w.1;
  complete = λ r w. omega arith;
}

answers-turns_example :
    (answers host 12 runtime requests start).1.1
    ≤ start.1 + length requests * runtime.policy.limits.max_steps
answers-turns_example =
    answers-turns host ext 12 runtime (engine-IsSandboxed provider) (λ w. w.1) requests start counts
      (omega arith)
