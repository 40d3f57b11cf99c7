-- ===== src/Examples/Guests.antt =====
-- Guests in memory, in a run and in an engine whose guests only compute.
use tds_wasm_ai.Common.{
  ℕ, ◌+◌, ◌-◌, ◌^◌, ◌<◌, ◌≤◌, ◌≡◌, ◌↔◌, refl, some, none, List, [], ◌∷◌, take, drop, length, Result,
  ok, arith,
}
use mathlib.Core.Path.{subst}
use native.Mathlib.Nat.{le_refl}
use tds_wasm_ai.Common.Int.{pos, eqb_ℤ, as_i32}
use tds_wasm_ai.Abi.Types.{AgentInput, abi_version}
use tds_wasm_ai.Abi.Packing.{pack_ptr_len, unpack_ptr_len}
use tds_wasm_ai.Policy.Types.{default_policy}
use tds_wasm_ai.Tools.Invoke.{is_enabled}
use tds_wasm_ai.Runtime.Memory.{read_guest, write_guest}
use tds_wasm_ai.Runtime.Memory.Laws.{read_guest_iff}
use tds_wasm_ai.Runtime.State.{LlmProvider, Store, fresh}
use tds_wasm_ai.Runtime.Exec.{Failure, Exec, pure, ◌>>=◌}
use tds_wasm_ai.Common.Utf8.{as_bytes, encode_scalar, from_utf8, decode, advance}
use tds_wasm_ai.Runtime.Dispatch.{dispatch, list_tools, respond}
use tds_wasm_ai.Runtime.Calls.{log, call, serve}
use tds_wasm_ai.Runtime.Reach.{logged, computed, Reach, here, next}
use tds_wasm_ai.Runtime.Reach.Bounds.{IsSound, fresh-IsSound, Reach-IsSound}
use tds_wasm_ai.Runtime.Reach.Confinement.{IsKept}
use tds_wasm_ai.Runtime.Reach.Turns.{IsCount}
use tds_wasm_ai.Runtime.Run.{
  Instance, Engine, RunReport, blank, run, prepare, check_abi_version, conclude, report,
  invoke_agent, has_memory, write_memory, read_memory, collect,
}
use tds_wasm_ai.Runtime.Run.Sandboxed.{Confined, IsConfined, IsSandboxed, Confined-pure}
use tds_wasm_ai.Runtime.Run.Reports.{IsFaithful, run-IsFaithful, run-turns, run-confined}
use tds_wasm_ai.Examples.Parts.{Value, World, start, ext, wire, model, done, open_policy}

abbrev two : List ℕ
two = 2 ∷ 3 ∷ []

read_guest_iff_example :
    (read_guest (some (1 ∷ 2 ∷ 3 ∷ [])) 1 2 ≡ some two)
    ↔ ((1 + 2 ≤ length {A = ℕ} (1 ∷ 2 ∷ 3 ∷ [])) × (two ≡ take 2 (drop 1 (1 ∷ 2 ∷ 3 ∷ []))))
read_guest_iff_example = read_guest_iff (1 ∷ 2 ∷ 3 ∷ []) 1 2 two (omega arith)

written : write_guest (some (1 ∷ 2 ∷ 3 ∷ [])) 1 (8 ∷ 9 ∷ []) ≡ some (1 ∷ 8 ∷ 9 ∷ [])
unfolding write_guest
written = refl

-- A guest that has four bytes of memory and logs two of them.
abbrev begun : Store World
begun = record {
  memory = some (104 ∷ 105 ∷ 0 ∷ 0 ∷ []);
  fuel = 100;
  host = fresh open_policy start;
}

logs_once : Reach ext wire model begun (log begun (pos 1) 0 2)
logs_once = next here (logged (pos 1) 0 2 refl)

Reach-IsSound_example : IsSound open_policy (log begun (pos 1) 0 2).host
Reach-IsSound_example =
    Reach-IsSound ext wire model open_policy (fresh-IsSound ext wire model open_policy start)
      logs_once

-- An engine whose modules burn one unit of fuel when they start and have their result at address 4.
abbrev module_ : Instance World
module_ = record {
  tds_abi_version = ok (pure abi_version);
  tds_alloc = ok (λ n. pure 4);
  tds_dealloc = ok (λ a b. pure tt);
  tds_run = ok (λ a b. pure (pack_ptr_len 4 1));
}

abbrev burning : Exec World (Instance World)
burning s = (ok module_, record s { memory = some (0 ∷ 0 ∷ 0 ∷ 0 ∷ 0 ∷ 0 ∷ []); fuel = s.fuel - 1 })

abbrev pub engine : Engine World
engine = record { client = ok tt; instantiate = λ a b c. burning }

abbrev input : AgentInput
input = record { task = "What time is it?"; context = none; max_steps = 3 }

ok_same : {A : Type 0} (a b : A) → ◌≡◌ {A = Result Failure A} (ok a) (ok b) → a ≡ b
ok_same a b h = cc (h)

module_-IsConfined : (llm : LlmProvider Value World) → IsConfined ext wire llm module_
module_-IsConfined llm = record {
  version = λ call e.
      subst (λ f. Confined ext wire llm f) (ok_same _ call e)
        (Confined-pure ext wire llm abi_version);
  alloc = λ call e n.
      subst (λ (f : ℕ → Exec World ℕ). Confined ext wire llm (f n)) (ok_same _ call e)
        (Confined-pure ext wire llm 4);
  dealloc = λ call e a b.
      subst (λ (f : ℕ → ℕ → Exec World (Unit {0})). Confined ext wire llm (f a b))
        (ok_same _ call e) (Confined-pure ext wire llm tt);
  run = λ call e a b.
      subst (λ (f : ℕ → ℕ → Exec World ℕ). Confined ext wire llm (f a b)) (ok_same _ call e)
        (Confined-pure ext wire llm (pack_ptr_len 4 1));
}

pub engine-IsSandboxed : (llm : LlmProvider Value World) → IsSandboxed ext wire llm engine
engine-IsSandboxed llm = record {
  instantiate = λ a b c. record { at = λ s. next here (computed _ _ (omega arith) refl) };
  instance_of = λ a b c s i h. subst (IsConfined ext wire llm) (cc (h)) (module_-IsConfined llm);
}

counts : IsCount ext wire model (λ w. w.1)
counts = record { clock = λ w. le_refl w.1; send = λ u w. le_refl w.1; complete = λ r w. le_refl _ }

run-turns_example :
    (run wire model engine open_policy 12 input start).1.host.world.1
    ≤ 0 + open_policy.limits.max_steps
run-turns_example =
    run-turns ext wire model engine open_policy (engine-IsSandboxed model) 12 input start (λ w. w.1)
      counts (omega arith)

-- That no request was made.
abbrev pub Untouched : World → Type 0
Untouched w = w.0 ≡ 0

-- A policy that enables no `http_get` keeps it so.
keeps_Untouched : IsKept ext wire model default_policy Untouched
unfolding is_enabled
keeps_Untouched = record {
  clock = λ on w q. q;
  send = λ on url host permitted w q. cc (on);
  complete = λ req w q. q;
}

run-confined_example : Untouched (run wire model engine default_policy 12 input start).1.host.world
run-confined_example =
    run-confined ext wire model engine default_policy (engine-IsSandboxed model) 12 input start
      Untouched keeps_Untouched refl

abbrev outcome : Result Failure (RunReport Value) × Store World
outcome = run wire model engine open_policy 12 input start

abbrev reported : RunReport Value
reported = record {
  output = done;
  model = model.describe;
  duration_ms = 12;
  fuel_used = 1;
  logs = [];
}

ran : run wire model engine open_policy 12 input start ≡ (ok reported, outcome.1)
unfolding run prepare check_abi_version ◌>>=◌ eqb_ℤ blank fresh conclude report invoke_agent
    has_memory write_memory read_memory collect write_guest read_guest pack_ptr_len unpack_ptr_len
ran = refl

run-IsFaithful_example :
    IsFaithful ext wire model engine open_policy
      (engine-IsSandboxed model)
      12
      input
      start
      reported
      outcome.1
run-IsFaithful_example =
    run-IsFaithful ext wire model engine open_policy (engine-IsSandboxed model) 12 input start
      reported outcome.1 ran

-- A guest that has the name of a capability in memory, and a response waiting.
abbrev naming : Store World
naming = record begun {
  memory = some (as_bytes "tools.list");
  host = record (fresh open_policy start) { pending = 7 ∷ 8 ∷ [] };
}

listed : (call ext wire model naming 0 10 0 0).0 ≡ pos 1
unfolding call serve read_guest from_utf8 dispatch list_tools respond as_bytes encode_scalar as_i32
    fresh decode advance
listed = refl

waiting : length (call ext wire model naming 0 10 0 0).1.host.pending < 2 ^ 31
unfolding call serve read_guest from_utf8 dispatch list_tools respond as_bytes encode_scalar as_i32
    fresh decode advance
waiting = omega arith

abbrev after : List ℕ
after = 104 ∷ 7 ∷ 8 ∷ 0 ∷ []

abbrev receiving : Store World
receiving = record begun { host = record (fresh open_policy start) { pending = 7 ∷ 8 ∷ [] } }

delivered : write_guest (some (104 ∷ 105 ∷ 0 ∷ 0 ∷ [])) 1 receiving.host.pending ≡ some after
unfolding write_guest
delivered = refl
