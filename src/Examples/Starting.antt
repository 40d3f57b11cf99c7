-- ===== src/Examples/Starting.antt =====
-- A host with one policy file, an engine whose modules have the shape of an agent, and the mock provider.
use tds_wasm_ai.Common.{
  ℕ, ◌≡◌, ◌↔◌, refl, inl, true, false, String, none, some, List, [], ◌∷◌, ok, err, Memᴰ, arith,
}
use mathlib.Core.Path.{subst}
use tds_wasm_ai.Policy.Types.{Policy, mock, default_policy, default_llm}
use tds_wasm_ai.Policy.Validation.{IsAcceptable}
use tds_wasm_ai.Policy.Load.{load_iff}
use tds_wasm_ai.Tools.Known.{known_tools}
use tds_wasm_ai.Tools.Invoke.{is_enabled}
use tds_wasm_ai.Common.Int.{eqb_ℤ}
use tds_wasm_ai.Abi.Packing.{pack_ptr_len, unpack_ptr_len}
use tds_wasm_ai.Runtime.Memory.{read_guest, write_guest}
use tds_wasm_ai.Runtime.Run.{
  RunReport, blank, run, prepare, check_abi_version, conclude, report, invoke_agent, has_memory,
  write_memory, read_memory, collect,
}
use tds_wasm_ai.Runtime.Exec.{failure, ◌>>=◌}
use tds_wasm_ai.Runtime.State.{LlmProvider, fresh}
use tds_wasm_ai.Runtime.Module.{required_exports, contains, contains_iff}
use tds_wasm_ai.Runtime.Reach.Confinement.{IsKept}
use tds_wasm_ai.Runtime.Ticker.{spawned}
use tds_wasm_ai.Runtime.New.{Wasmtime, Runtime, new, from_files}
use tds_wasm_ai.Runtime.New.Laws.{IsGuarded, new_iff}
use tds_wasm_ai.Llm.Build.{build}
use tds_wasm_ai.Llm.Anthropic.{Remote}
use tds_wasm_ai.Llm.Mock.{mock_provider}
use tds_wasm_ai.Service.{RunRequest, get_policy, post_runs, Derived}
use tds_wasm_ai.Main.{
  Cli, run_task, check, Platform, policy_of, checked, accepted, perform, main, run_in, printed,
  print_report,
}
use tds_wasm_ai.Main.Laws.{checked_iff}
use tds_wasm_ai.Main.Confined.{IsSafe, main-confined}
use tds_wasm_ai.Main.Performed.{Performs, main-Performs}
use tds_wasm_ai.Examples.Parts.{Value, World, start, ext, json, wire, text, done}
use tds_wasm_ai.Examples.Guests.{engine, engine-IsSandboxed, Untouched}

abbrev offline_policy : Policy
offline_policy = record default_policy { llm = record default_llm { provider = mock } }

offline_policy-IsAcceptable : IsAcceptable offline_policy
unfolding contains
offline_policy-IsAcceptable = record {
  fuel = omega arith;
  wall_clock = omega arith;
  steps = omega arith;
  memory = omega arith;
  thinking = inl refl;
  tools = (
    (contains_iff known_tools "now").0 refl,
    ((contains_iff known_tools "kv_get").0 refl, ((contains_iff known_tools "kv_put").0 refl, tt)),
  );
}

abbrev wasmtime : Wasmtime ℕ (List ℕ)
wasmtime = record {
  new_engine = λ config. ok 1;
  new_module = λ e wasm. ok wasm;
  shape = λ m. record {
    imports = record { module_name = "tds_host"; name = "call" } ∷ [];
    exports = required_exports;
  };
  spawn = ok tt;
  epoch = λ e. e;
}

abbrev remote : Remote Value World
remote = record {
  json = json;
  messages = λ ms. text "messages";
  tools = λ ts. text "tools";
  post = λ url key version beta b w. (err "offline", w);
  sleep = λ ms w. w;
}

abbrev pub request : RunRequest
request = record { task = "What time is it?"; context = none; max_steps = 4 }

abbrev derived : Derived Value
derived = record {
  limits = λ l. text "limits";
  provider = λ p. text "provider";
  effort = λ e. text "effort";
  thinking = λ t. text "thinking";
}

abbrev pub host : Platform Value World ℕ (List ℕ)
host = record {
  debug = λ s. s;
  read = λ path. ok (0 ∷ 97 ∷ 115 ∷ 109 ∷ []);
  read_to_string = λ path. ok "[llm]\nprovider = \"mock\"\n";
  from_str = λ text. ok offline_policy;
  machine = record { var = λ name. err "environment variable not found"; client = ok tt };
  remote = remote;
  wire = wire;
  wasmtime = wasmtime;
  engine = λ e m llm. engine;
  to_string_pretty = λ report. err (failure "no encoding");
  listen = λ addr. ok (get_policy ∷ post_runs request ∷ []);
  derived = derived;
  serving = ok tt;
}

abbrev pub provider : LlmProvider Value World
provider = mock_provider json wire.value

abbrev pub runtime : Runtime Value World ℕ (List ℕ)
runtime = record {
  engine = 1;
  module_ = 0 ∷ 97 ∷ 115 ∷ 109 ∷ [];
  policy = offline_policy;
  llm = provider;
  ticker = spawned 1;
}

exported : (name : String) → contains required_exports name ≡ true → Memᴰ name required_exports
exported name = (contains_iff required_exports name).0

runtime-IsGuarded : IsGuarded (λ s. s) wasmtime runtime
unfolding contains
runtime-IsGuarded = record {
  policy = offline_policy-IsAcceptable;
  engine = refl;
  imports = ((refl, (contains_iff ("log" ∷ "call" ∷ "response_read" ∷ []) "call").0 refl), tt);
  exports = (
    exported "memory" refl,
    (
      exported "tds_abi_version" refl,
      (exported "tds_alloc" refl, (exported "tds_dealloc" refl, (exported "tds_run" refl, tt))),
    ),
  );
  ticker = refl;
}

new_iff_example :
    (new (λ s. s) wasmtime offline_policy (0 ∷ 97 ∷ 115 ∷ 109 ∷ []) provider ≡ ok runtime) ↔ (
      IsGuarded (λ s. s) wasmtime runtime
      × (runtime.policy ≡ offline_policy)
      × (runtime.llm ≡ provider)
      × (wasmtime.new_module runtime.engine (0 ∷ 97 ∷ 115 ∷ 109 ∷ []) ≡ ok runtime.module_)
      × (wasmtime.spawn ≡ ok tt))
new_iff_example =
    new_iff (λ s. s) wasmtime offline_policy (0 ∷ 97 ∷ 115 ∷ 109 ∷ []) provider runtime

made : new (λ s. s) wasmtime offline_policy (0 ∷ 97 ∷ 115 ∷ 109 ∷ []) provider ≡ ok runtime
made = new_iff_example.1 (runtime-IsGuarded, refl, refl, refl, refl)

checked_iff_example :
    ((r : Runtime Value World ℕ (List ℕ)) × (checked host false offline_policy "agent.wasm" ≡ ok r))
    ↔ (((r : Runtime Value World ℕ (List ℕ)) × (checked host true offline_policy "agent.wasm"
            ≡ ok r))
        × ((llm : LlmProvider Value World) × (build host.machine host.remote host.wire.value
                offline_policy.llm
              ≡ ok llm)))
checked_iff_example = checked_iff host offline_policy "agent.wasm"

loaded : policy_of host (some "policy.toml") ≡ ok offline_policy
unfolding policy_of
loaded =
    (load_iff (λ s. s) host.read_to_string host.from_str "policy.toml" offline_policy).1
      (_, refl, refl, offline_policy-IsAcceptable)

abbrev checks : Cli
checks = record {
  common = record { agent = "agent.wasm"; policy = some "policy.toml" };
  command = check true;
}

accepts : (main host 12 checks start).0 ≡ ok (accepted host true runtime)
unfolding main perform checked
accepts = rw (main, loaded, perform, checked, made) refl

abbrev runs : Cli
runs = record {
  common = record { agent = "agent.wasm"; policy = some "policy.toml" };
  command = run_task "What time is it?" none 4 false;
}

opened_runtime :
    from_files host.debug wasmtime host.read host.machine remote wire.value offline_policy
      "agent.wasm"
    ≡ ok runtime
unfolding from_files build
opened_runtime = made

abbrev reported : RunReport Value
reported = record {
  output = done;
  model = provider.describe;
  duration_ms = 12;
  fuel_used = 1;
  logs = [];
}

abbrev output : List String
output = print_report reported

prints : (main host 12 runs start).0 ≡ ok output
unfolding main perform run_in run printed print_report prepare check_abi_version ◌>>=◌ eqb_ℤ blank
    fresh conclude report invoke_agent has_memory write_memory read_memory collect write_guest
    read_guest pack_ptr_len unpack_ptr_len
prints = rw (main, loaded, perform, opened_runtime) refl

main-Performs_example :
    (policy : Policy) × (policy_of host (some "policy.toml") ≡ ok policy)
    × Performs host 12 policy "agent.wasm" start
        (run_task "What time is it?" none 4 false)
        output
        (main host 12 runs start).1
main-Performs_example = main-Performs host 12 runs start output prints

same_policy :
    (policy : Policy) → policy_of host (some "policy.toml") ≡ ok policy → offline_policy ≡ policy
same_policy policy h = cc (h, loaded)

the_mock :
    (llm : LlmProvider Value World)
    → build host.machine host.remote host.wire.value offline_policy.llm ≡ ok llm
    → provider ≡ llm
unfolding build
the_mock llm h = cc (h)

provider-IsKept : IsKept ext wire provider offline_policy Untouched
unfolding is_enabled
provider-IsKept = record {
  clock = λ on w q. q;
  send = λ on url host permitted w q. cc (on);
  complete = λ req w q. q;
}

offline_policy-IsSafe : IsSafe host ext Untouched offline_policy
offline_policy-IsSafe = record {
  sandboxed = λ llm built e m. engine-IsSandboxed llm;
  kept = λ llm built.
      subst (λ l. IsKept ext wire l offline_policy Untouched) (the_mock llm built) provider-IsKept;
}

main-confined_example : Untouched (main host 12 runs start).1
main-confined_example =
    main-confined host ext Untouched 12 runs start
      (λ policy found.
        subst (IsSafe host ext Untouched) (same_policy policy found) offline_policy-IsSafe)
      refl
