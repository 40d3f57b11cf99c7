-- ===== src/Main/Performed.antt =====
-- The runtime that a command makes, and what it does with it.
use tds_wasm_ai.Common.{
  ℕ, ◌≡◌, refl, sym, ◌∙◌, ap, inl, inr, Bool, true, false, String, Option, List, [], Result, ok,
  err, ◌>>=◌, >>=-eq-ok, map_err-eq-ok, Result-cases,
}
use mathlib.Core.Path.{subst}
use tds_wasm_ai.Abi.Types.{AgentInput}
use tds_wasm_ai.Service.{Request}
use tds_wasm_ai.Policy.Types.{Policy}
use tds_wasm_ai.Runtime.Exec.{Failure, in_context}
use tds_wasm_ai.Runtime.State.{LlmProvider, Store}
use tds_wasm_ai.Runtime.Run.{RunReport, run}
use tds_wasm_ai.Runtime.New.{Runtime, from_files}
use tds_wasm_ai.Runtime.New.Laws.{IsGuarded, new_iff}
use tds_wasm_ai.Llm.Build.{build}
use tds_wasm_ai.Llm.Mock.{mock_provider}
use tds_wasm_ai.Main.{
  Cli, Command, run_task, serve, check, Platform, policy_of, checked, accepted, printed, run_in,
  answers, served, perform, main, with_runtime, open_files,
}
use tds_wasm_ai.Main.Laws.{map_ok-eq-ok}

module _ {V W E M : Type 0} (host : Platform V W E M) where
  -- A runtime under a policy, of the module in a file.
  pub record IsMade (policy : Policy) (agent : String) (r : Runtime V W E M) : Type 0 where
    pub wasm : List ℕ
    pub read : host.read agent ≡ ok wasm
    pub compiled : host.wasmtime.new_module r.engine wasm ≡ ok r.module_
    pub guarded : IsGuarded host.debug host.wasmtime r
    pub kept : r.policy ≡ policy

  -- The provider that the policy names, but the mock in a check that is offline.
  abbrev pub Provided : Bool → Policy → LlmProvider V W → Type 0
  Provided true policy llm = llm ≡ mock_provider host.remote.json host.wire.value
  Provided false policy llm = build host.machine host.remote host.wire.value policy.llm ≡ ok llm

  -- What a command that succeeds does under a policy, from a world: the lines that it prints and the world
  -- that it leaves.
  pub data Performs (duration : ℕ) (policy : Policy) (agent : String) (w : W)
      : Command → List String → W → Type 0 where
    accepts :
        (offline : Bool) (r : Runtime V W E M)
        → IsMade policy agent r
        → Provided offline policy r.llm
        → Performs duration policy agent w (check offline) (accepted host offline r) w
    reports :
        (task : String) (context : Option String) (max_steps : ℕ) (json : Bool)
        (r : Runtime V W E M) (report : RunReport V) (t : Store W) (lines : List String)
        → IsMade policy agent r
        → Provided false policy r.llm
        → run host.wire r.llm
            (host.engine r.engine r.module_ r.llm)
            policy
            duration
            (record { task = task; context = context; max_steps = max_steps })
            w
          ≡ (ok report, t)
        → printed host json report ≡ ok lines
        → Performs duration policy agent w (run_task task context max_steps json) lines t.host.world
    serves :
        (addr : String) (r : Runtime V W E M) (requests : List Request)
        → IsMade policy agent r
        → Provided false policy r.llm
        → host.listen addr ≡ ok requests
        → host.serving ≡ ok tt
        → Performs duration policy agent w (serve addr) [] (answers host duration r requests w).1

  opened-IsMade :
      (policy : Policy) (agent : String) (r : Runtime V W E M)
      → open_files host policy agent ≡ ok r
      → IsMade policy agent r × Provided false policy r.llm
  unfolding from_files
  opened-IsMade policy agent r h =
      let (wasm, found, h1) = >>=-eq-ok (in_context _ (host.read agent)) _ h in
      let (llm, built, h2) =
        >>=-eq-ok (build host.machine host.remote host.wire.value policy.llm) _ h1 in
      let (g, kept, provided, compiled, _) =
        (new_iff host.debug host.wasmtime policy wasm llm r).0 h2 in
      (
        record {
          wasm = wasm;
          read = map_err-eq-ok _ _ _ found;
          compiled = compiled;
          guarded = g;
          kept = kept;
        },
        built ∙ ap ok (sym provided),
      )

  checked-IsMade :
      (offline : Bool) (policy : Policy) (agent : String) (r : Runtime V W E M)
      → checked host offline policy agent ≡ ok r
      → IsMade policy agent r × Provided offline policy r.llm
  unfolding checked
  checked-IsMade true policy agent r h =
      let (wasm, found, made) = >>=-eq-ok (in_context _ (host.read agent)) _ h in
      let (g, kept, provided, compiled, _) =
        (new_iff host.debug host.wasmtime policy wasm
            (mock_provider host.remote.json host.wire.value) r).0
          made in
      (
        record {
          wasm = wasm;
          read = map_err-eq-ok _ _ _ found;
          compiled = compiled;
          guarded = g;
          kept = kept;
        },
        provided,
      )
  checked-IsMade false policy agent r h = opened-IsMade policy agent r h

  with_runtime-eq-ok :
      (o : Result Failure (Runtime V W E M))
      (f : Runtime V W E M → W → Result Failure (List String) × W) (w : W) (lines : List String)
      → (with_runtime host o f w).0 ≡ ok lines
      → (r : Runtime V W E M) × (o ≡ ok r) × ((f r w).0 ≡ ok lines)
  with_runtime-eq-ok (ok r) f w lines h = (r, refl, h)
  with_runtime-eq-ok (err e) f w lines h = cc (h)

  module _ (duration : ℕ) (policy : Policy) (agent : String) (r : Runtime V W E M)
      (m : IsMade policy agent r) (p : Provided false policy r.llm) (w : W)
      (lines : List String) where
    reported :
        (task : String) (context : Option String) (max_steps : ℕ) (json : Bool)
        → let o =
            run_in host duration r
              (record { task = task; context = context; max_steps = max_steps })
              w in
          (o.0 >>= printed host json) ≡ ok lines
          → Performs duration policy agent w (run_task task context max_steps json) lines o.1
    unfolding run_in
    reported task context max_steps json h =
        let input : AgentInput = record { task = task; context = context; max_steps = max_steps } in
        let engine = host.engine r.engine r.module_ r.llm in
        let o = run host.wire r.llm engine r.policy duration input w in
        let (report, done, shown) = >>=-eq-ok o.0 (printed host json) h in
        reports task context max_steps json r report o.1 lines m p
          (subst (λ q. run host.wire r.llm engine q duration input w ≡ (ok report, o.1)) m.kept
            (ap (λ (a : Result Failure (RunReport V)). (a, o.1)) done))
          shown

    answered :
        (addr : String) (o : Result Failure (List Request))
        → host.listen addr ≡ o
        → (served host duration r o w).0 ≡ ok lines
        → Performs duration policy agent w (serve addr) lines (served host duration r o w).1
    answered addr (ok requests) heard h =
        let (u, ended, said) = map_ok-eq-ok (λ _. []) host.serving lines h in
        subst
          (λ l.
            Performs duration policy agent w (serve addr) l (answers host duration r requests w).1)
          said (serves addr r requests m p heard ended)
    answered addr (err e) heard h = cc (h)

  perform-Performs :
      (duration : ℕ) (agent : String) (command : Command) (policy : Policy) (w : W)
      (lines : List String)
      → (perform host duration agent command policy w).0 ≡ ok lines
      → Performs duration policy agent w command lines
          (perform host duration agent command policy w).1
  unfolding perform
  perform-Performs duration agent (check offline) policy w lines h =
      let (r, made, said) =
        map_ok-eq-ok (accepted host offline) (checked host offline policy agent) lines h in
      let (m, p) = checked-IsMade offline policy agent r made in
      subst (λ l. Performs duration policy agent w (check offline) l w) said (accepts offline r m p)
  perform-Performs duration agent (run_task task context max_steps json) policy w lines h =
      let (r, made, h1) = with_runtime-eq-ok (open_files host policy agent) _ w lines h in
      let (m, p) = opened-IsMade policy agent r made in
      rw (perform, made)
        (reported duration policy agent r m p w lines task context max_steps json h1)
  perform-Performs duration agent (serve addr) policy w lines h =
      let (r, made, h1) = with_runtime-eq-ok (open_files host policy agent) _ w lines h in
      let (m, p) = opened-IsMade policy agent r made in
      rw (perform, made)
        (answered duration policy agent r m p w lines addr (host.listen addr) refl h1)

  -- A command that succeeds was carried out under the policy that the command line names, on a
  -- runtime that is guarded, holds that policy and was made of the module in the agent file. A
  -- check prints that this runtime is accepted, its provider the one that the policy names or,
  -- offline, the mock, and leaves the world as it was. A run of a task prints the report that
  -- `Runtime::run` gives for this task, with the runtime's engine, module and provider, under that
  -- policy, and leaves the world as that run does. A service prints nothing, has ended well and
  -- leaves the world as the answers to the requests that arrive do.
  pub main-Performs :
      (duration : ℕ) (cli : Cli) (w : W) (lines : List String)
      → (main host duration cli w).0 ≡ ok lines
      → (policy : Policy) × (policy_of host cli.common.policy ≡ ok policy)
        × Performs duration policy cli.common.agent w cli.command lines (main host duration cli w).1
  unfolding main
  main-Performs duration cli w lines h = elim (Result-cases (policy_of host cli.common.policy)) [
    | inl (policy, found) ↦ (
      policy,
      found,
      rw (main, found)
          (perform-Performs duration cli.common.agent cli.command policy w lines
            (rw (main, found) at h)),
    )
    | inr (e, lost) ↦ cc (rw (main, lost) at h)
  ]
