-- ===== src/Main/Confined.antt =====
-- What a command does to the world.
use tds_wasm_ai.Common.{
  ℕ, ◌≡◌, inl, inr, String, List, [], ◌∷◌, Result, ok, err, Result-cases, Bool-cases,
}
use tds_wasm_ai.External.{External}
use tds_wasm_ai.Abi.Types.{AgentInput}
use tds_wasm_ai.Common.Text.{trim, is_empty_text}
use tds_wasm_ai.Service.{Request, get_healthz, get_policy, post_runs, input_of}
use tds_wasm_ai.Policy.Types.{Policy}
use tds_wasm_ai.Runtime.Exec.{Failure}
use tds_wasm_ai.Runtime.State.{LlmProvider}
use tds_wasm_ai.Runtime.Reach.Confinement.{IsKept}
use tds_wasm_ai.Runtime.Run.Sandboxed.{IsSandboxed}
use tds_wasm_ai.Runtime.Run.Reports.{run-confined}
use tds_wasm_ai.Runtime.New.{Runtime}
use tds_wasm_ai.Runtime.New.Laws.{IsGuarded, from_files-eq-ok}
use tds_wasm_ai.Llm.Build.{build}
use tds_wasm_ai.Main.{
  Cli, Command, run_task, serve, check, Platform, policy_of, run_in, route, answers, handle, served,
  perform, main, open_files,
}

module _ {V W E M : Type 0} (host : Platform V W E M) where
  opened :
      (policy : Policy) (agent : String) (r : Runtime V W E M)
      → open_files host policy agent ≡ ok r
      → IsGuarded host.debug host.wasmtime r
        × (r.policy ≡ policy)
        × (build host.machine host.remote host.wire.value policy.llm ≡ ok r.llm)
  opened =
      from_files-eq-ok host.debug host.wasmtime host.read host.machine host.remote host.wire.value

  module _ {U : Type 0} (x : External V U W) (Q : W → Type 0) where
    -- What a platform promises of the provider of a policy: every engine keeps the sandbox, and `Q` is kept by what the policy
    -- permits.
    pub record IsSafe (policy : Policy) : Type 0 where
      pub sandboxed :
          (llm : LlmProvider V W)
          → build host.machine host.remote host.wire.value policy.llm ≡ ok llm
          → (e : E) (m : M) → IsSandboxed x host.wire llm (host.engine e m llm)
      pub kept :
          (llm : LlmProvider V W)
          → build host.machine host.remote host.wire.value policy.llm ≡ ok llm
          → IsKept x host.wire llm policy Q

    module _ (duration : ℕ) (r : Runtime V W E M) (safe : IsSafe r.policy)
        (built : build host.machine host.remote host.wire.value r.policy.llm ≡ ok r.llm) where
      run_in-confined : (input : AgentInput) (w : W) → Q w → Q (run_in host duration r input w).1
      unfolding run_in
      run_in-confined input w q =
          run-confined x host.wire r.llm (host.engine r.engine r.module_ r.llm) r.policy
            (safe.sandboxed r.llm built r.engine r.module_) duration input w Q
            (safe.kept r.llm built) q

      route-confined : (request : Request) (w : W) → Q w → Q (route host duration r request w).1
      unfolding route handle
      route-confined get_healthz w q = q
      route-confined get_policy w q = q
      route-confined (post_runs request) w q =
          elim (Bool-cases (is_empty_text (trim request.task))) [
            | inl blank ↦ rw (route, handle, blank) q
            | inr written ↦ rw (route, handle, written) (run_in-confined (input_of request) w q)
          ]

      answers-confined :
          (requests : List Request) (w : W) → Q w → Q (answers host duration r requests w).1
      unfolding answers
      answers-confined [] w q = q
      answers-confined (request ∷ more) w q = answers-confined more _ (route-confined request w q)

      served-confined :
          (o : Result Failure (List Request)) (w : W) → Q w → Q (served host duration r o w).1
      served-confined (ok requests) w q = answers-confined requests w q
      served-confined (err e) w q = q

    perform-confined :
        (duration : ℕ) (agent : String) (command : Command) (policy : Policy) (w : W)
        → IsSafe policy
        → Q w
        → Q (perform host duration agent command policy w).1
    unfolding perform
    perform-confined duration agent (check offline) policy w safe q = q
    perform-confined duration agent (run_task task context max_steps json) policy w safe q =
        elim (Result-cases (open_files host policy agent)) [
          | inr (e, lost) ↦ rw (perform, lost) q
          | inl (r, made) ↦
              let (g, kept, built) = opened policy agent r made in
              rw (perform, made)
                (run_in-confined duration r (rw kept safe) (rw kept built)
                  (record { task = task; context = context; max_steps = max_steps }) w q)
        ]
    perform-confined duration agent (serve addr) policy w safe q =
        elim (Result-cases (open_files host policy agent)) [
          | inr (e, lost) ↦ rw (perform, lost) q
          | inl (r, made) ↦
              let (g, kept, built) = opened policy agent r made in
              rw (perform, made)
                (served-confined duration r (rw kept safe) (rw kept built) (host.listen addr) w q)
        ]

    -- On a platform whose engines keep the sandbox, a property of the outside world that holds at
    -- the start and that the actions permitted by the policy of the command line keep holds when a
    -- command has ended, whatever the command and the guest do, and whether or not it succeeds. The
    -- runs of a service are carried out one after the other.
    pub main-confined :
        (duration : ℕ) (cli : Cli) (w : W)
        → ((policy : Policy) → policy_of host cli.common.policy ≡ ok policy → IsSafe policy)
        → Q w
        → Q (main host duration cli w).1
    unfolding main
    main-confined duration cli w safe q = elim (Result-cases (policy_of host cli.common.policy)) [
      | inl (policy, found) ↦
          rw (main, found)
            (perform-confined duration cli.common.agent cli.command policy w (safe policy found) q)
      | inr (e, lost) ↦ rw (main, lost) q
    ]
