-- ===== src/Runtime/Run/Reports.antt =====
-- `Runtime::run` of any guest in an engine that keeps the sandbox: what its report says.
use Prim.Native.String.{len}
use mathlib.Core.Path.{subst}
use tds_wasm_ai.Common.{
  ℕ, ◌+◌, ◌*◌, ◌^◌, ◌≤◌, ◌<◌, ◌≡◌, refl, [], All, length, Result, ok, err, Result-cases, inl, inr,
  arith,
}
use tds_wasm_ai.External.{External}
use tds_wasm_ai.Wire.{Wire}
use tds_wasm_ai.Abi.Types.{AgentInput, AgentOutput}
use tds_wasm_ai.Policy.Types.{Policy}
use tds_wasm_ai.Runtime.State.{LlmProvider, Store}
use tds_wasm_ai.Runtime.Calls.{log, call, serve, response_read}
use tds_wasm_ai.Runtime.Exec.{Failure}
use tds_wasm_ai.Runtime.Reach.{Step, logged, called, received, computed, Reach, here, next}
use tds_wasm_ai.Runtime.Reach.Confinement.{IsKept, Reach-confined}
use tds_wasm_ai.Runtime.Reach.Bounds.{IsSound, fresh-IsSound, Reach-IsSound}
use tds_wasm_ai.Runtime.Reach.Turns.{IsCount, turns-le}
use tds_wasm_ai.Runtime.Run.{
  Engine, RunReport, invoke_agent, clamped, blank, prepare, report, conclude, run,
}
use tds_wasm_ai.Runtime.Run.Sandboxed.{
  IsSandboxed, Reach-trans, invoke_agent-Confined, prepare-Confined, prepared,
}

module _ {V U W : Type 0} (x : External V U W) (wire : Wire V) (llm : LlmProvider V W) where
  Step-fuel : {s t : Store W} → Step x wire llm s t → t.fuel ≤ s.fuel
  unfolding log call serve response_read
  Step-fuel {s} (logged level ptr len e) = rw e (ground arith)
  Step-fuel {s} (called name_ptr name_len req_ptr req_len e) = rw e (ground arith)
  Step-fuel {s} (received ptr len e) = rw e (ground arith)
  Step-fuel {s} (computed memory fuel less e) = rw e less

  Reach-fuel : {s t : Store W} → Reach x wire llm s t → t.fuel ≤ s.fuel
  Reach-fuel here = omega arith
  Reach-fuel {s} {t} (next {t = u} r st) = omega (arith, Reach-fuel r, Step-fuel st)

  module _ (engine : Engine W) (p : Policy) (safe : IsSandboxed x wire llm engine) (duration : ℕ)
      (input : AgentInput) (w : W) where
    -- Where a run ends: at a store that the guest can reach, with the error that came before the agent
    -- was invoked, or with the report on what invoking it gave.
    pub data Ends (o : Result Failure (RunReport V) × Store W) : Type 0 where
      early : (f : Failure) (t : Store W) → Reach x wire llm (blank p w) t → o ≡ (err f, t) → Ends o
      late :
          (result : Result Failure (AgentOutput V)) (t : Store W)
          → Reach x wire llm (blank p w) t
          → o ≡ conclude wire llm engine p duration (result, t)
          → Ends o

    pub run-Ends : Ends (run wire llm engine p duration input w)
    unfolding run
    run-Ends = elim (Result-cases (prepare engine p (blank p w)).0) [
      | inr (f, failed) ↦
          early f (prepare engine p (blank p w)).1
            ((prepare-Confined x wire llm engine p safe).at (blank p w)) (rw (run, failed) refl)
      | inl (i, made) ↦
          let s = (prepare engine p (blank p w)).1 in
          let o = invoke_agent wire i (clamped p input) s in
          late o.0 o.1
            (Reach-trans x wire llm ((prepare-Confined x wire llm engine p safe).at (blank p w)) (
              (invoke_agent-Confined x wire llm i (clamped p input)
                  (prepared x wire llm engine p safe (blank p w) i made)).at
                s))
            (rw (run, made) refl)
    ]

    -- What a report says is within the policy: the fuel it counts is all that the run burned, and of log
    -- lines there are at most 512, each of at most 24 KiB. The state's own log is emptied.
    pub record IsFaithful (r : RunReport V) (t : Store W) : Type 0 where
      pub fuel : r.fuel_used + t.fuel ≡ p.limits.fuel
      pub lines : length r.logs ≤ 512
      pub sizes : All (λ l. len l.message ≤ 24 * 1024) r.logs
      pub taken : t.host.logs ≡ []
      pub named : r.model ≡ llm.describe

    conclude-IsFaithful :
        (result : Result Failure (AgentOutput V)) (s : Store W)
        → Reach x wire llm (blank p w) s
        → IsFaithful
            (report wire llm engine p duration result s)
            (record s { host = record (s.host) { logs = [] } })
    unfolding report blank
    conclude-IsFaithful result s r =
        let sound : IsSound p s.host =
          Reach-IsSound x wire llm p (fresh-IsSound x wire llm p w) r in
        record {
          fuel = omega (arith, Reach-fuel r);
          lines = sound.lines;
          sizes = sound.sizes;
          taken = refl;
          named = refl;
        }

    -- In an engine that keeps the sandbox, whatever the guest does, a run that gives a report gives
    -- one in which the fuel that it counts and the fuel left make up the policy's, the log has at
    -- most 512 lines of at most 24 KiB each, and the model is the description that the provider of
    -- the run gives of itself; and the log is taken out of the store.
    pub run-IsFaithful :
        (r : RunReport V) (t : Store W)
        → run wire llm engine p duration input w ≡ (ok r, t)
        → IsFaithful r t
    unfolding conclude
    run-IsFaithful r t h = elim run-Ends [
      | early f s reach e ↦ cc (h, e)
      | late result s reach e ↦
          let said : report wire llm engine p duration result s ≡ r = cc (h, e) in
          let left : record s { host = record (s.host) { logs = [] } } ≡ t = cc (h, e) in
          subst (λ q. IsFaithful q t) said
            (subst (IsFaithful (report wire llm engine p duration result s)) left
              (conclude-IsFaithful result s reach))
    ]

    -- In an engine that keeps the sandbox, a run under a `limits.max_steps` below 2^32 ends with at
    -- most that many completions made, by any count of them, whatever the guest does and whether or
    -- not the run succeeds.
    pub run-turns :
        (count : W → ℕ)
        → IsCount x wire llm count
        → p.limits.max_steps < 2 ^ 32
        → count (run wire llm engine p duration input w).1.host.world ≤ count w + p.limits.max_steps
    unfolding blank conclude
    run-turns count c small = elim run-Ends [
      | early f s reach e ↦ rw e (turns-le x wire llm p count w (blank p w) s c small refl reach)
      | late result s reach e ↦
          rw e (turns-le x wire llm p count w (blank p w) s c small refl reach)
    ]

    -- In an engine that keeps the sandbox, a property of the outside world that holds at the start
    -- and that the actions permitted by the policy keep (its clock and its fetches only for enabled
    -- tools, at permitted URLs; completions) holds at the end of a run, whatever the guest does and
    -- whether or not the run succeeds.
    pub run-confined :
        (Q : W → Type 0)
        → IsKept x wire llm p Q
        → Q w
        → Q (run wire llm engine p duration input w).1.host.world
    unfolding blank conclude
    run-confined Q keeps q = elim run-Ends [
      | early f s reach e ↦ rw e (Reach-confined x wire llm p Q w (blank p w) s keeps refl q reach)
      | late result s reach e ↦
          rw e (Reach-confined x wire llm p Q w (blank p w) s keeps refl q reach)
    ]
