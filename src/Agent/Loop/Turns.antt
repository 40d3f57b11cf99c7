-- ===== src/Agent/Loop/Turns.antt =====
-- How often the loop asks the model, and what the steps in its output mean.
use native.Mathlib.Nat.{le_refl}
use tds_wasm_ai.Common.{
  ℕ, zero, suc, ◌+◌, ◌-◌, ◌≤◌, max, ◌≡◌, String, List, [], ◌∷◌, All, All-append, inl, inr, arith,
}
use tds_wasm_ai.External.{Json}
use tds_wasm_ai.Wire.{Wire}
use tds_wasm_ai.Abi.Types.{AgentInput, AgentOutput, ToolSpec, ToolCallRecord, Content}
use tds_wasm_ai.Agent.Imports.{Imports}
use tds_wasm_ai.Agent.Loop.{Progress, take_turn, turns, run_agent, finish}
use tds_wasm_ai.Agent.Loop.Tooling.{Answered, none_asked, succeeded, failed, take_turn-Decided}

module _ {V : Type 0} where
  -- Every entry of the record was made in a step from 1 up to `n`.
  abbrev pub AllBy : ℕ → List (ToolCallRecord V) → Type 0
  AllBy n entries = All (λ e. (1 ≤ e.step) × (e.step ≤ n)) entries

  AllBy-weaken :
      (m n : ℕ) (entries : List (ToolCallRecord V)) → m ≤ n → AllBy m entries → AllBy n entries
  AllBy-weaken m n [] le h = tt
  AllBy-weaken m n (e ∷ entries) le ((from, to), h) =
      ((from, omega (arith, to, le)), AllBy-weaken m n entries le h)

  -- An output whose steps are at most `last` and whose record was made in them.
  pub record IsInOrder (last : ℕ) (o : AgentOutput V) : Type 0 where
    pub bound : o.steps ≤ last
    pub entries : AllBy o.steps o.tool_calls

module _ {V S : Type 0} (wire : Wire V) (host : Imports S) where
  Answered-AllBy :
      (step : ℕ) {requested : List (String × String × V)} {entries : List (ToolCallRecord V)}
      {blocks : List (Content V)} {s t : S}
      → 1 ≤ step
      → Answered wire host step requested s entries blocks t
      → AllBy step entries
  Answered-AllBy step h none_asked = tt
  Answered-AllBy step h (succeeded id name args found e rest) =
      ((h, le_refl step), Answered-AllBy step h rest)
  Answered-AllBy step h (failed id name args why e rest) =
      ((h, le_refl step), Answered-AllBy step h rest)

  turns-IsInOrder :
      (tools : List (ToolSpec V)) (left step : ℕ) (p : Progress V) (s : S) (done last : ℕ)
      → step ≡ done + 1
      → last ≡ done + left
      → AllBy done p.record_
      → IsInOrder last (turns wire host tools left step p s).0
  unfolding turns finish
  turns-IsInOrder tools zero step p s done last at to entries = record {
    bound = omega (arith, at, to);
    entries = AllBy-weaken done (step - 1) p.record_ (omega (arith, at)) entries;
  }
  turns-IsInOrder tools (suc left) step p s done last at to entries =
      elim (take_turn-Decided wire host tools step p s) [
        | inl (o, e, ends) ↦
            rw (turns, e)
              (record {
                bound = omega (arith, ends.to, at, to);
                entries =
                    rw ends.recorded
                      (AllBy-weaken done o.steps p.record_ (omega (arith, ends.from, at)) entries);
              })
        | inr (q, e, goes_on) ↦
            rw (turns, e)
              (turns-IsInOrder tools left (suc step) q (take_turn wire host tools step p s).1 step
                last (omega arith) (omega (arith, at, to))
                (rw goes_on.follows.recorded (
                  All-append (λ r. (1 ≤ r.step) × (r.step ≤ step)) p.record_ goes_on.follows.entries
                    (AllBy-weaken done step p.record_ (omega (arith, at)) entries)
                    (Answered-AllBy step (omega (arith, at)) goes_on.follows.answered))))
      ]

  -- A run of the agent reports at most `max_steps` steps (at least one is allowed), and every tool
  -- call in its record was made in one of the steps that it reports.
  pub run_agent-IsInOrder :
      (json : Json V) (input : AgentInput) (s : S)
      → IsInOrder (max input.max_steps 1) (run_agent json wire host input s).0
  unfolding run_agent
  run_agent-IsInOrder json input s =
      turns-IsInOrder _ (max input.max_steps 1) 1 _ _ 0 (max input.max_steps 1) (omega arith)
        (omega arith) tt
