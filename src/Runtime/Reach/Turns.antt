-- ===== src/Runtime/Reach/Turns.antt =====
-- The ceiling on model turns, which binds whatever the guest's own count says.
use tds_wasm_ai.Common.{ℕ, String, ◌+◌, ◌^◌, ◌≤◌, ◌<◌, ◌≡◌, ap, inl, inr, refl, arith}
use tds_wasm_ai.External.{External}
use tds_wasm_ai.Wire.{Wire}
use tds_wasm_ai.Abi.Types.{LlmRequest}
use tds_wasm_ai.Policy.Types.{Policy}
use tds_wasm_ai.Tools.Invoke.{invoke}
use tds_wasm_ai.Tools.Invoke.Laws.{invoke-Effects}
use tds_wasm_ai.Runtime.State.{LlmProvider, HostState, Store, fresh}
use tds_wasm_ai.Runtime.Reach.{Reach, here, next}
use tds_wasm_ai.Runtime.Reach.Branches.{Change, quiet, line, tool, turn, Step-Change}

module _ {V U W : Type 0} (x : External V U W) (wire : Wire V) (llm : LlmProvider V W) where
  -- A count of the completions that the world has seen: a completion adds at most one, and neither the
  -- clock nor a fetch adds any.
  pub record IsCount (count : W → ℕ) : Type 0 where
    pub clock : (w : W) → count (x.clock w).1 ≤ count w
    pub send : (url : U) (w : W) → count (x.send url w).1 ≤ count w
    pub complete : (req : LlmRequest V) (w : W) → count (llm.complete req w).1 ≤ count w + 1

  record Keeps (p : Policy) (start : ℕ) (count : W → ℕ) (h : HostState W) : Type 0 where
    policy : h.policy ≡ p
    turns : h.llm_calls ≤ p.limits.max_steps
    counted : count h.world ≤ start + h.llm_calls

  module _ (p : Policy) (count : W → ℕ) (c : IsCount count)
      (small : p.limits.max_steps < 2 ^ 32) where
    tool-count :
        (h : HostState W) (name : String) (input : V)
        → count (invoke x h.tools name input h.world).world ≤ count h.world
    tool-count h name input = elim (invoke-Effects x h.tools name input h.world).outside [
      | inl same ↦ omega (arith, ap count same)
      | inr (inl (on, at, same)) ↦ omega (arith, ap count same, c.clock h.world)
      | inr (inr (on, at, (url, host, permitted, same))) ↦
          omega (arith, ap count same, c.send url h.world)
    ]

    -- One step of a run: what the world counts grows no more than what the run counts.
    pub record Charged (h k : HostState W) : Type 0 where
      pub policy : k.policy ≡ p
      pub turns : k.llm_calls ≤ p.limits.max_steps
      pub counted : count k.world + h.llm_calls ≤ count h.world + k.llm_calls

    pub Change-Charged :
        (h k : HostState W)
        → Change x wire llm h k
        → h.policy ≡ p
        → h.llm_calls ≤ p.limits.max_steps
        → Charged h k
    Change-Charged h k (quiet e) same turns =
        rw e (record { policy = same; turns = turns; counted = omega arith })
    Change-Charged h k (line l bytes room short text e) same turns =
        rw e (record { policy = same; turns = turns; counted = omega arith })
    Change-Charged h k (tool name input e) same turns =
        rw e (record {
          policy = same;
          turns = turns;
          counted = omega (arith, tool-count h name input);
        })
    Change-Charged h k (turn req left e) same turns =
        let limit = ap (λ (q : Policy). q.limits.max_steps) same in
        rw e (record {
          policy = same;
          turns = omega (arith, left, limit);
          counted = omega (arith, left, limit, small, c.complete req h.world);
        })

    Reach-Keeps :
        (start : ℕ) {s t : Store W}
        → Keeps p start count s.host
        → Reach x wire llm s t
        → Keeps p start count t.host
    Reach-Keeps start h here = h
    Reach-Keeps start {s} {t} h (next {t = u} r st) =
        let k = Reach-Keeps start h r in
        let charged = Change-Charged u.host t.host (Step-Change x wire llm st) k.policy k.turns in
        record {
          policy = charged.policy;
          turns = charged.turns;
          counted = omega (arith, charged.counted, k.counted);
        }

  -- In a run under policy `p`, from a fresh state, any guest has at most `limits.max_steps` completions
  -- made, by any count of them.
  pub turns-le :
      (p : Policy) (count : W → ℕ) (w : W) (s t : Store W)
      → IsCount count
      → p.limits.max_steps < 2 ^ 32
      → s.host ≡ fresh p w
      → Reach x wire llm s t
      → count t.host.world ≤ count w + p.limits.max_steps
  unfolding fresh
  turns-le p count w s t c small begin r =
      let kept : Keeps p (count w) count t.host =
        Reach-Keeps p count c small (count w)
          (rw begin (record { policy = refl; turns = omega arith; counted = omega arith })) r in
      omega (arith, kept.turns, kept.counted)
