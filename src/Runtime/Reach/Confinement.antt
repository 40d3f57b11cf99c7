-- ===== src/Runtime/Reach/Confinement.antt =====
-- What any guest can bring about outside the sandbox.
use tds_wasm_ai.Common.{◌≡◌, ◌∙◌, true, String, inl, inr, refl}
use mathlib.Core.Path.{subst}
use tds_wasm_ai.External.{External}
use tds_wasm_ai.Wire.{Wire}
use tds_wasm_ai.Abi.Types.{LlmRequest}
use tds_wasm_ai.Policy.Types.{Policy}
use tds_wasm_ai.Tools.Http.Laws.{IsPermitted}
use tds_wasm_ai.Tools.Invoke.{invoke, is_enabled}
use tds_wasm_ai.Tools.Invoke.Laws.{invoke-Effects, Effects}
use tds_wasm_ai.Runtime.State.{LlmProvider, HostState, Store, fresh}
use tds_wasm_ai.Runtime.Reach.{Reach, here, next}
use tds_wasm_ai.Runtime.Reach.Branches.{Change, quiet, line, tool, turn, Step-Change}

module _ {V U W : Type 0} (x : External V U W) (wire : Wire V) (llm : LlmProvider V W)
    (p : Policy) where
  -- What the policy lets happen outside: readings of the clock if `now` is enabled, requests to
  -- permitted URLs if `http_get` is, and completions by the provider. `Q` is kept by each.
  pub record IsKept (Q : W → Type 0) : Type 0 where
    pub clock : is_enabled p "now" ≡ true → (w : W) → Q w → Q (x.clock w).1
    pub send :
        is_enabled p "http_get" ≡ true
        → (url : U) (host : String) → IsPermitted x p.tools.http url host
        → (w : W) → Q w
        → Q (x.send url w).1
    pub complete : (req : LlmRequest V) (w : W) → Q w → Q (llm.complete req w).1

  pub record HoldsAt (Q : W → Type 0) (h : HostState W) : Type 0 where
    pub box : h.tools.policy ≡ p
    pub world : Q h.world

  pub Change-HoldsAt :
      (Q : W → Type 0) (h k : HostState W)
      → IsKept Q
      → Change x wire llm h k
      → HoldsAt Q h
      → HoldsAt Q k
  Change-HoldsAt Q h k keeps (quiet e) s = rw e (record { box = s.box; world = s.world })
  Change-HoldsAt Q h k keeps (line l bytes room short text e) s =
      rw e (record { box = s.box; world = s.world })
  Change-HoldsAt Q h k keeps (turn req left e) s =
      rw e (record { box = s.box; world = keeps.complete req h.world s.world })
  Change-HoldsAt Q h k keeps (tool name input e) s =
      rw e (record { box = effects.policy ∙ s.box; world = outside })
    where
      effects : Effects x h.tools name input h.world (invoke x h.tools name input h.world)
      effects = invoke-Effects x h.tools name input h.world

      outside : Q (invoke x h.tools name input h.world).world
      outside = elim effects.outside [
        | inl same ↦ rw same s.world
        | inr (inl (on, at, same)) ↦ rw same (keeps.clock (cc (on, at, s.box)) h.world s.world)
        | inr (inr (on, at, (url, host, permitted, same))) ↦ rw same (
            keeps.send (cc (on, at, s.box)) url host
              (subst (λ (q : Policy). IsPermitted x q.tools.http url host) s.box permitted) h.world
              s.world)
      ]

  fresh-HoldsAt : (Q : W → Type 0) (w : W) → Q w → HoldsAt Q (fresh p w)
  unfolding fresh
  fresh-HoldsAt Q w q = record { box = refl; world = q }

  Reach-HoldsAt :
      (Q : W → Type 0) {s t : Store W}
      → IsKept Q
      → HoldsAt Q s.host
      → Reach x wire llm s t
      → HoldsAt Q t.host
  Reach-HoldsAt Q keeps h here = h
  Reach-HoldsAt Q {s} {t} keeps h (next {t = u} r st) =
      Change-HoldsAt Q u.host t.host keeps (Step-Change x wire llm st) (Reach-HoldsAt Q keeps h r)

  -- Whatever a guest does, a property of the outside world that the permitted actions keep still holds:
  -- the guest can reach the world in no other way.
  pub Reach-confined :
      (Q : W → Type 0) (w : W) (s t : Store W)
      → IsKept Q
      → s.host ≡ fresh p w
      → Q w
      → Reach x wire llm s t
      → Q t.host.world
  Reach-confined Q w s t keeps begin q r =
      (Reach-HoldsAt Q keeps (rw begin (fresh-HoldsAt Q w q)) r).world
