-- ===== src/Runtime/Reach/Bounds.antt =====
-- The limits of a run, kept by every step of any guest.
use Prim.Native.String.{len}
use mathlib.Core.Path.{subst}
use tds_wasm_ai.Common.{
  ◌*◌, ◌≤◌, ◌≡◌, refl, ap, sym, ◌∙◌, [], ◌∷◌, All, All-append, length, length-append, arith,
}
use tds_wasm_ai.Common.Utf8.Laws.{len-from_utf8_lossy-le}
use tds_wasm_ai.External.{External}
use tds_wasm_ai.Wire.{Wire}
use tds_wasm_ai.Policy.Types.{Policy}
use tds_wasm_ai.Tools.Invoke.{invoke}
use tds_wasm_ai.Tools.Scratchpad.Laws.{IsWithin}
use tds_wasm_ai.Tools.Invoke.Laws.{invoke-Effects, invoke-IsWithin}
use tds_wasm_ai.Runtime.State.{LlmProvider, HostState, Store, fresh}
use tds_wasm_ai.Runtime.Reach.{Reach, here, next}
use tds_wasm_ai.Runtime.Reach.Branches.{Change, quiet, line, tool, turn, Step-Change}

-- The policy in force is `p`; no more model turns than it allows; at most 512 log lines, each of at most
-- 24 KiB; and a scratchpad within its limits.
pub record IsSound {W : Type 0} (p : Policy) (h : HostState W) : Type 0 where
  pub policy : h.policy ≡ p
  pub box : h.tools.policy ≡ p
  pub turns : h.llm_calls ≤ p.limits.max_steps
  pub lines : length h.logs ≤ 512
  pub sizes : All (λ l. len l.message ≤ 24 * 1024) h.logs
  pub pad : IsWithin p.tools.kv h.tools.kv

module _ {V U W : Type 0} (x : External V U W) (wire : Wire V) (llm : LlmProvider V W) where
  pub Change-IsSound :
      (p : Policy) (h k : HostState W) → Change x wire llm h k → IsSound p h → IsSound p k
  Change-IsSound p h k (quiet e) s = rw e (record {
    policy = s.policy;
    box = s.box;
    turns = s.turns;
    lines = s.lines;
    sizes = s.sizes;
    pad = s.pad;
  })
  Change-IsSound p h k (line l bytes room short text e) s = rw e (record {
    policy = s.policy;
    box = s.box;
    turns = s.turns;
    lines = omega (arith, length-append h.logs (l ∷ []));
    sizes = All-append (λ l. len l.message ≤ 24 * 1024) h.logs (l ∷ []) s.sizes (fits, tt);
    pad = s.pad;
  })
    where
      fits : len l.message ≤ 24 * 1024
      fits = omega (arith, ap len text, len-from_utf8_lossy-le bytes)
  Change-IsSound p h k (tool name input e) s = rw e (record {
    policy = s.policy;
    box = (invoke-Effects x h.tools name input h.world).policy ∙ s.box;
    turns = s.turns;
    lines = s.lines;
    sizes = s.sizes;
    pad =
        subst (λ (q : Policy). IsWithin q.tools.kv (invoke x h.tools name input h.world).box.kv)
          s.box
          (invoke-IsWithin x h.tools name input h.world
            (subst (λ (q : Policy). IsWithin q.tools.kv h.tools.kv) (sym s.box) s.pad));
  })
  Change-IsSound p h k (turn req left e) s = rw e (record {
    policy = s.policy;
    box = s.box;
    turns = omega (arith, ap (λ (q : Policy). q.limits.max_steps) s.policy);
    lines = s.lines;
    sizes = s.sizes;
    pad = s.pad;
  })

  pub fresh-IsSound : (p : Policy) (w : W) → IsSound p (fresh p w)
  unfolding fresh
  fresh-IsSound p w = record {
    policy = refl;
    box = refl;
    turns = omega arith;
    lines = omega arith;
    sizes = tt;
    pad = record { keys = omega arith; values = tt };
  }

  -- From a store that is sound for a policy (the policy in force, its ceiling on model turns, the
  -- log's and the scratchpad's limits) every store that a guest can reach is sound for it, whatever
  -- the guest does.
  pub Reach-IsSound :
      (p : Policy) {s t : Store W} → IsSound p s.host → Reach x wire llm s t → IsSound p t.host
  Reach-IsSound p h here = h
  Reach-IsSound p {s} {t} h (next {t = u} r st) =
      Change-IsSound p u.host t.host (Step-Change x wire llm st) (Reach-IsSound p h r)
