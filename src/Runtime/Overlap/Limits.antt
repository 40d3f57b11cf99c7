-- ===== src/Runtime/Overlap/Limits.antt =====
-- The limits of the policy on runs that overlap.
use mathlib.Core.Path.{subst}
use tds_wasm_ai.Common.{
  ℕ, suc, ◌+◌, ◌*◌, ◌^◌, ◌≤◌, ◌<◌, ◌≡◌, ap, List, [], ◌∷◌, ◌++◌, All, All-append, length, arith,
}
use tds_wasm_ai.External.{External}
use tds_wasm_ai.Wire.{Wire}
use tds_wasm_ai.Policy.Types.{Policy}
use tds_wasm_ai.Runtime.State.{LlmProvider, Store, fresh}
use tds_wasm_ai.Runtime.Reach.{Step}
use tds_wasm_ai.Runtime.Reach.Branches.{Step-Change}
use tds_wasm_ai.Runtime.Reach.Bounds.{IsSound, fresh-IsSound, Change-IsSound}
use tds_wasm_ai.Runtime.Reach.Turns.{IsCount, Change-Charged}
use tds_wasm_ai.Runtime.Reach.Confinement.{IsKept, Change-HoldsAt}
use tds_wasm_ai.Runtime.Run.{blank}
use tds_wasm_ai.Runtime.Overlap.{
  Shared, idle, lend, Advances, begins, steps, Overlaps, rests, goes_on,
}

module _ {W : Type 0} where
  All-split :
      (P : Store W → Type 0) (before : List (Store W)) (s : Store W) (after : List (Store W))
      → All P (before ++ s ∷ after)
      → All P before × P s × All P after
  All-split P [] s after (here, rest) = (tt, here, rest)
  All-split P (b ∷ before) s after (first, rest) =
      let (left, here, right) = All-split P before s after rest in ((first, left), here, right)

  -- The turns of all runs.
  abbrev total : List (Store W) → ℕ
  total [] = 0
  total (s ∷ stores) = s.host.llm_calls + total stores

  total-append : (l r : List (Store W)) → total (l ++ r) ≡ total l + total r
  total-append [] r = omega arith
  total-append (s ∷ l) r = omega (arith, total-append l r)

  total-le :
      (p : Policy) (stores : List (Store W))
      → All (λ s. IsSound p s.host) stores
      → total stores ≤ length stores * p.limits.max_steps
  total-le p [] all = omega arith
  total-le p (s ∷ stores) (sound, all) =
      let rest = total-le p stores all in
      let more : suc (length stores) * p.limits.max_steps
          ≡ p.limits.max_steps + length stores * p.limits.max_steps =
        ground arith in
      omega (arith, sound.turns, rest, more)

  lend-IsSound : (p : Policy) (w : W) (s : Store W) → IsSound p s.host → IsSound p (lend w s).host
  lend-IsSound p w s sound = record {
    policy = sound.policy;
    box = sound.box;
    turns = sound.turns;
    lines = sound.lines;
    sizes = sound.sizes;
    pad = sound.pad;
  }

module _ {V U W : Type 0} (x : External V U W) (wire : Wire V) (llm : LlmProvider V W)
    (p : Policy) where
  Step-IsSound :
      (w : W) (s t : Store W) → Step x wire llm (lend w s) t → IsSound p s.host → IsSound p t.host
  Step-IsSound w s t st sound =
      Change-IsSound x wire llm p (lend w s).host t.host (Step-Change x wire llm st)
        (lend-IsSound p w s sound)

  Advances-IsSound :
      (a b : Shared W)
      → Advances x wire llm p a b
      → All (λ s. IsSound p s.host) a.stores
      → All (λ s. IsSound p s.host) b.stores
  unfolding blank
  Advances-IsSound a b (begins e) all = rw e (fresh-IsSound x wire llm p a.world, all)
  Advances-IsSound a b (steps before s after t at st e) all =
      let P : Store W → Type 0 = λ s. IsSound p s.host in
      let (left, sound, right) = All-split P before s after (subst (All P) at all) in
      rw e (All-append P before (t ∷ after) left (Step-IsSound a.world s t st sound, right))

  -- In every state that overlapping runs under a policy reach, whatever their guests do and however
  -- their steps are interleaved, the store of every run is sound for the policy: the policy in
  -- force, its ceiling on model turns, the log's and the scratchpad's limits.
  pub Overlaps-IsSound :
      (w : W) (b : Shared W)
      → Overlaps x wire llm p (idle w) b
      → All (λ s. IsSound p s.host) b.stores
  Overlaps-IsSound w b rests = tt
  Overlaps-IsSound w b (goes_on {b = a} o step) = Advances-IsSound a b step (Overlaps-IsSound w a o)

  Advances-confined :
      (Q : W → Type 0) (a b : Shared W)
      → IsKept x wire llm p Q
      → Advances x wire llm p a b
      → All (λ s. IsSound p s.host) a.stores
      → Q a.world
      → Q b.world
  Advances-confined Q a b keeps (begins e) all q = rw e q
  Advances-confined Q a b keeps (steps before s after t at st e) all q =
      let P : Store W → Type 0 = λ s. IsSound p s.host in
      let (left, sound, right) = All-split P before s after (subst (All P) at all) in
      rw e
        (Change-HoldsAt x wire llm p Q (lend a.world s).host t.host keeps
          (Step-Change x wire llm st) (record { box = sound.box; world = q })).world

  -- A property of the outside world that the actions permitted by the policy keep, and that holds
  -- before the first of several overlapping runs under this policy begins, still holds after any
  -- number of steps of theirs, however interleaved, whatever their guests do.
  pub Overlaps-confined :
      (Q : W → Type 0) (w : W) (b : Shared W)
      → IsKept x wire llm p Q
      → Q w
      → Overlaps x wire llm p (idle w) b
      → Q b.world
  Overlaps-confined Q w b keeps q rests = q
  Overlaps-confined Q w b keeps q (goes_on {b = a} o step) =
      Advances-confined Q a b keeps step (Overlaps-IsSound w a o)
        (Overlaps-confined Q w a keeps q o)

  module _ (count : W → ℕ) (c : IsCount x wire llm count)
      (small : p.limits.max_steps < 2 ^ 32) where
    Advances-counted :
        (start : ℕ) (a b : Shared W)
        → Advances x wire llm p a b
        → All (λ s. IsSound p s.host) a.stores
        → count a.world ≤ start + total a.stores
        → count b.world ≤ start + total b.stores
    unfolding blank fresh
    Advances-counted start a b (begins e) all counted = rw e (omega (arith, counted))
    Advances-counted start a b (steps before s after t at st e) all counted =
        let P : Store W → Type 0 = λ s. IsSound p s.host in
        let (left, sound, right) = All-split P before s after (subst (All P) at all) in
        let charged =
          Change-Charged x wire llm p count c small (lend a.world s).host t.host
            (Step-Change x wire llm st) sound.policy sound.turns in
        rw e (
          omega (
            arith,
            charged.counted,
            counted,
            ap total at,
            total-append before (s ∷ after),
            total-append before (t ∷ after),
          ))

    Overlaps-counted :
        (w : W) (b : Shared W)
        → Overlaps x wire llm p (idle w) b
        → count b.world ≤ count w + total b.stores
    Overlaps-counted w b rests = omega arith
    Overlaps-counted w b (goes_on {b = a} o step) =
        Advances-counted (count w) a b step (Overlaps-IsSound w a o) (Overlaps-counted w a o)

    -- Overlapping runs under a `limits.max_steps` below 2^32 have at most that many completions
    -- made for each run that has begun, by any count of them, whatever their guests do and however
    -- their steps are interleaved.
    pub Overlaps-turns :
        (w : W) (b : Shared W)
        → Overlaps x wire llm p (idle w) b
        → count b.world ≤ count w + length b.stores * p.limits.max_steps
    Overlaps-turns w b o =
        omega (arith, Overlaps-counted w b o, total-le p b.stores (Overlaps-IsSound w b o))
