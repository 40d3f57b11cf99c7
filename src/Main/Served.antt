-- ===== src/Main/Served.antt =====
-- The requests of a service as runs of one runtime.
use native.Mathlib.Nat.{mul-le-mul_right}
use tds_wasm_ai.Common.{
  ℕ, ◌+◌, ◌*◌, ◌^◌, ◌≤◌, ◌<◌, ◌≡◌, refl, ap, ◌∙◌, inl, inr, List, [], ◌∷◌, length, Bool-cases,
  arith,
}
use tds_wasm_ai.External.{External}
use tds_wasm_ai.Common.Text.{trim, is_empty_text}
use tds_wasm_ai.Service.{Request, get_healthz, get_policy, post_runs, input_of}
use tds_wasm_ai.Runtime.Run.Sandboxed.{IsSandboxed}
use tds_wasm_ai.Runtime.New.{Runtime}
use tds_wasm_ai.Runtime.Reach.Turns.{IsCount}
use tds_wasm_ai.Runtime.Overlap.{Shared, idle, Overlaps, rests}
use tds_wasm_ai.Runtime.Overlap.Limits.{Overlaps-turns}
use tds_wasm_ai.Runtime.Overlap.Runs.{joined_by, Overlaps-trans, run-Overlaps}
use tds_wasm_ai.Main.{Platform, run_in, handle, route, answers}

module _ {V U W E M : Type 0} (host : Platform V W E M) (x : External V U W) (duration : ℕ)
    (r : Runtime V W E M)
    (safe : IsSandboxed x host.wire r.llm (host.engine r.engine r.module_ r.llm)) where
  -- Where overlapping runs can be once `n` more of them may have begun, with the world `w`.
  record Arrives (a : Shared W) (n : ℕ) (w : W) : Type 0 where
    to : Shared W
    by : Overlaps x host.wire r.llm r.policy a to
    world : to.world ≡ w
    begun : length to.stores ≤ length a.stores + n

  rests-Arrives : (a : Shared W) (n : ℕ) → Arrives a n a.world
  rests-Arrives a n = record { to = a; by = rests; world = refl; begun = omega arith }

  route-Arrives :
      (request : Request) (a : Shared W) → Arrives a 1 (route host duration r request a.world).1
  unfolding route handle run_in
  route-Arrives get_healthz a = rests-Arrives a 1
  route-Arrives get_policy a = rests-Arrives a 1
  route-Arrives (post_runs request) a = elim (Bool-cases (is_empty_text (trim request.task))) [
    | inl blank ↦ rw (route, handle, blank) (rests-Arrives a 1)
    | inr written ↦
        let (t, by, world) =
          run-Overlaps x host.wire r.llm r.policy (host.engine r.engine r.module_ r.llm) safe
            duration (input_of request) a in
        rw (route, handle, written)
          (record { to = joined_by a t; by = by; world = world; begun = omega arith })
  ]

  answers-Arrives :
      (requests : List Request) (a : Shared W)
      → Arrives a (length requests) (answers host duration r requests a.world).1
  unfolding answers
  answers-Arrives [] a = rests-Arrives a 0
  answers-Arrives (request ∷ more) a =
      let first = route-Arrives request a in
      let rest = answers-Arrives more first.to in
      record {
        to = rest.to;
        by = Overlaps-trans x host.wire r.llm r.policy first.by rest.by;
        world = rest.world ∙ ap (λ w. (answers host duration r more w).1) first.world;
        begun = omega (arith, first.begun, rest.begun);
      }

  -- In an engine that keeps the sandbox, under a `limits.max_steps` below 2^32, a service that
  -- answers some requests has at most that many completions made for each of them, by any count of
  -- them, whatever the guests do.
  pub answers-turns :
      (count : W → ℕ) (requests : List Request) (w : W)
      → IsCount x host.wire r.llm count
      → r.policy.limits.max_steps < 2 ^ 32
      → count (answers host duration r requests w).1
        ≤ count w + length requests * r.policy.limits.max_steps
  answers-turns count requests w counts small =
      let end = answers-Arrives requests (idle w) in
      let made = Overlaps-turns x host.wire r.llm r.policy count counts small w end.to end.by in
      let more : length end.to.stores * r.policy.limits.max_steps
          ≤ length requests * r.policy.limits.max_steps =
        mul-le-mul_right r.policy.limits.max_steps (omega (arith, end.begun)) in
      omega (arith, made, more, ap count end.world)
