-- ===== src/Examples/Overlaps.antt =====
-- Two runs whose steps alternate: one stores a request in its memory and asks for a completion, the other
-- begins before that and logs a line after it.
use native.Mathlib.Nat.{le_refl}
use tds_wasm_ai.Common.{◌+◌, ◌*◌, ◌≤◌, ◌≡◌, refl, [], ◌∷◌, All, some, arith}
use tds_wasm_ai.Common.Int.{pos}
use tds_wasm_ai.Common.Utf8.{as_bytes}
use tds_wasm_ai.Abi.Types.{llm_complete}
use tds_wasm_ai.Policy.Types.{default_policy}
use tds_wasm_ai.Runtime.State.{Store}
use tds_wasm_ai.Runtime.Calls.{log, call}
use tds_wasm_ai.Runtime.Reach.{computed, called, logged}
use tds_wasm_ai.Runtime.Reach.Bounds.{IsSound}
use tds_wasm_ai.Runtime.Reach.Turns.{IsCount}
use tds_wasm_ai.Runtime.Reach.Confinement.{IsKept}
use tds_wasm_ai.Runtime.Run.{blank}
use tds_wasm_ai.Runtime.Overlap.{Shared, idle, lend, Overlaps, begins, steps, rests, goes_on}
use tds_wasm_ai.Runtime.Overlap.Limits.{Overlaps-IsSound, Overlaps-confined, Overlaps-turns}
use tds_wasm_ai.Tools.Invoke.{is_enabled}
use tds_wasm_ai.Examples.Parts.{World, start, ext, wire, model}

abbrev stored : Store World
stored = record (lend start (blank default_policy start)) {
  memory = some (as_bytes llm_complete);
  fuel = 0;
}

abbrev asked : Store World
asked = (call ext wire model (lend start stored) 0 12 0 0).1

abbrev logged_line : Store World
logged_line = log (lend asked.host.world (blank default_policy start)) (pos 2) 0 4

abbrev after_all : Shared World
after_all = record { stores = logged_line ∷ asked ∷ []; world = logged_line.host.world }

-- The run that began first stands last.
abbrev waiting : Store World
waiting = blank default_policy start

abbrev one_begun : Shared World
one_begun = record { stores = waiting ∷ []; world = start }

alternate : Overlaps ext wire model default_policy (idle start) after_all
unfolding blank
alternate =
    goes_on
      (goes_on
        (goes_on
          (goes_on {b = one_begun} (goes_on {b = idle start} rests (begins refl)) (begins refl))
          (steps (waiting ∷ []) waiting [] stored refl
            (computed (some (as_bytes llm_complete)) 0 (omega arith) refl) refl))
        (steps (waiting ∷ []) stored [] asked refl (called 0 12 0 0 refl) refl))
      (steps [] waiting (asked ∷ []) logged_line refl (logged (pos 2) 0 4 refl) refl)

counts : IsCount ext wire model (λ w. w.1)
counts = record { clock = λ w. le_refl w.1; send = λ u w. le_refl w.1; complete = λ r w. le_refl _ }

Overlaps-IsSound_example : All (λ s. IsSound default_policy s.host) after_all.stores
Overlaps-IsSound_example = Overlaps-IsSound ext wire model default_policy start after_all alternate

Overlaps-turns_example : after_all.world.1 ≤ 0 + 2 * default_policy.limits.max_steps
Overlaps-turns_example =
    Overlaps-turns ext wire model default_policy (λ w. w.1) counts (omega arith) start after_all
      alternate

-- No request has been sent.
abbrev Untouched : World → Type 0
Untouched w = w.0 ≡ 0

keeps_Untouched : IsKept ext wire model default_policy Untouched
unfolding is_enabled
keeps_Untouched = record {
  clock = λ on w q. q;
  send = λ on url host permitted w q. cc (on);
  complete = λ req w q. q;
}

Overlaps-confined_example : Untouched after_all.world
Overlaps-confined_example =
    Overlaps-confined ext wire model default_policy Untouched start after_all keeps_Untouched refl
      alternate
