-- ===== src/Agent/Truncate.antt =====
-- crates/tds-agent/src/lib.rs, `truncate`: a text cut at a character boundary, in bytes.
use Prim.Native.String.{len, slice}
use text.Mathlib.Text.{is_char_boundary}
use text.Mathlib.TextBridge.{IsPrefix}
use text.Mathlib.TextEquality.{slice-prefix}
use text.Mathlib.TextPositions.{boundary-zero}
use tds_wasm_ai.Common.{
  ℕ, zero, suc, ◌-◌, ◌≤◌, ◌<◌, ◌≡◌, true, false, Bool-cases, String, ◌∷◌, [], leb, if◌then◌else◌,
  inl, inr, arith,
}
use tds_wasm_ai.Common.Text.{format, show}

-- The loop of `truncate`: the last character boundary at or below `end`.
unfoldable pub boundary_below : String → ℕ → ℕ
boundary_below s zero = 0
boundary_below s (suc end) = elim (is_char_boundary s (suc end)) [
  | true ↦ suc end
  | false ↦ boundary_below s end
]

unfoldable pub truncate : String → ℕ → String
truncate s max =
    if leb (len s) max
    then s
    else let end = boundary_below s max in
      format (slice s 0 end ∷ "… [" ∷ show (len s - end) ∷ " bytes truncated]" ∷ [])

-- The cut is at a character boundary, at most `end`, and no boundary lies between them.
boundary_below_last :
    (s : String) (end : ℕ)
    → (boundary_below s end ≤ end)
      × (is_char_boundary s (boundary_below s end) ≡ true)
      × ((k : ℕ) → boundary_below s end < k → k ≤ end → is_char_boundary s k ≡ false)
unfolding boundary_below
boundary_below_last s zero = (omega arith, boundary-zero s, λ k a b. ground arith)
boundary_below_last s (suc end) =
    let (le, at, last) = boundary_below_last s end in
    elim (Bool-cases (is_char_boundary s (suc end))) [
      | inl cut ↦ rw (boundary_below, cut) (omega arith, cut, λ k a b. ground arith)
      | inr inside ↦
          rw (boundary_below, inside)
            (
              omega (arith, le),
              at,
              λ k a b. elim (Bool-cases (leb k end)) [
                | inl below ↦ last k a (ground arith)
                | inr beyond ↦ let same : k ≡ suc end = ground arith in rw same inside
              ],
            )
    ]

-- Of a text of more than `max` bytes a beginning is kept, which ends at the last character boundary
-- at or below `max`, and the number of bytes left out is written after it.
pub truncate_cuts :
    (s : String) (max : ℕ)
    → max < len s
    → (end : ℕ) × (end ≤ max)
      × (is_char_boundary s end ≡ true)
      × ((k : ℕ) → end < k → k ≤ max → is_char_boundary s k ≡ false)
      × IsPrefix (slice s 0 end) s
      × (truncate s max
          ≡ format (slice s 0 end ∷ "… [" ∷ show (len s - end) ∷ " bytes truncated]" ∷ []))
unfolding truncate
truncate_cuts s max long =
    let (le, at, last) = boundary_below_last s max in
    (boundary_below s max, le, at, last, slice-prefix s (boundary_below s max), ground arith)
