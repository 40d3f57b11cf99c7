-- ===== src/Policy/Validation.antt =====
-- crates/tds-host/src/policy.rs, `Policy::validate`, and the policies that it accepts.
use mathlib.Core.Logic.{◌↔◌}
use tds_wasm_ai.Common.{
  ◌^◌, ◌≤◌, ◌<◌, ◌≡◌, refl, ◌≢◌, ◌⊎◌, inl, inr, String, Bool, true, false, List, [], ◌∷◌, Memᴰ, ltb,
  eqb, if◌then◌else◌, Result, ok, err, ◌>>◌, arith, any-eq-true, any_of_mem, eq_iff, eq_refl, All,
  Bool-cases, ◌==◌,
}
use tds_wasm_ai.Common.Text.{format}
use tds_wasm_ai.Tools.Known.{known_tools, is_known_tool}
use tds_wasm_ai.Policy.Types.{
  Policy, Effort, low, medium, high, x_high, max, Thinking, adaptive, disabled,
}

-- `bail!` under an `if`
abbrev pub bail_if : Bool → String → Result String (Unit {0})
bail_if true message = err message
bail_if false message = ok tt

-- `Debug` of `Effort`
abbrev pub effort_debug : Effort → String
effort_debug low = "Low"
effort_debug medium = "Medium"
effort_debug high = "High"
effort_debug x_high = "XHigh"
effort_debug max = "Max"

-- `thinking == Disabled && matches!(effort, XHigh | Max)`
unfoldable pub rejected_thinking : Thinking → Effort → Bool
rejected_thinking disabled x_high = true
rejected_thinking disabled max = true
rejected_thinking _ _ = false

-- `debug` is the standard library's `{:?}` of a string.
module _ (debug : String → String) where
  unfoldable pub check_tools : List String → Result String (Unit {0})
  check_tools [] = ok tt
  check_tools (name ∷ names) =
      let rest = check_tools names in
      if is_known_tool name
      then rest
      else err (format ("tools.enabled lists unknown tool " ∷ debug name ∷ []))

  unfoldable pub validate : Policy → Result String (Unit {0})
  validate p = do
    bail_if (eqb p.limits.fuel 0) "limits.fuel must be greater than zero"
    bail_if (eqb p.limits.wall_clock_ms 0) "limits.wall_clock_ms must be greater than zero"
    bail_if (eqb p.limits.max_steps 0) "limits.max_steps must be greater than zero"
    bail_if (ltb p.limits.memory_bytes (2 ^ 20)) "limits.memory_bytes must be at least 1 MiB"
    bail_if (rejected_thinking p.llm.thinking p.llm.effort) (
        format (
          "llm.thinking = \"disabled\" is only valid at effort \"high\" or lower (got "
          ∷ effort_debug p.llm.effort
          ∷ "); raise thinking or lower effort"
          ∷ []))
    check_tools p.tools.enabled

-- What the API and the host can serve: positive budgets, a mebibyte of memory, no disabled thinking
-- above high effort, and tools that the host implements.
pub record IsAcceptable (p : Policy) : Type 0 where
  pub fuel : 0 < p.limits.fuel
  pub wall_clock : 0 < p.limits.wall_clock_ms
  pub steps : 0 < p.limits.max_steps
  pub memory : 2 ^ 20 ≤ p.limits.memory_bytes
  pub thinking : (p.llm.thinking ≡ adaptive) ⊎ ((p.llm.effort ≢ x_high) × (p.llm.effort ≢ max))
  pub tools : All (λ name. Memᴰ name known_tools) p.tools.enabled

thinking_iff :
    (t : Thinking) (e : Effort)
    → (rejected_thinking t e ≡ false) ↔ ((t ≡ adaptive) ⊎ ((e ≢ x_high) × (e ≢ max)))
unfolding rejected_thinking
thinking_iff adaptive e = ((λ _. inl refl), λ _. refl)
thinking_iff disabled e = ((λ h. inr (ground arith, ground arith)), λ h. ground arith)

pub is_known_tool_iff : (name : String) → (is_known_tool name ≡ true) ↔ Memᴰ name known_tools
unfolding is_known_tool
is_known_tool_iff name = (
  (λ h. let (t, m, e) = any-eq-true (λ t. t == name) known_tools h in rw (← (eq_iff t name).0 e) m),
  λ m. any_of_mem (λ t. t == name) m (eq_refl name),
)

module _ (debug : String → String) where
  check_tools_iff :
      (names : List String)
      → (check_tools debug names ≡ ok tt) ↔ All (λ name. Memᴰ name known_tools) names
  unfolding check_tools
  check_tools_iff [] = ((λ h. tt), λ h. refl)
  check_tools_iff (name ∷ names) = elim (Bool-cases (is_known_tool name)) [
    | inl is_listed ↦ rw is_listed (
      (λ h. ((is_known_tool_iff name).0 is_listed, (check_tools_iff names).0 h)),
      λ h. (check_tools_iff names).1 h.1,
    )
    | inr unlisted ↦ rw unlisted ((λ h. cc), λ h. cc (unlisted, (is_known_tool_iff name).1 h.0))
  ]

  -- Validation succeeds exactly on the acceptable policies: the limits on fuel, time and steps are
  -- positive, the memory is a mebibyte or more, thinking is adaptive or the effort is neither
  -- `x_high` nor `max`, and only known tools are enabled.
  pub validate_iff : (p : Policy) → (validate debug p ≡ ok tt) ↔ IsAcceptable p
  unfolding validate
  validate_iff p = (
    (λ h. record {
      fuel = ground arith;
      wall_clock = ground arith;
      steps = ground arith;
      memory = ground arith;
      thinking = (thinking_iff p.llm.thinking p.llm.effort).0 (ground arith);
      tools = (check_tools_iff p.tools.enabled).0 (ground arith);
    }),
    λ a. ground (
      arith,
      (thinking_iff p.llm.thinking p.llm.effort).1 a.thinking,
      (check_tools_iff p.tools.enabled).1 a.tools,
    ),
  )
