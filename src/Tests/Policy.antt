-- ===== src/Tests/Policy.antt =====
-- The unit tests of crates/tds-host/src/policy.rs.
use tds_wasm_ai.Common.{◌≡◌, refl, String, Bool, true, ◌&&◌, [], ◌∷◌}
use mathlib.Core.Bool.{not}
use tds_wasm_ai.Common.Text.{format, trim, strip_prefix, ends_with, to_ascii_lowercase}
use tds_wasm_ai.Policy.Types.{
  HttpToolConfig, default_http, Policy, default_policy, disabled, high, max,
}
use tds_wasm_ai.Policy.Hosts.{allows}
use tds_wasm_ai.Policy.Validation.{validate, check_tools, rejected_thinking}
use tds_wasm_ai.Tools.Known.{is_known_tool}
use tds_wasm_ai.Tests.Tree.{is_ok}

abbrev cfg : HttpToolConfig
cfg = record default_http { allowed_hosts = "*.example.com" ∷ "api.github.com" ∷ [] }

-- The lookalikes are why the match is not one of substrings.
unfoldable wildcard_rules_match_subdomains_but_not_lookalikes : Bool
wildcard_rules_match_subdomains_but_not_lookalikes =
    allows cfg "example.com"
    && (allows cfg "docs.example.com"
        && (allows cfg "API.GITHUB.COM"
            && (not (allows cfg "evil-example.com")
                && (not (allows cfg "example.com.evil.net") && not (allows cfg "github.com")))))

wildcard_rules_match_subdomains_but_not_lookalikes_lem :
    wildcard_rules_match_subdomains_but_not_lookalikes ≡ true
unfolding wildcard_rules_match_subdomains_but_not_lookalikes allows format trim strip_prefix
    ends_with to_ascii_lowercase
wildcard_rules_match_subdomains_but_not_lookalikes_lem = refl

unfoldable an_empty_allowlist_reaches_nothing : Bool
an_empty_allowlist_reaches_nothing = not (allows default_http "example.com")

an_empty_allowlist_reaches_nothing_lem : an_empty_allowlist_reaches_nothing ≡ true
unfolding an_empty_allowlist_reaches_nothing allows
an_empty_allowlist_reaches_nothing_lem = refl

-- The default policy without thinking, at the greatest effort and at a high one.
abbrev at_max : Policy
at_max = record default_policy {
  llm = record default_policy.llm { thinking = disabled; effort = max };
}

abbrev at_high : Policy
at_high = record at_max { llm = record at_max.llm { effort = high } }

module _ (debug : String → String) where
  unfoldable disabled_thinking_above_high_effort_is_rejected_at_load : Bool
  disabled_thinking_above_high_effort_is_rejected_at_load =
      not (is_ok (validate debug at_max)) && is_ok (validate debug at_high)

  disabled_thinking_above_high_effort_is_rejected_at_load_lem :
      disabled_thinking_above_high_effort_is_rejected_at_load ≡ true
  unfolding disabled_thinking_above_high_effort_is_rejected_at_load validate check_tools
      rejected_thinking is_known_tool
  disabled_thinking_above_high_effort_is_rejected_at_load_lem = refl

  unfoldable the_default_policy_is_valid : Bool
  the_default_policy_is_valid = is_ok (validate debug default_policy)

  the_default_policy_is_valid_lem : the_default_policy_is_valid ≡ true
  unfolding the_default_policy_is_valid validate check_tools rejected_thinking is_known_tool
  the_default_policy_is_valid_lem = refl
