-- ===== src/Policy/Hosts.antt =====
-- crates/tds-host/src/policy.rs, `HttpToolConfig::allows`: the hosts that the agent may fetch.
use Prim.Native.String.{◌++◌}
use text.Mathlib.TextLemmas.{append-nil}
use tds_wasm_ai.Common.{
  ◌≡◌, sym, ◌≢◌, ◌↔◌, inl, inr, ap, ◌∙◌, String, Bool, true, ◌||◌, none, some, [], ◌∷◌, Memᴰ, any,
  any-eq-true, any_of_mem, ◌==◌, eq_iff, or-eq-true, or-true_left, or-true_right, Option-cases,
}
use tds_wasm_ai.Common.Text.{format, trim, strip_prefix, ends_with, to_ascii_lowercase}
use tds_wasm_ai.Common.Text.Laws.{strip_prefix_iff, ends_with_iff, to_ascii_lowercase_idempotent}
use tds_wasm_ai.Policy.Types.{HttpToolConfig}

-- The closure of `any`, on the lowered host and the lowered and trimmed rule.
rule_allows : String → String → Bool
unfolding strip_prefix ends_with format
rule_allows host rule = elim (strip_prefix "*." rule) [
  | some suffix ↦ (host == suffix) || ends_with (format ("." ∷ suffix ∷ [])) host
  | none ↦ host == rule
]

abbrev pub normal_rule : String → String
normal_rule rule = to_ascii_lowercase (trim rule)

unfoldable pub allows : HttpToolConfig → String → Bool
unfolding rule_allows to_ascii_lowercase trim
allows config host =
    let lowered = to_ascii_lowercase host in
    any (λ rule. rule_allows lowered (normal_rule rule)) config.allowed_hosts

-- A rule names one host, or with `*.` in front a domain and everything below it.
pub data Matches (host rule : String) : Type 0 where
  exact : ((s : String) → rule ≢ "*." ++ s) → host ≡ rule → Matches host rule
  domain : rule ≡ "*." ++ host → Matches host rule
  subdomain : (p s : String) → rule ≡ "*." ++ s → host ≡ p ++ ("." ++ s) → Matches host rule

dotted : (s : String) → format ("." ∷ s ∷ []) ≡ "." ++ s
unfolding format
dotted s = ap (λ t. "." ++ t) (append-nil s)

rule_allows_plain :
    (host rule : String)
    → strip_prefix "*." rule ≡ none
    → (rule_allows host rule ≡ true) ↔ Matches host rule
unfolding rule_allows
rule_allows_plain host rule plain =
    rw (plain, rule_allows)
      (
        (λ h.
            exact (λ s e. cc (plain, (strip_prefix_iff "*." rule s).1 e)) ((eq_iff host rule).0 h)),
        λ m. (eq_iff host rule).1 (same m),
      )
  where
    same : Matches host rule → host ≡ rule
    same (exact other e) = e
    same (domain e) = cc (plain, (strip_prefix_iff "*." rule host).1 e)
    same (subdomain p s e q) = cc (plain, (strip_prefix_iff "*." rule s).1 e)

rule_allows_wild :
    (host rule suffix : String)
    → strip_prefix "*." rule ≡ some suffix
    → (rule_allows host rule ≡ true) ↔ Matches host rule
unfolding rule_allows
rule_allows_wild host rule suffix wild =
    rw (wild, dotted, rule_allows)
      (
        (λ h. elim (or-eq-true (host == suffix) (ends_with ("." ++ suffix) host) h) [
          | inl whole ↦ domain (is_wild ∙ ap (λ s. "*." ++ s) (sym ((eq_iff host suffix).0 whole)))
          | inr below ↦
              let (p, e) = (ends_with_iff ("." ++ suffix) host).0 below in
              subdomain p suffix is_wild e
        ]),
        admits,
      )
  where
    is_wild : rule ≡ "*." ++ suffix
    is_wild = (strip_prefix_iff "*." rule suffix).0 wild

    admits : Matches host rule → ((host == suffix) || ends_with ("." ++ suffix) host) ≡ true
    admits (exact other e) = absurd (other suffix is_wild)
    admits (domain e) =
        or-true_left (host == suffix) (ends_with ("." ++ suffix) host)
          ((eq_iff host suffix).1 (cc (wild, (strip_prefix_iff "*." rule host).1 e)))
    admits (subdomain p s e q) = or-true_right (host == suffix) (ends_with ("." ++ suffix) host) (
        (ends_with_iff ("." ++ suffix) host).1
          (p, q ∙ ap (λ t. p ++ ("." ++ t)) (cc (wild, (strip_prefix_iff "*." rule s).1 e))))

rule_allows_iff : (host rule : String) → (rule_allows host rule ≡ true) ↔ Matches host rule
rule_allows_iff host rule = elim (Option-cases (strip_prefix "*." rule)) [
  | inl plain ↦ rule_allows_plain host rule plain
  | inr (suffix, wild) ↦ rule_allows_wild host rule suffix wild
]

-- A host is allowed exactly if some rule of the list, trimmed and in lower case, matches the host
-- in lower case.
pub allows_iff :
    (config : HttpToolConfig) (host : String)
    → (allows config host ≡ true) ↔ (
        (rule : String) × Memᴰ rule config.allowed_hosts
        × Matches (to_ascii_lowercase host) (normal_rule rule))
unfolding allows
allows_iff config host = (
  (λ h.
      let (rule, listed, e) = any-eq-true (λ r. test (normal_rule r)) config.allowed_hosts h in
      (rule, listed, (rule_allows_iff (to_ascii_lowercase host) (normal_rule rule)).0 e)),
  λ (rule, listed, m).
      any_of_mem (λ r. test (normal_rule r)) listed
        ((rule_allows_iff (to_ascii_lowercase host) (normal_rule rule)).1 m),
)
  where
    test : String → Bool
    test = rule_allows (to_ascii_lowercase host)

-- Whether a host is allowed does not depend on the case of its letters.
allows-to_ascii_lowercase :
    (config : HttpToolConfig) (host : String)
    → allows config (to_ascii_lowercase host) ≡ allows config host
unfolding allows
allows-to_ascii_lowercase config host = rw to_ascii_lowercase_idempotent
