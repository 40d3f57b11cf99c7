-- ===== src/Llm/Build.antt =====
-- crates/tds-host/src/llm.rs, `build` and `AnthropicProvider::new`. The environment's variables and the
-- outcome of building the HTTP client are parameters.
use tds_wasm_ai.Common.{
  ◌≡◌, inl, inr, refl, Bool-cases, Result-cases, String, [], ◌∷◌, false, if◌then◌else◌, Result, ok,
  err,
}
use tds_wasm_ai.Common.Text.{format, trim, is_empty_text}
use tds_wasm_ai.Wire.{Codec}
use tds_wasm_ai.Policy.Types.{LlmConfig, anthropic, mock}
use tds_wasm_ai.Runtime.State.{LlmProvider}
use tds_wasm_ai.Runtime.Exec.{Failure, failure, with_context}
use tds_wasm_ai.Llm.Mock.{mock_provider}
use tds_wasm_ai.Llm.Anthropic.{Remote, anthropic_provider}

-- `std::env::var`, with the error's text, and the client builder.
pub record Machine : Type 0 where
  pub var : String → Result String String
  pub client : Result Failure (Unit {0})

module _ {V W : Type 0} (machine : Machine) (remote : Remote V W) where
  unfoldable pub new : LlmConfig → Result Failure (LlmProvider V W)
  new config = elim (machine.var config.api_key_env) [
    | err e ↦ err (
        with_context
          (format (
            config.api_key_env
            ∷ " is not set; export an API key or set llm.provider = \"mock\" in the policy" ∷ []))
          (failure e))
    | ok api_key ↦
        if is_empty_text (trim api_key)
        then err (failure (format (config.api_key_env ∷ " is set but empty" ∷ [])))
        else elim machine.client [
          | err e ↦ err (with_context "building HTTP client" e)
          | ok _ ↦ ok (anthropic_provider remote config api_key)
        ]
  ]

  unfoldable pub build : Codec V → LlmConfig → Result Failure (LlmProvider V W)
  build value config = elim config.provider [
    | mock ↦ ok (mock_provider remote.json value)
    | anthropic ↦ new config
  ]

  -- If the provider that calls the API is built, its key's variable is set and not blank, and it is
  -- the one that sends this key.
  new-eq-ok :
      (config : LlmConfig) (p : LlmProvider V W)
      → new config ≡ ok p
      → (key : String) × (machine.var config.api_key_env ≡ ok key)
        × (is_empty_text (trim key) ≡ false)
        × (p ≡ anthropic_provider remote config key)
  unfolding new
  new-eq-ok config p h = elim (Result-cases (machine.var config.api_key_env)) [
    | inr (e, unset) ↦
        let f : new config
            ≡ err (
                with_context
                  (format (
                    config.api_key_env
                    ∷ " is not set; export an API key or set llm.provider = \"mock\" in the policy"
                    ∷ []))
                  (failure e)) =
          rw (new, unset) refl in
        cc (h, f)
    | inl (key, found) ↦ elim (Bool-cases (is_empty_text (trim key))) [
      | inl blank ↦
          let f : new config
              ≡ err (failure (format (config.api_key_env ∷ " is set but empty" ∷ []))) =
            rw (new, found, blank) refl in
          cc (h, f)
      | inr written ↦ elim (Result-cases machine.client) [
        | inr (e, broken) ↦
            let f : new config ≡ err (with_context "building HTTP client" e) =
              rw (new, found, written, broken) refl in
            cc (h, f)
        | inl (u, built) ↦
            let f : new config ≡ ok (anthropic_provider remote config key) =
              rw (new, found, written, built) refl in
            (key, found, written, cc (h, f))
      ]
    ]
  ]
