-- ===== src/Llm/Mock/Laws.antt =====
-- What the mock provider asks for.
use tds_wasm_ai.Common.{
  ℕ, suc, ◌≡◌, refl, Bool-cases, inl, inr, true, String, List, [], ◌∷◌, filter_map, any, is_empty,
  All,
}
use tds_wasm_ai.External.{Json}
use tds_wasm_ai.Wire.{Codec}
use tds_wasm_ai.Abi.Types.{ToolSpec, LlmRequest, as_tool_use}
use tds_wasm_ai.Llm.Mock.{
  is_result, is_available, keep_available, number_calls, calls_of, summary, reply,
}

module _ {V : Type 0} where
  keep-available :
      (tools : List (ToolSpec V)) (ds : List (String × V))
      → All (λ d. is_available tools d.0 ≡ true) (keep_available tools ds)
  unfolding keep_available
  keep-available tools [] = tt
  keep-available tools ((name, input) ∷ ds) = elim (Bool-cases (is_available tools name)) [
    | inl yes_ ↦ rw (keep_available, yes_) (yes_, keep-available tools ds)
    | inr no_ ↦ rw (keep_available, no_) (keep-available tools ds)
  ]

  number-available :
      (tools : List (ToolSpec V)) (i : ℕ) (ds : List (String × V))
      → All (λ d. is_available tools d.0 ≡ true) ds
      → All (λ c. is_available tools c.1 ≡ true) (filter_map as_tool_use (number_calls i ds))
  unfolding number_calls as_tool_use filter_map
  number-available tools i [] h = tt
  number-available tools i ((name, input) ∷ ds) (at, h) = (at, number-available tools (suc i) ds h)

module _ {V : Type 0} (json : Json V) (value : Codec V) where
  summary-no_use :
      (request : LlmRequest V) → filter_map as_tool_use (summary json value request).content ≡ []
  unfolding summary as_tool_use filter_map
  summary-no_use request = refl

  -- The mock provider asks only for tools that the request lists.
  reply-available :
      (request : LlmRequest V)
      → All
          (λ c. is_available request.tools c.1 ≡ true)
          (filter_map as_tool_use (reply json value request).content)
  unfolding reply calls_of
  reply-available request =
      elim (Bool-cases (any (λ m. any is_result m.content) request.messages)) [
        | inl done ↦ rw (reply, done) (rw (summary-no_use request) tt)
        | inr fresh ↦ elim (Bool-cases (is_empty (calls_of json value request))) [
          | inl idle ↦ rw (reply, fresh, idle) (rw (summary-no_use request) tt)
          | inr busy ↦
              rw (reply, fresh, busy)
                (number-available request.tools 0 _ (keep-available request.tools _))
        ]
      ]

  -- The mock provider asks for no tool once the conversation has a tool result.
  reply_after_result :
      (request : LlmRequest V)
      → any (λ m. any is_result m.content) request.messages ≡ true
      → filter_map as_tool_use (reply json value request).content ≡ []
  unfolding reply
  reply_after_result request done = rw (reply, done) (summary-no_use request)
