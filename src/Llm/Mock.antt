-- ===== src/Llm/Mock.antt =====
-- crates/tds-host/src/llm.rs, the provider `MockProvider`, `first_line` and `parse_directives`.
pub mod Laws
use tds_wasm_ai.Common.{
  ℕ, suc, Bool, true, false, String, Option, none, some, List, [], ◌∷◌, ◌++◌, filter_map, map, any,
  is_empty, ◌==◌, if◌then◌else◌, Result, ok, err,
}
use tds_wasm_ai.Common.Text.{format, join, show, trim, strip_prefix}
use tds_wasm_ai.Common.Text.Split.{lines, split_once_space}
use tds_wasm_ai.Common.Utf8.{as_bytes}
use tds_wasm_ai.External.{Json}
use tds_wasm_ai.Wire.{Codec}
use tds_wasm_ai.Abi.Types.{
  CapError, Content, known, tool_use, tool_result, Message, ToolSpec, LlmRequest, LlmResponse,
  as_text, text_block,
}
use tds_wasm_ai.Runtime.State.{LlmProvider}

unfoldable pub first_line : String → String
first_line s = elim (lines s) [ [] ↦ "" | l ∷ ls ↦ trim l ]

module _ {V : Type 0} where
  unfoldable pub result_text : Content V → Option String
  result_text (known (tool_result id content is_error)) = some content
  result_text _ = none

  unfoldable pub is_result : Content V → Bool
  is_result (known (tool_result id content is_error)) = true
  is_result _ = false

  -- `flat_map(|m| m.content.iter())`
  unfoldable pub contents : List (Message V) → List (Content V)
  contents [] = []
  contents (m ∷ ms) = m.content ++ contents ms

  -- `contains(&name)` of the available names.
  unfoldable pub is_available : List (ToolSpec V) → String → Bool
  is_available tools name = any (λ t. t.name == name) tools

  unfoldable pub keep_available : List (ToolSpec V) → List (String × V) → List (String × V)
  keep_available tools [] = []
  keep_available tools ((name, input) ∷ ds) =
      if is_available tools name
      then (name, input) ∷ keep_available tools ds
      else keep_available tools ds

  -- The calls, numbered from `i`.
  unfoldable pub number_calls : ℕ → List (String × V) → List (Content V)
  number_calls i [] = []
  number_calls i ((name, input) ∷ ds) =
      known (tool_use (format ("toolu_mock_" ∷ show i ∷ [])) name input) ∷ number_calls (suc i) ds

module _ {V : Type 0} (json : Json V) (value : Codec V) where
  unfoldable pub parse_directive : String → Option (String × V)
  parse_directive line = elim (strip_prefix "!tool " (trim line)) [
    | none ↦ none
    | some rest ↦
        let (name, args) : String × String = elim (split_once_space rest) [
          | some (name, args) ↦ (trim name, trim args)
          | none ↦ (trim rest, "{}")
        ] in
        some (name, elim (value.decode (as_bytes args)) [ ok v ↦ v | err _ ↦ json.object [] ])
  ]

  unfoldable pub parse_directives : String → List (String × V)
  parse_directives task = filter_map parse_directive (lines task)

  unfoldable pub task_of : LlmRequest V → String
  task_of request = join "\n" (filter_map as_text (contents request.messages))

  -- The calls that a request's directives ask for.
  unfoldable pub calls_of : LlmRequest V → List (Content V)
  calls_of request =
      number_calls 0 (keep_available request.tools (parse_directives (task_of request)))

  unfoldable pub summary : LlmRequest V → LlmResponse V
  summary request =
      let results = filter_map result_text (contents request.messages) in
      record {
        stop_reason = "end_turn";
        content =
            text_block (
              if is_empty results
              then format
                  ("[mock] No tools were needed. Task was: " ∷ first_line (task_of request) ∷ [])
              else format ("[mock] Tool results: " ∷ join " | " results ∷ []))
            ∷ [];
        usage = record { input_tokens = 120; output_tokens = 30 };
      }

  -- `MockProvider::complete`, which never fails.
  unfoldable pub reply : LlmRequest V → LlmResponse V
  reply request =
      let already_used_tools = any (λ m. any is_result m.content) request.messages in
      let calls = calls_of request in
      if already_used_tools
      then summary request
      else if is_empty calls
      then summary request
      else record {
        stop_reason = "tool_use";
        content = calls;
        usage = record { input_tokens = 100; output_tokens = 20 };
      }

  abbrev pub mock_provider : {W : Type 0} → LlmProvider V W
  mock_provider = record { complete = λ request w. (ok (reply request), w); describe = "mock" }
