-- ===== src/Tests/Llm.antt =====
-- The unit tests of crates/tds-host/src/llm.rs, on a parser of the two JSON texts in them.
use tds_wasm_ai.Common.{
  ◌≡◌, refl, String, List, [], ◌∷◌, Bool, true, false, ◌&&◌, Option, none, some, ◌==◌,
  if◌then◌else◌, Result, ok, err, filter_map,
}
use tds_wasm_ai.Common.Text.{strip_prefix, contains, trim, join, format, show}
use tds_wasm_ai.Common.Text.Split.{lines, split_once_space}
use tds_wasm_ai.Common.Utf8.{as_bytes, from_utf8, decode, advance}
use tds_wasm_ai.Wire.{Codec}
use tds_wasm_ai.Abi.Types.{
  Content, ToolSpec, LlmRequest, as_tool_use, as_text, joined_text, text_block, result_block,
  user_message,
}
use tds_wasm_ai.Policy.Types.{default_llm, effort_str}
use tds_wasm_ai.Llm.Mock.{
  reply, parse_directives, parse_directive, calls_of, keep_available, is_available, number_calls,
  contents, task_of, summary, result_text, is_result,
}
use tds_wasm_ai.Llm.Anthropic.{Remote, body}
use tds_wasm_ai.Tests.Tree.{Tree, json, member_is, inner_is, is_none}

abbrev spec : String → ToolSpec Tree
spec name = record {
  name = name;
  description = "test";
  input_schema = json.object (("type", json.string "object") ∷ []);
}

-- `serde_json::from_str`
abbrev parsed : Option String → Result String Tree
parsed none = err "invalid unicode code point"
parsed (some s) =
    if s == "{\"key\":\"a\"}"
    then ok (json.object (("key", json.string "a") ∷ []))
    else if s == "{}"
    then ok (json.object [])
    else err "expected value"

abbrev values : Codec Tree
values = record { encode = λ v. err "not needed"; decode = λ bytes. parsed (from_utf8 bytes) }

abbrev named : String → String × Tree → Bool
named name (n, input) = n == name

-- `parsed[0].0 == first` and `parsed[1].1[key] == value`, of two directives.
abbrev two_directives : String → String → String → List (String × Tree) → Bool
two_directives first key value ((n, i) ∷ (m, j) ∷ []) = (n == first) && member_is j key value
two_directives first key value _ = false

unfoldable directives_parse_with_and_without_arguments : Bool
directives_parse_with_and_without_arguments =
    two_directives "now" "key" "a"
      (parse_directives json values "do a thing\n!tool now\n!tool kv_put {\"key\":\"a\"}\n")

-- `as_tool_use().unwrap().1 == name`
abbrev uses : String → Content Tree → Bool
uses name c = elim (as_tool_use c) [ none ↦ false | some (id, n, input) ↦ n == name ]

-- One block, which uses the tool of this name.
abbrev only_use : String → List (Content Tree) → Bool
only_use name (c ∷ []) = uses name c
only_use name _ = false

-- `http_get` is asked for and not offered, so it is dropped.
unfoldable the_mock_only_calls_tools_the_policy_exposed : Bool
the_mock_only_calls_tools_the_policy_exposed =
    let request : LlmRequest Tree = record {
      system = none;
      messages = user_message (text_block "!tool now\n!tool http_get" ∷ []) ∷ [];
      tools = spec "now" ∷ [];
    } in
    let response = reply json values request in
    (response.stop_reason == "tool_use") && only_use "now" response.content

unfoldable the_mock_answers_once_results_come_back : Bool
the_mock_answers_once_results_come_back =
    let request : LlmRequest Tree = record {
      system = none;
      messages =
          user_message (text_block "!tool now" ∷ [])
          ∷ user_message (result_block "toolu_mock_0" "2026-01-01" false ∷ [])
          ∷ [];
      tools = spec "now" ∷ [];
    } in
    let response = reply json values request in
    (response.stop_reason == "end_turn") && contains "2026-01-01" (joined_text response)

module _ {W : Type 0} (remote : Remote Tree W) where
  unfoldable the_request_body_omits_sampling_parameters : Bool
  the_request_body_omits_sampling_parameters =
      let sent = body remote default_llm "test" (record {
        system = some "sys";
        messages = user_message (text_block "hi" ∷ []) ∷ [];
        tools = spec "now" ∷ [];
      }) in
      member_is sent "model" "claude-opus-5"
      && (inner_is sent "thinking" "type" "adaptive"
          && (inner_is sent "output_config" "effort" "high"
              && (member_is sent "fallbacks" "default"
                  && (is_none (remote.json.get sent "temperature")
                      && (is_none (remote.json.get sent "top_p")
                          && (is_none (remote.json.get sent "top_k")
                              && is_none (remote.json.get sent "budget_tokens")))))))

directives_parse_with_and_without_arguments_lem : directives_parse_with_and_without_arguments ≡ true
unfolding directives_parse_with_and_without_arguments parse_directives parse_directive trim lines
    split_once_space strip_prefix as_bytes from_utf8 filter_map decode advance
directives_parse_with_and_without_arguments_lem = refl

the_mock_only_calls_tools_the_policy_exposed_lem :
    the_mock_only_calls_tools_the_policy_exposed ≡ true
unfolding the_mock_only_calls_tools_the_policy_exposed reply calls_of keep_available is_available
    number_calls contents task_of parse_directives parse_directive is_result as_text as_tool_use
    join format show trim lines split_once_space strip_prefix as_bytes from_utf8 filter_map
the_mock_only_calls_tools_the_policy_exposed_lem = refl

the_mock_answers_once_results_come_back_lem : the_mock_answers_once_results_come_back ≡ true
unfolding the_mock_answers_once_results_come_back reply summary result_text contents is_result
    joined_text format join contains strip_prefix filter_map
the_mock_answers_once_results_come_back_lem = refl

-- Of a remote end with no state.
abbrev remote : Remote Tree (Unit {0})
remote = record {
  json = json;
  messages = λ ms. json.array [];
  tools = λ ts. json.array [];
  post = λ url key version beta b w. (err "not sent", w);
  sleep = λ ms w. w;
}

the_request_body_omits_sampling_parameters_lem :
    the_request_body_omits_sampling_parameters remote ≡ true
unfolding the_request_body_omits_sampling_parameters body effort_str
the_request_body_omits_sampling_parameters_lem = refl
