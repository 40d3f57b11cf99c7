-- ===== src/Examples/Providers.antt =====
-- The model providers, on a remote end that is busy once and on a task with one directive.
use native.Mathlib.Nat.{le_refl}
use tds_wasm_ai.Common.{
  ℕ, ◌+◌, ◌≤◌, ◌≡◌, refl, true, false, none, some, [], ◌∷◌, any, ok, err, arith, eqb, if◌then◌else◌,
}
use tds_wasm_ai.Common.Text.{trim}
use tds_wasm_ai.Abi.Types.{
  LlmRequest, LlmResponse, CapError, user_message, text_block, result_block, no_usage,
}
use tds_wasm_ai.Policy.Types.{default_llm}
use tds_wasm_ai.Llm.Mock.{is_result}
use tds_wasm_ai.Llm.Anthropic.{
  Remote, Answer, attempts, complete, ask, judge, is_success, is_retryable, pause, from_api,
  anthropic_provider,
}
use tds_wasm_ai.Llm.Anthropic.Laws.{IsCount, complete-count}
use tds_wasm_ai.Llm.Anthropic.Exhausted.{IsTally, IsTransient, busy, complete_exhausted}
use tds_wasm_ai.Llm.Build.{Machine, new}
use tds_wasm_ai.Examples.Parts.{Value, text, fields, json, asks_time}

-- The state counts the requests; the first is answered with 503, the others with a message.
abbrev answer : ℕ → Answer Value
answer n = record {
  status = if eqb n 0 then 503 else 200;
  retry_after = none;
  parsed = ok (record { stop_reason = none; content = asks_time.content; usage = no_usage });
  text = "";
}

abbrev remote : Remote Value ℕ
remote = record {
  json = json;
  messages = λ ms. text "messages";
  tools = λ ts. text "tools";
  post = λ url key version beta b n. (ok (answer n), n + 1);
  sleep = λ ms n. n;
}

abbrev request : LlmRequest Value
request = record {
  system = none;
  messages = user_message (text_block "!tool now {}" ∷ []) ∷ [];
  tools = record { name = "now"; description = "the time"; input_schema = fields [] } ∷ [];
}

abbrev replied : LlmResponse Value
replied = record { stop_reason = "end_turn"; content = asks_time.content; usage = no_usage }

remote-IsCount : IsCount remote default_llm "key" (λ n. n)
remote-IsCount = record { post = λ url key version beta b n. le_refl _; sleep = λ ms n. le_refl n }

complete-count_example :
    let o = complete remote default_llm "key" request 0 in
    (attempts remote default_llm "key" 20 0 request 0 ≡ (some o.0, o.1))
    × (o.1 ≤ 0 + default_llm.max_retries + 1)
complete-count_example =
    complete-count remote default_llm "key" (λ n. n) remote-IsCount 20 request 0 (omega arith)

-- A remote end that is always busy.
abbrev busy_remote : Remote Value ℕ
busy_remote = record remote { post = λ url key version beta b n. (ok (answer 0), n + 1) }

always_busy :
    (w : ℕ)
    → IsTransient busy_remote default_llm "key" (ask busy_remote default_llm "key" request w).0
unfolding ask is_success is_retryable
always_busy w = busy (answer 0) refl refl

busy_remote-IsTally : IsTally busy_remote default_llm "key" (λ n. n)
busy_remote-IsTally = record { post = λ url key version beta b n. refl; sleep = λ ms n. refl }

complete_exhausted_example :
    let o = complete busy_remote default_llm "key" request 0 in
    (e : CapError) × (o.0 ≡ err e) × (o.1 ≡ 0 + default_llm.max_retries + 1)
complete_exhausted_example =
    complete_exhausted busy_remote default_llm "key" request always_busy (λ n. n)
      busy_remote-IsTally 0

retried : (complete remote default_llm "key" request 0).0 ≡ ok replied
unfolding complete attempts ask judge is_success is_retryable pause from_api
retried = refl

abbrev answered : LlmRequest Value
answered = record request { messages = user_message (result_block "id1" "noon" false ∷ []) ∷ [] }

answered_has_result : any (λ m. any is_result m.content) answered.messages ≡ true
unfolding is_result
answered_has_result = refl

abbrev machine : Machine
machine = record { var = λ name. ok "sk-1"; client = ok tt }

built : new machine remote default_llm ≡ ok (anthropic_provider remote default_llm "sk-1")
unfolding new trim
built = refl
