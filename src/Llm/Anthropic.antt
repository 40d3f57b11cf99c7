-- ===== src/Llm/Anthropic.antt =====
-- crates/tds-host/src/llm.rs, the provider `AnthropicProvider`. The HTTP client is a parameter.
pub mod Laws
pub mod Exhausted
pub mod Received
use Prim.Native.String.{len, slice}
use tds_wasm_ai.Common.{
  ℕ, zero, suc, ◌+◌, ◌-◌, ◌*◌, ◌^◌, ◌≤◌, min, Bool, true, false, ◌||◌, ◌&&◌, String, Option, none,
  some, List, [], ◌∷◌, ◌==◌, eqb, leb, ltb, is_empty, if◌then◌else◌, Result, ok, err,
}
use tds_wasm_ai.Common.Text.{format, show}
use tds_wasm_ai.Common.Text.Split.{trim_end_slashes}
use tds_wasm_ai.External.{Json}
use tds_wasm_ai.Abi.Types.{
  CapError, upstream, Content, Message, ToolSpec, Usage, LlmRequest, LlmResponse,
}
use tds_wasm_ai.Policy.Types.{LlmConfig, Thinking, adaptive, disabled, effort_str}
use tds_wasm_ai.Runtime.State.{LlmProvider}
use tds_wasm_ai.Agent.Truncate.{boundary_below}

pub record ApiResponse (V : Type 0) : Type 0 where
  pub stop_reason : Option String
  pub content : List (Content V)
  pub usage : Usage

-- A response of the API: its `retry-after` header if it is a number of seconds, its body parsed, and its
-- body as text, empty if it cannot be read.
pub record Answer (V : Type 0) : Type 0 where
  pub status : ℕ
  pub retry_after : Option ℕ
  pub parsed : Result String (ApiResponse V)
  pub text : String

-- What the provider calls: the client, `sleep` in milliseconds, and the JSON of messages and tools.
pub record Remote (V W : Type 0) : Type 0 where
  pub json : Json V
  pub messages : List (Message V) → V
  pub tools : List (ToolSpec V) → V
  pub post : (url key version : String) → Option String → V → W → Result String (Answer V) × W
  pub sleep : ℕ → W → W

-- `impl From<ApiResponse> for LlmResponse`
unfoldable pub from_api : {V : Type 0} → ApiResponse V → LlmResponse V
from_api r = record {
  stop_reason = elim r.stop_reason [ none ↦ "end_turn" | some reason ↦ reason ];
  content = r.content;
  usage = r.usage;
}

-- In milliseconds. The multiplication saturates, but no product comes near the limit.
unfoldable pub backoff : ℕ → ℕ
backoff attempt = min (500 * 2 ^ min attempt 5) (2 ^ 64 - 1)

unfoldable pub truncate : String → ℕ → String
truncate s max = if leb (len s) max then s else format (slice s 0 (boundary_below s max) ∷ "…" ∷ [])

-- 429 and the statuses 500 to 599.
unfoldable pub is_retryable : ℕ → Bool
is_retryable status = eqb status 429 || (leb 500 status && leb status 599)

unfoldable pub is_success : ℕ → Bool
is_success status = leb 200 status && leb status 299

-- Where an attempt leaves the loop: at an end, or at a wait before the next attempt.
pub data Verdict (V : Type 0) : Type 0 where
  final : Result CapError (LlmResponse V) → Verdict V
  wait : ℕ → CapError → Verdict V

-- How long to wait before the next attempt, in milliseconds.
unfoldable pub pause : ℕ → Option ℕ → ℕ
pause attempt none = backoff (suc attempt)
pause attempt (some seconds) = seconds * 1000

unfoldable pub refusal : {V : Type 0} → Answer V → CapError
refusal r =
    upstream (format ("model returned HTTP " ∷ show r.status ∷ ": " ∷ truncate r.text 512 ∷ []))

module _ {V W : Type 0} (remote : Remote V W) (config : LlmConfig) (api_key : String) where
  unfoldable pub body : LlmRequest V → V
  body request =
      let json = remote.json in
      let base = json.object (
        ("model", json.string config.model)
        ∷ ("max_tokens", json.number config.max_tokens)
        ∷ ("messages", remote.messages request.messages)
        ∷ ("output_config", json.object (("effort", json.string (effort_str config.effort)) ∷ []))
        ∷ []) in
      let thinking : V = elim config.thinking [
        | adaptive ↦
            let value = json.object (("type", json.string "adaptive") ∷ []) in
            if config.summarize_thinking
            then json.set value "display" (json.string "summarized")
            else value
        | disabled ↦ json.object (("type", json.string "disabled") ∷ [])
      ] in
      let b1 = json.set base "thinking" thinking in
      let b2 : V = elim request.system [
        | none ↦ b1
        | some s ↦ json.set b1 "system" (json.string s)
      ] in
      let b3 =
        if is_empty request.tools then b2 else json.set b2 "tools" (remote.tools request.tools) in
      if config.server_side_fallback then json.set b3 "fallbacks" (json.string "default") else b3

  -- What one attempt, the `attempt`th retry, concludes. A wait carries the error to end with if no retry
  -- is left.
  unfoldable pub judge : ℕ → Result String (Answer V) → Verdict V
  judge attempt (err e) =
      wait (backoff (suc attempt)) (upstream (format ("request to the model failed: " ∷ e ∷ [])))
  judge attempt (ok r) =
      if is_success r.status
      then final (elim r.parsed [
        | ok parsed ↦ ok (from_api parsed)
        | err e ↦ err (upstream (format ("malformed model response: " ∷ e ∷ [])))
      ])
      else if is_retryable r.status
      then wait (pause attempt r.retry_after) (refusal r)
      else final (err (refusal r))

  unfoldable pub ask : LlmRequest V → W → Result String (Answer V) × W
  ask request w =
      let url = format (trim_end_slashes config.base_url ∷ "/v1/messages" ∷ []) in
      let beta =
        if config.server_side_fallback then some "server-side-fallback-2026-07-01" else none in
      remote.post url api_key config.api_version beta (body request) w

  -- The loop, at its `attempt`th retry: on fuel, `none` where the fuel does not do.
  unfoldable pub attempts : ℕ → ℕ → LlmRequest V → W → Option (Result CapError (LlmResponse V)) × W
  attempts zero attempt request w = (none, w)
  attempts (suc fuel) attempt request w =
      let (answer, t) = ask request w in
      elim (judge attempt answer) [
        | final r ↦ (some r, t)
        | wait ms e ↦ elim (ltb attempt config.max_retries) [
          | true ↦ attempts fuel (suc attempt) request (remote.sleep ms t)
          | false ↦ (some (err e), t)
        ]
      ]

  -- `AnthropicProvider::complete`. The loop has fuel for `max_retries` retries after the first attempt;
  -- what stands for a loop that goes on past it is an error that the source does not have.
  unfoldable pub complete : LlmRequest V → W → Result CapError (LlmResponse V) × W
  complete request w =
      let (ended, t) = attempts (suc config.max_retries) 0 request w in
      (elim ended [ some r ↦ r | none ↦ err (upstream "the loop has not ended") ], t)

  unfoldable pub anthropic_provider : LlmProvider V W
  anthropic_provider = record {
    complete = complete;
    describe = format ("anthropic:" ∷ config.model ∷ []);
  }
