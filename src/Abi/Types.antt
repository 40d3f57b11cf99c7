-- ===== src/Abi/Types.antt =====
-- crates/tds-abi/src/lib.rs: constants, error envelopes, messages and tool types. `V` is the type of
-- JSON values.
use tds_wasm_ai.Common.{
  ℕ, ◌+◌, ◌%◌, ◌^◌, String, Bool, Option, none, some, List, [], ◌∷◌, filter_map, eqb, if◌then◌else◌,
  Result,
}
use tds_wasm_ai.Common.Int.{ℤ, pos, negsuc}
use tds_wasm_ai.Common.Text.{format, join, trim}

abbrev pub abi_version : ℤ
abi_version = pos 1

abbrev pub host_module : String
host_module = "tds_host"

-- The negative results of `tds_host::call`: -1, -2 and -3.
abbrev pub bad_pointer : ℤ
bad_pointer = negsuc 0

abbrev pub bad_request : ℤ
bad_request = negsuc 1

abbrev pub internal : ℤ
internal = negsuc 2

pub data LogLevel : Type 0 where
  debug info warn error : LogLevel

level_of_ℕ : ℕ → LogLevel
level_of_ℕ n = if eqb n 0 then debug else if eqb n 2 then warn else if eqb n 3 then error else info

-- `LogLevel::from_i32`
unfoldable pub from_i32 : ℤ → LogLevel
unfolding level_of_ℕ
from_i32 (pos n) = level_of_ℕ n
from_i32 (negsuc n) = info

-- `LogLevel::as_str`
unfoldable pub as_str : LogLevel → String
as_str debug = "debug"
as_str info = "info"
as_str warn = "warn"
as_str error = "error"

-- `level as i32`
unfoldable pub level_number : LogLevel → ℤ
level_number debug = pos 0
level_number info = pos 1
level_number warn = pos 2
level_number error = pos 3

-- Module `cap`: the names of the capabilities.
abbrev pub tools_list : String
tools_list = "tools.list"

abbrev pub tool_invoke : String
tool_invoke = "tool.invoke"

abbrev pub llm_complete : String
llm_complete = "llm.complete"

pub record CapError : Type 0 where
  pub kind : String
  pub message : String

-- `CapError::new`
abbrev pub cap_error : String → String → CapError
cap_error kind message = record { kind = kind; message = message }

abbrev pub denied : String → CapError
denied message = cap_error "denied" message

abbrev pub not_found : String → CapError
not_found message = cap_error "not_found" message

abbrev pub upstream : String → CapError
upstream message = cap_error "upstream" message

abbrev pub invalid : String → CapError
invalid message = cap_error "invalid" message

-- `Display` of `CapError`
unfoldable pub display : CapError → String
unfolding format
display e = format (e.kind ∷ ": " ∷ e.message ∷ [])

pub data CapResponse (T : Type 0) : Type 0 where
  ok : T → CapResponse T
  err : CapError → CapResponse T

-- `CapResponse::into_result`
unfoldable pub into_result : {T : Type 0} → CapResponse T → Result CapError T
into_result (CapResponse.ok v) = Result.ok v
into_result (CapResponse.err e) = Result.err e

pub record AgentInput : Type 0 where
  pub task : String
  pub context : Option String
  pub max_steps : ℕ

pub data StopReason : Type 0 where
  completed step_limit refusal error : StopReason

pub record Usage : Type 0 where
  pub input_tokens : ℕ
  pub output_tokens : ℕ

-- `Usage::default`
abbrev pub no_usage : Usage
no_usage = record { input_tokens = 0; output_tokens = 0 }

-- `Usage::add` on two `u64` fields; a release build wraps around.
unfoldable pub add : Usage → Usage → Usage
add u other = record {
  input_tokens = (u.input_tokens + other.input_tokens) % 2 ^ 64;
  output_tokens = (u.output_tokens + other.output_tokens) % 2 ^ 64;
}

pub data Role : Type 0 where
  user assistant : Role

module _ (V : Type 0) where
  pub record ToolCallRecord : Type 0 where
    pub step : ℕ
    pub name : String
    pub input : V
    pub ok : Bool
    pub result : String

  pub record AgentOutput : Type 0 where
    pub answer : String
    pub steps : ℕ
    pub stop : StopReason
    pub tool_calls : List ToolCallRecord
    pub usage : Usage

  pub record ToolSpec : Type 0 where
    pub name : String
    pub description : String
    pub input_schema : V

  pub record ToolInvokeRequest : Type 0 where
    pub name : String
    pub input : V

  pub data KnownContent : Type 0 where
    text : String → KnownContent
    thinking : String → Option String → KnownContent
    redacted_thinking : String → KnownContent
    tool_use : String → String → V → KnownContent
    tool_result : String → String → Bool → KnownContent

  pub data Content : Type 0 where
    known : KnownContent → Content
    raw : V → Content

  pub record Message : Type 0 where
    pub role : Role
    pub content : List Content

  pub record LlmRequest : Type 0 where
    pub system : Option String
    pub messages : List Message
    pub tools : List ToolSpec

  pub record LlmResponse : Type 0 where
    pub stop_reason : String
    pub content : List Content
    pub usage : Usage

  pub record ToolsListResponse : Type 0 where
    pub tools : List ToolSpec

pub record ToolInvokeResponse : Type 0 where
  pub content : String

module _ {V : Type 0} where
  -- `Content::text`
  abbrev pub text_block : String → Content V
  text_block s = known (text s)

  -- `Content::tool_result`
  abbrev pub result_block : String → String → Bool → Content V
  result_block id content is_error = known (tool_result id content is_error)

  -- `Content::as_text`
  unfoldable pub as_text : Content V → Option String
  as_text (known (text s)) = some s
  as_text _ = none

  -- `Content::as_tool_use`
  unfoldable pub as_tool_use : Content V → Option (String × String × V)
  as_tool_use (known (tool_use id name input)) = some (id, name, input)
  as_tool_use _ = none

  -- `Message::user` and `Message::assistant`
  abbrev pub user_message : List (Content V) → Message V
  user_message content = record { role = user; content = content }

  abbrev pub assistant_message : List (Content V) → Message V
  assistant_message content = record { role = assistant; content = content }

  -- `LlmResponse::joined_text`
  unfoldable pub joined_text : LlmResponse V → String
  unfolding as_text join trim
  joined_text r = trim (join "\n" (filter_map as_text r.content))
