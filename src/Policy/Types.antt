-- ===== src/Policy/Types.antt =====
-- crates/tds-host/src/policy.rs: the policy's fields and its defaults.
use tds_wasm_ai.Common.{ℕ, ◌*◌, String, Bool, true, false, List, [], ◌∷◌}

pub record Limits : Type 0 where
  pub fuel : ℕ
  pub wall_clock_ms : ℕ
  pub memory_bytes : ℕ
  pub table_elements : ℕ
  pub max_steps : ℕ
  pub max_request_bytes : ℕ

abbrev pub default_limits : Limits
default_limits = record {
  fuel = 1_000_000_000;
  wall_clock_ms = 120_000;
  memory_bytes = 64 * 1024 * 1024;
  table_elements = 10_000;
  max_steps = 8;
  max_request_bytes = 4 * 1024 * 1024;
}

pub data Provider : Type 0 where
  anthropic mock : Provider

pub data Effort : Type 0 where
  low medium high x_high max : Effort

-- `Effort::as_str`
unfoldable pub effort_str : Effort → String
effort_str low = "low"
effort_str medium = "medium"
effort_str high = "high"
effort_str x_high = "xhigh"
effort_str max = "max"

pub data Thinking : Type 0 where
  adaptive disabled : Thinking

pub record LlmConfig : Type 0 where
  pub provider : Provider
  pub model : String
  pub max_tokens : ℕ
  pub effort : Effort
  pub thinking : Thinking
  pub summarize_thinking : Bool
  pub base_url : String
  pub api_version : String
  pub api_key_env : String
  pub request_timeout_ms : ℕ
  pub max_retries : ℕ
  pub server_side_fallback : Bool

abbrev pub default_llm : LlmConfig
default_llm = record {
  provider = anthropic;
  model = "claude-opus-5";
  max_tokens = 8192;
  effort = high;
  thinking = adaptive;
  summarize_thinking = false;
  base_url = "https://api.anthropic.com";
  api_version = "2023-06-01";
  api_key_env = "ANTHROPIC_API_KEY";
  request_timeout_ms = 600_000;
  max_retries = 2;
  server_side_fallback = true;
}

pub record HttpToolConfig : Type 0 where
  pub allowed_hosts : List String
  pub max_response_bytes : ℕ
  pub timeout_ms : ℕ

abbrev pub default_http : HttpToolConfig
default_http = record { allowed_hosts = []; max_response_bytes = 64 * 1024; timeout_ms = 15_000 }

pub record KvToolConfig : Type 0 where
  pub max_keys : ℕ
  pub max_value_bytes : ℕ

abbrev pub default_kv : KvToolConfig
default_kv = record { max_keys = 128; max_value_bytes = 16 * 1024 }

pub record ToolsConfig : Type 0 where
  pub enabled : List String
  pub http : HttpToolConfig
  pub kv : KvToolConfig

abbrev pub default_tools : ToolsConfig
default_tools = record {
  enabled = "now" ∷ "kv_get" ∷ "kv_put" ∷ [];
  http = default_http;
  kv = default_kv;
}

pub record Policy : Type 0 where
  pub limits : Limits
  pub llm : LlmConfig
  pub tools : ToolsConfig

abbrev pub default_policy : Policy
default_policy = record { limits = default_limits; llm = default_llm; tools = default_tools }
