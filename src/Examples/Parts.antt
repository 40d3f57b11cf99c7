-- ===== src/Examples/Parts.antt =====
-- A small JSON, a network of one page, and encodings that always or never succeed.
use tds_wasm_ai.Common.{
  ℕ, ◌+◌, Bool, String, Option, none, some, List, [], ◌∷◌, ◌==◌, if◌then◌else◌, filter_map, Result,
  ok, err,
}
use tds_wasm_ai.Common.Assoc.{lookup, insert}
use tds_wasm_ai.External.{Json, bytes, External}
use tds_wasm_ai.Wire.{Codec, Wire}
use tds_wasm_ai.Abi.Types.{
  CapResponse, AgentOutput, LlmResponse, completed, known, tool_use, no_usage,
}
use tds_wasm_ai.Policy.Types.{Policy, default_policy}
use tds_wasm_ai.Runtime.State.{LlmProvider}

-- Texts, and objects of texts.
pub data Value : Type 0 where
  text : String → Value
  fields : List (String × String) → Value

abbrev pub as_text : Value → Option String
as_text (text s) = some s
as_text (fields es) = none

abbrev pub field : Value → String → Option Value
field (text s) key = none
field (fields es) key = elim (lookup key es) [ none ↦ none | some s ↦ some (text s) ]

abbrev pub text_entry : String × Value → Option (String × String)
text_entry (key, text s) = some (key, s)
text_entry (key, fields es) = none

abbrev pub with_field : Value → String → Value → Value
with_field (fields es) key (text s) = fields (insert key s es)
with_field v key w = v

abbrev pub json : Json Value
json = record {
  object = λ es. fields (filter_map text_entry es);
  array = λ vs. text "[…]";
  string = text;
  number = λ n. text "n";
  boolean = λ b. text "b";
  get = field;
  as_str = as_text;
  set = with_field;
}

-- A URL is its scheme and its host. The world counts the requests and
-- the completions that were made.
abbrev pub World : Type 0
World = ℕ × ℕ

abbrev pub start : World
start = (0, 0)

abbrev pub parse_url : String → Result String (String × String)
parse_url s =
    if s == "https://docs.example.com/"
    then ok ("https", "docs.example.com")
    else if s == "http://docs.example.com/"
    then ok ("http", "docs.example.com")
    else err "not a URL"

abbrev pub ext : External Value (String × String) World
ext = record {
  json = json;
  debug = λ s. s;
  parse_url = parse_url;
  scheme = λ u. u.0;
  host_str = λ u. some u.1;
  clock = λ w. (some "2026-01-01T00:00:00Z", w);
  send = λ u w. (
    ok (record {
      status = 200;
      is_redirection = Bool.false;
      location = none;
      body = bytes (104 ∷ 105 ∷ []) ∷ [];
    }),
    (w.0 + 1, w.1),
  );
}

-- An encoding of which every encoding is one byte and every decoding is `a`.
abbrev always : {A : Type 0} → A → Codec A
always a = record { encode = λ _. ok (1 ∷ []); decode = λ _. ok a }

abbrev pub never : {A : Type 0} → Codec A
never = record { encode = λ _. err "no encoding"; decode = λ _. err "no decoding" }

-- A model that asks for the time.
abbrev pub asks_time : LlmResponse Value
asks_time = record {
  stop_reason = "tool_use";
  content = known (tool_use "id1" "now" (fields [])) ∷ [];
  usage = no_usage;
}

abbrev pub done : AgentOutput Value
done = record { answer = "done"; steps = 1; stop = completed; tool_calls = []; usage = no_usage }

abbrev pub wire : Wire Value
wire = record {
  value = always (fields []);
  tool_invoke_request = always (record { name = "now"; input = fields [] });
  llm_request = always (record { system = none; messages = []; tools = [] });
  agent_input = always (record { task = "What time is it?"; context = none; max_steps = 3 });
  agent_output = always done;
  unit_response = always (CapResponse.ok tt);
  tools_list_response = always (CapResponse.ok (record { tools = [] }));
  tool_invoke_response = always (CapResponse.ok (record { content = "noon" }));
  llm_response = always (CapResponse.ok asks_time);
}

-- A provider that counts the completions.
abbrev pub model : LlmProvider Value World
model = record { complete = λ _ w. (ok asks_time, (w.0, w.1 + 1)); describe = "model" }

-- The default policy, with `http_get` for the hosts of one domain.
abbrev pub open_policy : Policy
open_policy = record default_policy {
  tools = record default_policy.tools {
    enabled = "now" ∷ "http_get" ∷ "kv_get" ∷ "kv_put" ∷ [];
    http = record default_policy.tools.http { allowed_hosts = "*.Example.com" ∷ [] };
  };
}
