-- ===== src/Tools/Specs.antt =====
-- crates/tds-host/src/tools.rs, `spec_for` and `specs`: the tools that the agent is shown.
pub mod Laws
use tds_wasm_ai.Common.{String, Option, none, some, List, [], ◌∷◌, filter_map, ◌==◌, if◌then◌else◌}
use tds_wasm_ai.External.{External}
use tds_wasm_ai.Abi.Types.{ToolSpec}
use tds_wasm_ai.Policy.Types.{Policy}

module _ {V U W : Type 0} (x : External V U W) where
  -- `json!({ "type": "object", "properties": …, "required": … })`
  object_schema : List (String × V) → List V → V
  object_schema properties required = x.json.object (
      ("type", x.json.string "object")
      ∷ ("properties", x.json.object properties)
      ∷ ("required", x.json.array required)
      ∷ [])

  -- `{ "type": "string" }`
  string_schema : V
  string_schema = x.json.object (("type", x.json.string "string") ∷ [])

  spec : String → String → V → Option (ToolSpec V)
  spec name description schema =
      some (record { name = name; description = description; input_schema = schema })

  pub spec_for : String → Option (ToolSpec V)
  unfolding spec object_schema string_schema
  spec_for name =
      if name == "now"
      then spec name
          "Get the current UTC time as an RFC 3339 timestamp. The sandbox has no clock of its own, so this is the only way to learn the time."
          (object_schema [] [])
      else if name == "http_get"
      then spec name
          "Fetch a URL over HTTPS and return the status and body. Only hosts on the runtime's allowlist can be reached; anything else is denied. Responses are truncated past a size limit and redirects are reported rather than followed."
          (object_schema
            ((
              "url",
              x.json.object (
                  ("type", x.json.string "string")
                  ∷ ("description", x.json.string "Absolute https:// URL to fetch.")
                  ∷ []),
            )
              ∷ [])
            (x.json.string "url" ∷ []))
      else if name == "kv_get"
      then spec name
          "Read a value previously saved with kv_put. Returns a placeholder if the key has never been set. The scratchpad lasts only for this run."
          (object_schema (("key", string_schema) ∷ []) (x.json.string "key" ∷ []))
      else if name == "kv_put"
      then spec name
          "Save a string under a key so you can retrieve it later in this run. Use it to park intermediate findings instead of restating them each turn."
          (object_schema (("key", string_schema) ∷ ("value", string_schema) ∷ [])
            (x.json.string "key" ∷ x.json.string "value" ∷ []))
      else none

  -- `ToolBox::specs`, which reads only the policy of the box.
  unfoldable pub specs : Policy → List (ToolSpec V)
  unfolding spec_for
  specs p = filter_map spec_for p.tools.enabled
