-- ===== src/Tools/Known.antt =====
-- crates/tds-host/src/tools.rs, `KNOWN_TOOLS` and `is_known_tool`.
use tds_wasm_ai.Common.{String, Bool, List, [], ◌∷◌, any, ◌==◌}

abbrev pub known_tools : List String
known_tools = "now" ∷ "http_get" ∷ "kv_get" ∷ "kv_put" ∷ []

unfoldable pub is_known_tool : String → Bool
is_known_tool name = any (λ t. t == name) known_tools
