-- ===== src/Examples/Policies.antt =====
-- Policies, hosts and module shapes.
use mathlib.Core.List.{Memᴰ}
use tds_wasm_ai.Common.{◌^◌, ◌<◌, ◌≡◌, ◌↔◌, String, true, [], ◌∷◌, ok, arith}
use tds_wasm_ai.Common.Text.{to_ascii_lowercase}
use tds_wasm_ai.Policy.Validation.{validate, IsAcceptable, validate_iff}
use tds_wasm_ai.Policy.Hosts.{allows, normal_rule, Matches, allows_iff}
use tds_wasm_ai.Runtime.Module.{Shape, required_exports}
use tds_wasm_ai.Abi.Packing.{pack_ptr_len, unpack_ptr_len, unpack-pack}
use tds_wasm_ai.Examples.Parts.{open_policy}

validate_iff_example : (validate (λ s. s) open_policy ≡ ok tt) ↔ IsAcceptable open_policy
validate_iff_example = validate_iff (λ s. s) open_policy

allows_iff_example : (allows open_policy.tools.http "Docs.example.com" ≡ true) ↔ (
    (rule : String) × Memᴰ rule open_policy.tools.http.allowed_hosts
    × Matches (to_ascii_lowercase "Docs.example.com") (normal_rule rule))
allows_iff_example = allows_iff open_policy.tools.http "Docs.example.com"

abbrev agent_shape : Shape
agent_shape = record {
  imports = record { module_name = "tds_host"; name = "call" } ∷ [];
  exports = required_exports;
}

unpack-pack_example :
    (pack_ptr_len 65_536 42 < 2 ^ 64) × (unpack_ptr_len (pack_ptr_len 65_536 42) ≡ (65_536, 42))
unpack-pack_example = unpack-pack 65_536 42 (omega arith) (omega arith)
