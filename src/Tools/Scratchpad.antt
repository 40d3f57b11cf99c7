-- ===== src/Tools/Scratchpad.antt =====
-- crates/tds-host/src/tools.rs, `kv_get` and `kv_put`: the key/value scratchpad of one run.
pub mod Laws
use tds_wasm_ai.Common.{
  String, Bool, true, false, ◌&&◌, List, [], ◌∷◌, if◌then◌else◌, leb, ltb, length, Result, ok, err,
  ◌>>=◌, unwrap_or,
}
use Prim.Native.String.{len}
use tds_wasm_ai.Common.Assoc.{lookup, contains_key, insert}
use tds_wasm_ai.Common.Text.{format, show}
use tds_wasm_ai.External.{External}
use tds_wasm_ai.Abi.Types.{CapError, denied}
use tds_wasm_ai.Policy.Types.{KvToolConfig}
use tds_wasm_ai.Tools.Http.{string_arg}

abbrev pub Scratchpad : Type 0
Scratchpad = List (String × String)

abbrev pub negate : Bool → Bool
negate true = false
negate false = true

module _ {V U W : Type 0} (x : External V U W) where
  unfoldable pub kv_get : Scratchpad → V → Result CapError String
  unfolding lookup
  kv_get kv input = do
    key ← string_arg x input "key"
    ok (unwrap_or (lookup key kv) (format ("(no value stored for " ∷ x.debug key ∷ ")" ∷ [])))

  -- The part of `kv_put` that follows the reading of its arguments.
  unfoldable pub store :
      KvToolConfig → Scratchpad → String → String → Result CapError String × Scratchpad
  unfolding insert contains_key
  store limits kv key value =
      if ltb limits.max_value_bytes (len value)
      then (
        err (
            denied (
              format (
                "value is "
                ∷ show (len value)
                ∷ " bytes, over the "
                ∷ show limits.max_value_bytes
                ∷ " byte limit"
                ∷ []))),
        kv,
      )
      else if negate (contains_key key kv) && leb limits.max_keys (length kv)
      then (
        err (
            denied (
              format (
                "the scratchpad already holds its maximum of "
                ∷ show limits.max_keys
                ∷ " keys"
                ∷ []))),
        kv,
      )
      else (ok (format ("stored " ∷ x.debug key ∷ [])), insert key value kv)

  unfoldable pub kv_put : KvToolConfig → Scratchpad → V → Result CapError String × Scratchpad
  unfolding store
  kv_put limits kv input = elim (string_arg x input "key") [
    | err e ↦ (err e, kv)
    | ok key ↦ elim (string_arg x input "value") [
      | err e ↦ (err e, kv)
      | ok value ↦ store limits kv key value
    ]
  ]
