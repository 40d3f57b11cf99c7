-- ===== src/Examples/Tooling.antt =====
-- Tool calls under a policy that allows one domain.
use mathlib.Core.Path.{subst}
use tds_wasm_ai.Common.{
  ℕ, ◌≡◌, ◌⊎◌, inr, refl, String, Bool, none, [], ◌∷◌, Memᴰ, any_of_mem, All, length, ◌==◌,
  if◌then◌else◌, ok, err, arith,
}
use tds_wasm_ai.Common.Assoc.{lookup, contains_key}
use tds_wasm_ai.Common.Text.{format, show}
use tds_wasm_ai.Common.Utf8.{from_utf8_lossy}
use tds_wasm_ai.External.{bytes, Response}
use tds_wasm_ai.Abi.Types.{CapError}
use tds_wasm_ai.Policy.Types.{HttpToolConfig, KvToolConfig}
use tds_wasm_ai.Tools.Known.{known_tools}
use tds_wasm_ai.Tools.Specs.Laws.{shown, shown-eq-enabled}
use tds_wasm_ai.Tools.Http.{string_arg, read_body, http_get, page}
use tds_wasm_ai.Tools.Http.Laws.{IsPermitted, http_get-contained, http_get_refused}
use tds_wasm_ai.Tools.Scratchpad.{kv_get, kv_put, store}
use tds_wasm_ai.Tools.Scratchpad.Laws.{IsWithin, kv_get-kv_put}
use tds_wasm_ai.Tools.Invoke.{ToolBox, invoke}
use tds_wasm_ai.Tools.Invoke.Laws.{Effects, invoke-Effects, invoke-IsWithin, invoke_unlisted}
use tds_wasm_ai.Examples.Parts.{Value, start, fields, ext, open_policy}

abbrev box : ToolBox
box = record { policy = open_policy; kv = [] }

abbrev docs : Value
docs = fields (("url", "https://docs.example.com/") ∷ [])

abbrev plain : Value
plain = fields (("url", "http://docs.example.com/") ∷ [])

abbrev entry : Value
entry = fields (("key", "colour") ∷ ("value", "blue") ∷ [])

http_get-contained_example :
    ((http_get ext open_policy.tools.http docs start).1 ≡ start)
    ⊎ ((url : String × String) × (host : String) × IsPermitted ext open_policy.tools.http url host
        × ((http_get ext open_policy.tools.http docs start).1 ≡ (ext.send url start).1))
http_get-contained_example = http_get-contained ext open_policy.tools.http docs start

plain_unfit :
    (host : String) → ¬ IsPermitted ext open_policy.tools.http ("http", "docs.example.com") host
plain_unfit host p = cc (p.https)

string_arg-plain : string_arg ext plain "url" ≡ ok "http://docs.example.com/"
unfolding string_arg lookup
string_arg-plain = refl

http_get_refused_example :
    (e : CapError) × (http_get ext open_policy.tools.http plain start ≡ (err e, start))
    × ((e.kind ≡ "denied")
        ⊎ ((ext.host_str ("http", "docs.example.com") ≡ none) × (e.kind ≡ "invalid")))
http_get_refused_example =
    http_get_refused ext open_policy.tools.http plain "http://docs.example.com/"
      ("http", "docs.example.com") start string_arg-plain refl plain_unfit

invoke-Effects_example :
    Effects ext box "http_get" docs start (invoke ext box "http_get" docs start)
invoke-Effects_example = invoke-Effects ext box "http_get" docs start

empty_IsWithin : IsWithin open_policy.tools.kv []
empty_IsWithin = record { keys = omega arith; values = tt }

invoke-IsWithin_example : IsWithin open_policy.tools.kv (invoke ext box "kv_put" entry start).box.kv
invoke-IsWithin_example = invoke-IsWithin ext box "kv_put" entry start empty_IsWithin

known-All : All (λ name. Memᴰ name known_tools) open_policy.tools.enabled
known-All = (
  Memᴰ.head refl,
  (
    Memᴰ.tail (Memᴰ.head refl),
    (
      Memᴰ.tail (Memᴰ.tail (Memᴰ.head refl)),
      (Memᴰ.tail (Memᴰ.tail (Memᴰ.tail (Memᴰ.head refl))), tt),
    ),
  ),
)

shell_unlisted : ¬ Memᴰ "shell" (shown ext open_policy)
shell_unlisted m =
    let listed : Memᴰ "shell" open_policy.tools.enabled =
      subst (λ names. Memᴰ "shell" names) (shown-eq-enabled ext open_policy known-All) m in
    cc (any_of_mem (λ t. t == "shell") listed refl)

invoke_unlisted_example :
    (e : CapError) × (invoke ext box "shell" entry start
      ≡ record { result = err e; box = box; world = start })
    × ((e.kind ≡ "denied") ⊎ (e.kind ≡ "not_found"))
invoke_unlisted_example = invoke_unlisted ext box "shell" entry start shell_unlisted

string_arg-key : string_arg ext entry "key" ≡ ok "colour"
unfolding string_arg lookup
string_arg-key = refl

string_arg-value : string_arg ext entry "value" ≡ ok "blue"
unfolding string_arg lookup
string_arg-value = refl

kv_get-kv_put_example :
    kv_get ext (kv_put ext open_policy.tools.kv [] entry).1 entry
    ≡ (if "colour" == "colour" then ok "blue" else kv_get ext [] entry)
kv_get-kv_put_example =
    kv_get-kv_put ext open_policy.tools.kv [] entry entry "colour" "blue" "colour" string_arg-key
      string_arg-value string_arg-key (record { short = omega arith; room = inr (omega arith) })

-- Limits that no value meets.
abbrev tight : KvToolConfig
tight = record { max_keys = 0; max_value_bytes = 3 }

abbrev refusal : CapError
refusal = record { kind = "denied"; message = "value is 4 bytes, over the 3 byte limit" }

entry_refused : (kv_put ext tight [] entry).0 ≡ err refusal
unfolding kv_put store string_arg lookup contains_key format show
entry_refused = refl

body_read : read_body 2 (bytes (104 ∷ 105 ∷ 33 ∷ []) ∷ []) ≡ ok (104 ∷ 105 ∷ [])
unfolding read_body
body_read = refl

shown-eq-enabled_example : shown ext open_policy ≡ open_policy.tools.enabled
shown-eq-enabled_example = shown-eq-enabled ext open_policy known-All

-- Two pieces, as long together as the limit.
abbrev exact_response : Response
exact_response = record {
  status = 200;
  is_redirection = Bool.false;
  location = none;
  body = bytes (104 ∷ []) ∷ bytes (105 ∷ []) ∷ [];
}

abbrev two_bytes : HttpToolConfig
two_bytes = record { allowed_hosts = []; max_response_bytes = 2; timeout_ms = 1000 }

-- A body of exactly the limit is told as cut.
exact_fit : page ext two_bytes exact_response ≡ ok "HTTP 200 (truncated to 2 bytes)\n\nhi"
unfolding page read_body format show from_utf8_lossy tds_wasm_ai.Common.Utf8.lossy
    tds_wasm_ai.Common.Utf8.advance
exact_fit = refl
