-- ===== src/Tests/Tools.antt =====
-- The unit tests of crates/tds-host/src/tools.rs. A test that parses URLs does so on a parser of its three.
use Prim.Native.String.{len, ◌++◌}
use text.Mathlib.TextPositions.{len-append}
use tds_wasm_ai.Common.{
  ℕ, zero, suc, ◌*◌, ◌≡◌, refl, String, Bool, true, false, ◌&&◌, none, some, List, [], ◌∷◌, map,
  filter_map, ltb, ◌==◌, if◌then◌else◌, Result, ok, err, arith,
}
use tds_wasm_ai.Common.Text.{trim, to_ascii_lowercase}
use tds_wasm_ai.Common.Assoc.{lookup, insert, contains_key}
use tds_wasm_ai.External.{External}
use tds_wasm_ai.Policy.Types.{default_policy, default_http, default_tools}
use tds_wasm_ai.Policy.Hosts.{allows}
use tds_wasm_ai.Tools.Invoke.{ToolBox, new, invoke, is_enabled, run_http_get, run_kv_put}
use tds_wasm_ai.Tools.Http.{string_arg, checked_url, http_get}
use tds_wasm_ai.Tools.Scratchpad.{kv_get, kv_put, store}
use tds_wasm_ai.Tools.Specs.{specs}
use tds_wasm_ai.Tests.Tree.{Tree, json, is_ok, fails_as, gives}

abbrev toolbox : List String → List String → ToolBox
toolbox enabled allowed_hosts = new (record default_policy {
  tools = record default_tools {
    enabled = enabled;
    http = record default_http { allowed_hosts = allowed_hosts };
  };
})

-- `json!({ "url": url })`
abbrev with_url : String → Tree
with_url url = json.object (("url", json.string url) ∷ [])

-- `"x".repeat(n)`
unfoldable repeat_x : ℕ → String
repeat_x zero = ""
repeat_x (suc n) = "x" ++ repeat_x n

len-repeat_x : (n : ℕ) → len (repeat_x n) ≡ n
unfolding repeat_x
len-repeat_x zero = refl
len-repeat_x (suc n) = omega (arith, len-append "x" (repeat_x n), len-repeat_x n)

module _ {U W : Type 0} (x : External Tree U W) (w : W) where
  unfoldable a_disabled_tool_is_denied_even_though_the_host_implements_it : Bool
  a_disabled_tool_is_denied_even_though_the_host_implements_it =
      fails_as "denied"
        (invoke x (toolbox ("now" ∷ []) []) "http_get" (with_url "https://example.com") w).result

  a_disabled_tool_is_denied_even_though_the_host_implements_it_lem :
      a_disabled_tool_is_denied_even_though_the_host_implements_it ≡ true
  unfolding a_disabled_tool_is_denied_even_though_the_host_implements_it invoke is_enabled
  a_disabled_tool_is_denied_even_though_the_host_implements_it_lem = refl

  abbrev are : List String → List String → Bool
  are [] [] = true
  are (a ∷ as_) (b ∷ bs) = (a == b) && are as_ bs
  are _ _ = false

  unfoldable a_disabled_tool_is_not_described_to_the_model : Bool
  a_disabled_tool_is_not_described_to_the_model =
      let names = map (λ s. s.name) (specs x (toolbox ("now" ∷ "kv_get" ∷ []) []).policy) in
      are names ("now" ∷ "kv_get" ∷ [])

  a_disabled_tool_is_not_described_to_the_model_lem :
      a_disabled_tool_is_not_described_to_the_model ≡ true
  unfolding a_disabled_tool_is_not_described_to_the_model specs filter_map
  a_disabled_tool_is_not_described_to_the_model_lem = refl

  unfoldable non_https_and_off_allowlist_urls_are_refused_before_any_request : Bool
  non_https_and_off_allowlist_urls_are_refused_before_any_request =
      let tools = toolbox ("http_get" ∷ []) ("example.com" ∷ []) in
      let plaintext = invoke x tools "http_get" (with_url "http://example.com") w in
      let elsewhere =
        invoke x plaintext.box "http_get" (with_url "https://evil.test/x") plaintext.world in
      let loopback =
        invoke x elsewhere.box "http_get" (with_url "https://127.0.0.1/") elsewhere.world in
      fails_as "denied" plaintext.result
      && (fails_as "denied" elsewhere.result && fails_as "denied" loopback.result)

  unfoldable the_scratchpad_round_trips_and_enforces_its_caps : Bool
  the_scratchpad_round_trips_and_enforces_its_caps =
      let tools = toolbox ("kv_get" ∷ "kv_put" ∷ []) [] in
      let pair : String → String → Tree =
        λ key value. json.object (("key", json.string key) ∷ ("value", json.string value) ∷ []) in
      let put = invoke x tools "kv_put" (pair "a" "hello") w in
      let got = invoke x put.box "kv_get" (json.object (("key", json.string "a") ∷ [])) put.world in
      let oversized = repeat_x (32 * 1024) in
      let refused = invoke x got.box "kv_put" (pair "b" oversized) got.world in
      is_ok put.result && (gives "hello" got.result && fails_as "denied" refused.result)

  unfoldable missing_arguments_are_reported_as_invalid_not_as_a_panic : Bool
  missing_arguments_are_reported_as_invalid_not_as_a_panic =
      fails_as "invalid" (invoke x (toolbox ("kv_get" ∷ []) []) "kv_get" (json.object []) w).result

-- The parser of the three URLs, a clock that does not work and a network of nothing.
abbrev parse_url : String → Result String (String × String)
parse_url s =
    if s == "http://example.com"
    then ok ("http", "example.com")
    else if s == "https://evil.test/x"
    then ok ("https", "evil.test")
    else if s == "https://127.0.0.1/"
    then ok ("https", "127.0.0.1")
    else err "relative URL without a base"

abbrev offline : External Tree (String × String) (Unit {0})
offline = record {
  json = json;
  debug = λ s. s;
  parse_url = parse_url;
  scheme = λ u. u.0;
  host_str = λ u. some u.1;
  clock = λ w. (none, w);
  send = λ u w. (err "offline", w);
}

non_https_and_off_allowlist_urls_are_refused_before_any_request_lem :
    non_https_and_off_allowlist_urls_are_refused_before_any_request offline tt ≡ true
unfolding non_https_and_off_allowlist_urls_are_refused_before_any_request invoke is_enabled
    run_http_get http_get checked_url string_arg allows trim to_ascii_lowercase
non_https_and_off_allowlist_urls_are_refused_before_any_request_lem = refl

missing_arguments_are_reported_as_invalid_not_as_a_panic_lem :
    missing_arguments_are_reported_as_invalid_not_as_a_panic offline tt ≡ true
unfolding missing_arguments_are_reported_as_invalid_not_as_a_panic invoke is_enabled kv_get
    string_arg
missing_arguments_are_reported_as_invalid_not_as_a_panic_lem = refl

the_scratchpad_round_trips_and_enforces_its_caps_lem :
    the_scratchpad_round_trips_and_enforces_its_caps offline tt ≡ true
unfolding the_scratchpad_round_trips_and_enforces_its_caps invoke is_enabled kv_get kv_put store
    string_arg lookup insert contains_key run_kv_put
the_scratchpad_round_trips_and_enforces_its_caps_lem =
    let big : ltb (16 * 1024) (len (repeat_x (32 * 1024))) ≡ true =
      ground (arith, len-repeat_x (32 * 1024)) in
    rw (the_scratchpad_round_trips_and_enforces_its_caps, invoke, run_kv_put, kv_put, store, big)
      refl
