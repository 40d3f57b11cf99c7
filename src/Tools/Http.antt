-- ===== src/Tools/Http.antt =====
-- crates/tds-host/src/tools.rs, `string_arg` and `http_get`.
pub mod Laws
pub mod Body
use tds_wasm_ai.Common.{
  ℕ, ◌-◌, String, Bool, true, false, Option, none, some, List, [], ◌∷◌, ◌++◌, ◌==◌, if◌then◌else◌,
  eqb, leb, ltb, length, take, Result, ok, err, ◌>>=◌, ◌>>◌, map_err, ok_or, unwrap_or,
}
use tds_wasm_ai.Common.Text.{format, show}
use tds_wasm_ai.Common.Utf8.{from_utf8_lossy}
use tds_wasm_ai.External.{External, Response, Chunk, bytes, broken}
use tds_wasm_ai.Abi.Types.{CapError, denied, invalid, upstream}
use tds_wasm_ai.Policy.Types.{HttpToolConfig}
use tds_wasm_ai.Policy.Hosts.{allows}

-- `response.take(cap).read_to_end(&mut body)`: the bytes up to the limit. Past the limit nothing more
-- is read, so a connection that breaks later goes unnoticed.
unfoldable pub read_body : ℕ → List Chunk → Result String (List ℕ)
read_body cap [] = ok []
read_body cap (bytes bs ∷ chunks) =
    let rest = read_body (cap - length bs) chunks in
    if ltb (length bs) cap then (do more ← rest; ok (bs ++ more)) else ok (take cap bs)
read_body cap (broken e ∷ chunks) = if eqb cap 0 then ok [] else err e

abbrev require : Bool → CapError → Result CapError (Unit {0})
require true e = ok tt
require false e = err e

abbrev pub and_then {ℓ} : {A : Type ℓ} {B : Type ℓ} → Option A → (A → Option B) → Option B
and_then none f = none
and_then (some a) f = f a

module _ {V U W : Type 0} (x : External V U W) where
  unfoldable pub string_arg : V → String → Result CapError String
  string_arg input field =
      ok_or (and_then (x.json.get input field) x.json.as_str)
        (invalid (format ("missing required string argument " ∷ x.debug field ∷ [])))

  -- The checks that come before any request: the URL parses, is https and has an allowed host.
  unfoldable pub checked_url : HttpToolConfig → V → Result CapError (U × String)
  checked_url config input = do
    text ← string_arg input "url"
    url ← map_err (λ e. invalid (format ("url is not valid: " ∷ e ∷ []))) (x.parse_url text)
    require (x.scheme url == "https") (denied "only https URLs may be fetched")
    host ← ok_or (x.host_str url) (invalid "url has no host")
    require (allows config host)
        (denied (format ("host " ∷ x.debug host ∷ " is not in this host's allowlist" ∷ [])))
    ok (url, host)

  -- What the agent is told of a response that is no redirect.
  unfoldable pub page : HttpToolConfig → Response → Result CapError String
  page config response = do
    let cap = config.max_response_bytes
    body ←
        map_err (λ e. upstream (format ("reading response body: " ∷ e ∷ [])))
          (read_body cap response.body)
    ok (
        format (
          "HTTP "
          ∷ show response.status
          ∷ (if leb cap (length body)
              then format (" (truncated to " ∷ show cap ∷ " bytes)" ∷ [])
              else "")
          ∷ "\n\n"
          ∷ from_utf8_lossy body
          ∷ []))

  unfoldable pub answer : HttpToolConfig → String → Result String Response → Result CapError String
  answer config host (err e) = err (upstream (format ("GET " ∷ host ∷ " failed: " ∷ e ∷ [])))
  answer config host (ok response) =
      if response.is_redirection
      then ok (
          format (
            "HTTP "
            ∷ show response.status
            ∷ " redirect to "
            ∷ unwrap_or response.location "(none)"
            ∷ ". Redirects are not followed automatically; fetch that URL explicitly if you still want it."
            ∷ []))
      else page config response

  -- `ToolBox::http_get`: the outcome, and the world after it.
  unfoldable pub http_get : HttpToolConfig → V → W → Result CapError String × W
  http_get config input w = elim (checked_url config input) [
    | err e ↦ (err e, w)
    | ok target ↦ let (r, w') = x.send target.0 w in (answer config target.1 r, w')
  ]
