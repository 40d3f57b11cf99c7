-- ===== src/Tools/Http/Body.antt =====
-- What `http_get` tells of a response's body, however it arrives.
use tds_wasm_ai.Common.{
  ℕ, ◌≤◌, ◌<◌, ◌≡◌, ◌⊎◌, String, Option, some, none, List, [], ◌∷◌, ◌++◌, length, take, Result, ok,
  err,
}
use tds_wasm_ai.Common.Text.{format, show}
use tds_wasm_ai.Common.Utf8.{from_utf8_lossy}
use tds_wasm_ai.External.{External, Response, Chunk, bytes, broken}
use tds_wasm_ai.Abi.Types.{CapError, upstream}
use tds_wasm_ai.Policy.Types.{HttpToolConfig}

-- The bytes that arrive in all, and how the connection broke after them, if it did.
abbrev pub delivered : List Chunk → List ℕ × Option String
delivered [] = ([], none)
delivered (bytes bs ∷ chunks) = (bs ++ (delivered chunks).0, (delivered chunks).1)
delivered (broken e ∷ chunks) = ([], some e)

abbrev unless_broken : List ℕ → Option String → Result String (List ℕ)
unless_broken whole none = ok whole
unless_broken whole (some e) = err e

abbrev Reads : ℕ → List ℕ → Option String → Result String (List ℕ) → Type 0
Reads cap whole broke r =
    ((cap ≤ length whole) × (r ≡ ok (take cap whole)))
    ⊎ ((length whole < cap) × (r ≡ unless_broken whole broke))

module _ {V U W : Type 0} (x : External V U W) (config : HttpToolConfig) (response : Response) where
  abbrev shown : String → List ℕ → String
  shown note body =
      format ("HTTP " ∷ show response.status ∷ note ∷ "\n\n" ∷ from_utf8_lossy body ∷ [])

  -- What the agent is told, by how much arrives and whether the connection breaks.
  pub data Told (whole : List ℕ) (broke : Option String) (r : Result CapError String) : Type 0 where
    cut :
        config.max_response_bytes ≤ length whole
        → r
          ≡ ok (
              shown
                (format (" (truncated to " ∷ show config.max_response_bytes ∷ " bytes)" ∷ []))
                (take config.max_response_bytes whole))
        → Told whole broke r
    complete :
        length whole < config.max_response_bytes
        → broke ≡ none
        → r ≡ ok (shown "" whole)
        → Told whole broke r
    lost :
        length whole < config.max_response_bytes
        → (e : String) → broke ≡ some e
        → r ≡ err (upstream (format ("reading response body: " ∷ e ∷ [])))
        → Told whole broke r
