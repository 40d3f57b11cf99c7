-- ===== src/Agent/Imports.antt =====
-- crates/tds-agent/src/lib.rs, the imported host functions, `emit` and `host_call`. The source passes
-- pointers into the guest's own memory; the model passes what they point to.
pub mod Laws
use tds_wasm_ai.Common.{ℕ, String, List, ◌∷◌, [], eqb, if◌then◌else◌, replicate, Result, ok, err}
use tds_wasm_ai.Common.Int.{ℤ, pos, negsuc, eqb_ℤ}
use tds_wasm_ai.Common.Text.{format}
use tds_wasm_ai.Common.Utf8.{as_bytes}
use tds_wasm_ai.Wire.{Codec}
use tds_wasm_ai.Abi.Types.{
  CapError, CapResponse, cap_error, invalid, into_result, bad_pointer, bad_request, internal,
  LogLevel, level_number,
}

-- The three imports, on a state that stands for all the world outside the guest's own variables.
-- `response_read` is given the buffer and returns what it then holds.
pub record Imports (S : Type 0) : Type 0 where
  pub log : ℤ → List ℕ → S → S
  pub call : List ℕ → List ℕ → S → ℤ × S
  pub response_read : List ℕ → S → (ℤ × List ℕ) × S

unfoldable pub reason : ℤ → String
reason n =
    if eqb_ℤ n bad_pointer
    then "host rejected a memory reference"
    else if eqb_ℤ n bad_request
    then "host could not decode the request"
    else if eqb_ℤ n internal
    then "host failed internally"
    else "unknown host failure"

module _ {S : Type 0} (host : Imports S) where
  unfoldable pub emit : LogLevel → String → S → S
  emit level message s = host.log (level_number level) (as_bytes message) s

  -- The end of `host_call`: what was copied must be all of the `n` bytes, and is decoded.
  unfoldable pub settle :
      {Res : Type 0}
      → Codec (CapResponse Res)
      → String
      → ℕ
      → (ℤ × List ℕ) × S
      → Result CapError Res × S
  settle codec name n ((copied, buf), t) =
      if eqb_ℤ copied (pos n)
      then (
        elim (codec.decode buf) [
          | err e ↦ err (cap_error "host" (format (name ∷ ": malformed response: " ∷ e ∷ [])))
          | ok response ↦ into_result response
        ],
        t,
      )
      else (err (cap_error "host" (format (name ∷ ": truncated response" ∷ []))), t)

  -- A response of no bytes is not fetched.
  unfoldable pub fetch :
      {Res : Type 0} → Codec (CapResponse Res) → String → ℕ → S → Result CapError Res × S
  fetch codec name n s =
      settle codec name n
        (if eqb n 0 then ((pos 0, []), s) else host.response_read (replicate n 0) s)

  unfoldable pub host_call :
      {Req Res : Type 0}
      → Codec Req
      → Codec (CapResponse Res)
      → String
      → Req
      → S
      → Result CapError Res × S
  host_call sent received name request s = elim (sent.encode request) [
    | err e ↦ (err (invalid (format ("could not encode " ∷ name ∷ " request: " ∷ e ∷ []))), s)
    | ok body ↦
        let (n, t) = host.call (as_bytes name) body s in
        elim n [
          | negsuc k ↦ (err (cap_error "host" (format (name ∷ ": " ∷ reason (negsuc k) ∷ []))), t)
          | pos k ↦ fetch received name k t
        ]
  ]
