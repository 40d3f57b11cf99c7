-- ===== src/System/Direct.antt =====
-- A host that the agent calls without a memory: `dispatch` and the answers of `call` to what it does not
-- dispatch (crates/tds-host/src/runtime.rs), on the host's state alone. The log is not kept.
pub mod Quiet
pub mod Answers
pub mod Runs
pub mod Refusals
use tds_wasm_ai.Common.{ℕ, ◌||◌, none, some, List, [], ◌∷◌, length, eqb, ltb, if◌then◌else◌, err}
use tds_wasm_ai.Common.Int.{ℤ, as_i32}
use tds_wasm_ai.Common.Text.{format, show}
use tds_wasm_ai.Common.Utf8.{from_utf8}
use tds_wasm_ai.External.{External}
use tds_wasm_ai.Wire.{Wire}
use tds_wasm_ai.Abi.Types.{CapError, bad_request, invalid}
use tds_wasm_ai.Runtime.State.{LlmProvider, HostState}
use tds_wasm_ai.Runtime.Dispatch.{respond, dispatch}
use tds_wasm_ai.Agent.Imports.{Imports}

abbrev pub too_large : ℕ → ℕ → CapError
too_large size limit = invalid (
    format (
      "capability request of "
      ∷ show size
      ∷ " bytes exceeds the "
      ∷ show limit
      ∷ " byte limit"
      ∷ []))

module _ {W : Type 0} where
  -- The state of a host, its log lines aside.
  abbrev pub quiet : HostState W → HostState W
  quiet h = record h { logs = [] }

  -- An answer is announced by its length and waits to be fetched.
  unfoldable pub announce : List ℕ × HostState W → ℤ × HostState W
  announce (bytes, h) = (as_i32 (length bytes), record h { pending = bytes })

  unfoldable pub direct_read : List ℕ → HostState W → (ℤ × List ℕ) × HostState W
  direct_read buf h =
      if eqb (length h.pending) (length buf)
      then ((as_i32 (length buf), h.pending), record h { pending = [] })
      else ((bad_request, buf), h)

module _ {V U W : Type 0} (x : External V U W) (wire : Wire V) (llm : LlmProvider V W) where
  unfoldable pub direct_call : List ℕ → List ℕ → HostState W → ℤ × HostState W
  direct_call name_bytes body h =
      let max = h.policy.limits.max_request_bytes in
      if ltb max (length body) || ltb 256 (length name_bytes)
      then announce (respond wire wire.unit_response (err (too_large (length body) max)), h)
      else elim (from_utf8 name_bytes) [
        | none ↦ (bad_request, h)
        | some name ↦ announce (dispatch x wire llm h name body)
      ]

  abbrev pub direct : Imports (HostState W)
  direct = record { log = λ level message h. h; call = direct_call; response_read = direct_read }
