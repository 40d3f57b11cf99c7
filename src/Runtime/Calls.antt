-- ===== src/Runtime/Calls.antt =====
-- crates/tds-host/src/runtime.rs, `respond`, `dispatch` and the three host functions `log`, `call` and
-- `response_read`.
pub mod Laws
use tds_wasm_ai.Common.{
  ℕ, ◌*◌, ◌||◌, none, some, List, [], ◌∷◌, ◌++◌, if◌then◌else◌, ltb, eqb, min, length, err,
}
use tds_wasm_ai.Common.Int.{ℤ, as_i32}
use tds_wasm_ai.Common.Text.{format, show}
use tds_wasm_ai.Common.Utf8.{from_utf8, from_utf8_lossy}
use tds_wasm_ai.External.{External}
use tds_wasm_ai.Wire.{Wire}
use tds_wasm_ai.Abi.Types.{bad_pointer, bad_request, from_i32, as_str, invalid}
use tds_wasm_ai.Runtime.Memory.{read_guest, write_guest}
use tds_wasm_ai.Runtime.State.{LogLine, LlmProvider, HostState, Store}
use tds_wasm_ai.Runtime.Dispatch.{respond, dispatch}

abbrev pub set_host : {W : Type 0} → Store W → HostState W → Store W
set_host s host = record s { host = host }

module _ {W : Type 0} where
  -- The `log` function: a line of at most 8 KiB, kept while there are fewer than 512.
  unfoldable pub log : Store W → ℤ → ℕ → ℕ → Store W
  log s level ptr len = elim (read_guest s.memory ptr (min len (8 * 1024))) [
    | none ↦ s
    | some bytes ↦
        let line : LogLine = record {
          level = as_str (from_i32 level);
          message = from_utf8_lossy bytes;
        } in
        if ltb (length s.host.logs) 512
        then set_host s (record (s.host) { logs = s.host.logs ++ line ∷ [] })
        else s
  ]

  -- The `response_read` function. A pending response of another length stays pending.
  unfoldable pub response_read : Store W → ℕ → ℕ → ℤ × Store W
  response_read s ptr len =
      if eqb (length s.host.pending) len
      then elim (write_guest s.memory ptr s.host.pending) [
        | some memory ↦
            (as_i32 len, record s { memory = some memory; host = record (s.host) { pending = [] } })
        | none ↦ (bad_pointer, set_host s (record (s.host) { pending = [] }))
      ]
      else (bad_request, s)

abbrev pub answer : {W : Type 0} → Store W → HostState W → List ℕ → ℤ × Store W
answer s host response = (as_i32 (length response), set_host s (record host { pending = response }))

module _ {V U W : Type 0} (x : External V U W) (wire : Wire V) (llm : LlmProvider V W) where
  -- A call whose name and request have been read from guest memory.
  unfoldable pub serve : Store W → List ℕ → List ℕ → ℤ × Store W
  serve s name_bytes request = elim (from_utf8 name_bytes) [
    | none ↦ (bad_request, s)
    | some name ↦
        let (response, host) = dispatch x wire llm s.host name request in answer s host response
  ]

  -- The `call` function.
  unfoldable pub call : Store W → ℕ → ℕ → ℕ → ℕ → ℤ × Store W
  call s name_ptr name_len req_ptr req_len =
      let max = s.host.policy.limits.max_request_bytes in
      if ltb max req_len || ltb 256 name_len
      then answer s s.host (
          respond wire wire.unit_response (
            err (
              invalid (
                format (
                  "capability request of "
                  ∷ show req_len
                  ∷ " bytes exceeds the "
                  ∷ show max
                  ∷ " byte limit"
                  ∷ [])))))
      else elim (read_guest s.memory name_ptr name_len) [
        | none ↦ (bad_pointer, s)
        | some name_bytes ↦ elim (read_guest s.memory req_ptr req_len) [
          | none ↦ (bad_pointer, s)
          | some request ↦ serve s name_bytes request
        ]
      ]
