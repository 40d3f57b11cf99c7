-- ===== src/System/Guest.antt =====
-- The three imports of the guest as the three functions of the host, on the store of a run. Where the
-- guest's compiler keeps a buffer in linear memory is a parameter.
use tds_wasm_ai.Common.{ℕ, ◌+◌, ◌^◌, ◌<◌, ◌≤◌, ◌≡◌, Option, none, some, List, length}
use tds_wasm_ai.Common.Int.{ℤ}
use tds_wasm_ai.External.{External}
use tds_wasm_ai.Wire.{Wire}
use tds_wasm_ai.Runtime.Memory.{read_guest}
use tds_wasm_ai.Runtime.State.{LlmProvider, Store}
use tds_wasm_ai.Runtime.Calls
use tds_wasm_ai.Agent.Imports.{Imports}

-- Where buffers stand: one for a log line or for a response, two for the name and the body of a call.
pub record Layout (W : Type 0) : Type 0 where
  pub one : List ℕ → Store W → ℕ × Store W
  pub two : List ℕ → List ℕ → Store W → (ℕ × ℕ) × Store W

-- A step of the guest's own: its memory changes and fuel is burned.
pub record Computes {W : Type 0} (s t : Store W) : Type 0 where
  pub host : t.host ≡ s.host
  pub fuel : t.fuel ≤ s.fuel

-- What a compiler promises of its buffers: those that fit in the guest's address space hold what was
-- written, and nothing but the guest's own state changed.
pub record IsLayout {W : Type 0} (layout : Layout W) : Type 0 where
  pub one_computes : (buf : List ℕ) (s : Store W) → Computes s (layout.one buf s).1
  pub one_holds :
      (buf : List ℕ) (s : Store W)
      → length buf < 2 ^ 31
      → read_guest (layout.one buf s).1.memory (layout.one buf s).0 (length buf) ≡ some buf
  pub two_computes : (a b : List ℕ) (s : Store W) → Computes s (layout.two a b s).1
  pub two_hold_first :
      (a b : List ℕ) (s : Store W)
      → length a + length b < 2 ^ 32
      → read_guest (layout.two a b s).1.memory (layout.two a b s).0.0 (length a) ≡ some a
  pub two_hold_second :
      (a b : List ℕ) (s : Store W)
      → length a + length b < 2 ^ 32
      → read_guest (layout.two a b s).1.memory (layout.two a b s).0.1 (length b) ≡ some b

abbrev or_buffer : Option (List ℕ) → List ℕ → List ℕ
or_buffer none buf = buf
or_buffer (some bytes) buf = bytes

module _ {V U W : Type 0} (x : External V U W) (wire : Wire V) (llm : LlmProvider V W)
    (layout : Layout W) where
  unfoldable pub guest_log : ℤ → List ℕ → Store W → Store W
  guest_log level message s =
      let (ptr, t) = layout.one message s in Calls.log t level ptr (length message)

  unfoldable pub guest_call : List ℕ → List ℕ → Store W → ℤ × Store W
  guest_call name body s =
      let ((name_ptr, req_ptr), t) = layout.two name body s in
      Calls.call x wire llm t name_ptr (length name) req_ptr (length body)

  -- The buffer is read back after the host wrote to it.
  unfoldable pub guest_read : List ℕ → Store W → (ℤ × List ℕ) × Store W
  guest_read buf s =
      let (ptr, t) = layout.one buf s in
      let (n, u) = Calls.response_read t ptr (length buf) in
      ((n, or_buffer (read_guest u.memory ptr (length buf)) buf), u)

  abbrev pub imports : Imports (Store W)
  imports = record { log = guest_log; call = guest_call; response_read = guest_read }
