-- ===== src/Runtime/Calls/Laws.antt =====
-- The two halves of a capability call: the length that `call` announces, and the response that
-- `response_read` then delivers.
use tds_wasm_ai.Common.{
  ℕ, ◌^◌, ◌<◌, ◌≡◌, refl, sym, ◌∙◌, ap, Bool-cases, Option-cases, inl, inr, ◌||◌, true, some, List,
  [], length, ltb, eqb, arith,
}
use tds_wasm_ai.Common.Int.{pos, as_i32, as_i32-pos}
use tds_wasm_ai.Common.Utf8.{from_utf8}
use tds_wasm_ai.External.{External}
use tds_wasm_ai.Wire.{Wire}
use tds_wasm_ai.Runtime.Memory.{read_guest, write_guest}
use tds_wasm_ai.Runtime.Memory.Laws.{read_guest-write_guest}
use tds_wasm_ai.Runtime.State.{LlmProvider, Store}
use tds_wasm_ai.Runtime.Calls.{response_read, serve, call}

module _ {W : Type 0} where
  -- In a memory of fewer than 2^64 bytes, a pending response that fits where the guest wants it is
  -- delivered: `response_read` of its length answers that length, the guest then reads just the
  -- response there, and nothing is pending any more.
  response_read_delivers :
      (s : Store W) (bytes after : List ℕ) (ptr : ℕ)
      → s.memory ≡ some bytes
      → length bytes < 2 ^ 64
      → write_guest (some bytes) ptr s.host.pending ≡ some after
      → let o = response_read s ptr (length s.host.pending) in
        (o.0 ≡ as_i32 (length s.host.pending))
        × (read_guest o.1.memory ptr (length s.host.pending) ≡ some s.host.pending)
        × (o.1.host.pending ≡ [])
  unfolding response_read
  response_read_delivers s bytes after ptr at short written =
      let same : eqb (length s.host.pending) (length s.host.pending) ≡ true = ground arith in
      let wrote : write_guest s.memory ptr s.host.pending ≡ some after =
        ap (λ m. write_guest m ptr s.host.pending) at ∙ written in
      rw (response_read, same, wrote)
        (refl, (read_guest-write_guest bytes s.host.pending after ptr short written).1, refl)

announced :
    (response : List ℕ) (n : ℕ)
    → as_i32 (length response) ≡ pos n
    → length response < 2 ^ 31
    → length response ≡ n
announced response n h small =
    let e : pos (length response) ≡ pos n = sym (as_i32-pos (length response) small) ∙ h in cc (e)

module _ {V U W : Type 0} (x : External V U W) (wire : Wire V) (llm : LlmProvider V W) where
  -- A call that answers a number that is not negative has a response pending of just that length,
  -- if the response has fewer than 2^31 bytes.
  call-announces :
      (s : Store W) (name_ptr name_len req_ptr req_len n : ℕ)
      → (call x wire llm s name_ptr name_len req_ptr req_len).0 ≡ pos n
      → length (call x wire llm s name_ptr name_len req_ptr req_len).1.host.pending < 2 ^ 31
      → length (call x wire llm s name_ptr name_len req_ptr req_len).1.host.pending ≡ n
  unfolding call serve
  call-announces s name_ptr name_len req_ptr req_len n =
      elim (Bool-cases (ltb s.host.policy.limits.max_request_bytes req_len || ltb 256 name_len)) [
        | inl long ↦ rw (call, long) (announced _ n)
        | inr short ↦ elim (Option-cases (read_guest s.memory name_ptr name_len)) [
          | inl outside ↦ rw (call, short, outside) (λ h small. cc (h))
          | inr (name_bytes, named) ↦ elim (Option-cases (read_guest s.memory req_ptr req_len)) [
            | inl outside ↦ rw (call, short, named, outside) (λ h small. cc (h))
            | inr (request, read) ↦ elim (Option-cases (from_utf8 name_bytes)) [
              | inl garbled ↦ rw (call, short, named, read, serve, garbled) (λ h small. cc (h))
              | inr (name, decoded) ↦ rw (call, short, named, read, serve, decoded) (announced _ n)
            ]
          ]
        ]
      ]
