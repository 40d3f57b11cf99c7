-- ===== src/System/Refinement.antt =====
-- A capability call of the agent, through its memory and the pending response, and the host's dispatcher.
use tds_wasm_ai.Common.{
  ℕ, ◌^◌, ◌≤◌, ◌<◌, ◌≡◌, refl, ◌∙◌, ap, true, false, ◌||◌, String, some, List, [], ◌∷◌, length,
  length-replicate, replicate, eqb, ltb, Result, ok, arith,
}
use tds_wasm_ai.Common.Int.{ℤ, pos, as_i32, as_i32-pos, eqb_ℤ}
use tds_wasm_ai.Common.Utf8.{as_bytes, from_utf8}
use tds_wasm_ai.External.{External}
use tds_wasm_ai.Wire.{Codec, Wire}
use tds_wasm_ai.Abi.Types.{CapError, CapResponse, into_result}
use tds_wasm_ai.Runtime.Memory.{read_guest, write_guest}
use tds_wasm_ai.Runtime.Memory.Laws.{replaced}
use tds_wasm_ai.Runtime.State.{LlmProvider, Store, HostState}
use tds_wasm_ai.Runtime.Dispatch.{dispatch}
use tds_wasm_ai.Runtime.Calls.{call, serve, response_read}
use tds_wasm_ai.Agent.Imports.{fetch, settle, host_call}
use tds_wasm_ai.System.Guest.{Layout, IsLayout, guest_call, guest_read, imports}

module _ {W : Type 0} where
  -- The host's state after a call, and after its response was taken.
  abbrev pub answered : List ℕ × HostState W → HostState W
  answered (bytes, h) = record h { pending = bytes }

  abbrev pub emptied : HostState W → HostState W
  emptied h = record h { pending = [] }

  pub delivered :
      (t : Store W) (bytes buf : List ℕ) (ptr : ℕ)
      → t.host.pending ≡ bytes
      → length buf ≡ length bytes
      → read_guest t.memory ptr (length buf) ≡ some buf
      → (after : List ℕ) × (response_read t ptr (length buf)
          ≡ (as_i32 (length bytes), record t { memory = some after; host = emptied t.host }))
        × (read_guest (some after) ptr (length buf) ≡ some bytes)
  unfolding response_read
  delivered t bytes buf ptr pends size holds =
      let (after, wrote, read) = replaced t.memory buf bytes ptr size holds in
      let all : eqb (length t.host.pending) (length buf) ≡ true =
        ground (arith, ap (λ (b : List ℕ). length b) pends) in
      let wrote' : write_guest t.memory ptr t.host.pending ≡ some after =
        ap (λ b. write_guest t.memory ptr b) pends ∙ wrote in
      (
        after,
        rw (response_read, all, wrote')
            (ap (λ n. (as_i32 n, record t { memory = some after; host = emptied t.host })) size),
        ap (λ n. read_guest (some after) ptr n) size ∙ read,
      )

module _ {V U W : Type 0} (x : External V U W) (wire : Wire V) (llm : LlmProvider V W) where
  -- A call whose name and request stand in the guest's memory and are within the limits.
  call-dispatch :
      (s : Store W) (name : String) (body : List ℕ) (name_ptr req_ptr : ℕ)
      → from_utf8 (as_bytes name) ≡ some name
      → length (as_bytes name) ≤ 256
      → length body ≤ s.host.policy.limits.max_request_bytes
      → read_guest s.memory name_ptr (length (as_bytes name)) ≡ some (as_bytes name)
      → read_guest s.memory req_ptr (length body) ≡ some body
      → let d = dispatch x wire llm s.host name body in
        call x wire llm s name_ptr (length (as_bytes name)) req_ptr (length body)
        ≡ (as_i32 (length d.0), record s { host = answered d })
  unfolding call serve
  call-dispatch s name body name_ptr req_ptr decoded short fits named read =
      let within : (ltb s.host.policy.limits.max_request_bytes (length body)
            || ltb 256 (length (as_bytes name)))
          ≡ false =
        ground arith in
      rw (call, within, named, read, serve, decoded) refl

  module _ (layout : Layout W) (faithful : IsLayout layout) where
    guest_call-dispatch :
        (s : Store W) (name : String) (body : List ℕ)
        → from_utf8 (as_bytes name) ≡ some name
        → length (as_bytes name) ≤ 256
        → length body ≤ s.host.policy.limits.max_request_bytes
        → length body < 2 ^ 31
        → let d = dispatch x wire llm s.host name body in
          let o = guest_call x wire llm layout (as_bytes name) body s in
          (o.0 ≡ as_i32 (length d.0)) × (o.1.host ≡ answered d)
    unfolding guest_call
    guest_call-dispatch s name body decoded short fits low =
        let ((name_ptr, req_ptr), t) = layout.two (as_bytes name) body s in
        let same : t.host ≡ s.host = (faithful.two_computes (as_bytes name) body s).host in
        let room : length body ≤ t.host.policy.limits.max_request_bytes =
          omega (arith, fits, ap (λ (h : HostState W). h.policy.limits.max_request_bytes) same) in
        let done =
          call-dispatch t name body name_ptr req_ptr decoded short room
            (faithful.two_hold_first (as_bytes name) body s (omega (arith, short, low)))
            (faithful.two_hold_second (as_bytes name) body s (omega (arith, short, low))) in
        (
          ap (λ (o : ℤ × Store W). o.0) done
              ∙ ap (λ h. as_i32 (length (dispatch x wire llm h name body).0)) same,
          ap (λ (o : ℤ × Store W). o.1.host) done
              ∙ ap (λ h. answered (dispatch x wire llm h name body)) same,
        )

    -- A response that is pending is what a buffer of its length then holds, and nothing is pending.
    guest_read-pending :
        (s : Store W) (bytes buf : List ℕ)
        → s.host.pending ≡ bytes
        → length buf ≡ length bytes
        → length bytes < 2 ^ 31
        → let o = guest_read x wire llm layout buf s in
          (o.0 ≡ (as_i32 (length bytes), bytes)) × (o.1.host ≡ emptied s.host)
    unfolding guest_read
    guest_read-pending s bytes buf waiting size small =
        let (ptr, t) = layout.one buf s in
        let same : t.host ≡ s.host = (faithful.one_computes buf s).host in
        let pends : t.host.pending ≡ bytes = ap (λ (h : HostState W). h.pending) same ∙ waiting in
        let (after, done, holds) =
          delivered t bytes buf ptr pends size
            (faithful.one_holds buf s (omega (arith, size, small))) in
        rw (done, holds) (refl, ap emptied same)

    settle-all :
        {Res : Type 0} (received : Codec (CapResponse Res)) (name : String) (n : ℕ) (bytes : List ℕ)
        (t : Store W) (response : CapResponse Res)
        → received.decode bytes ≡ ok response
        → settle (imports x wire llm layout) received name n ((pos n, bytes), t)
          ≡ (into_result response, t)
    unfolding settle eqb_ℤ
    settle-all received name n bytes t response decoded =
        let all : eqb n n ≡ true = ground arith in rw (settle, all, decoded) refl

    fetch-pending :
        {Res : Type 0} (received : Codec (CapResponse Res)) (name : String) (bytes : List ℕ)
        (s : Store W) (response : CapResponse Res)
        → s.host.pending ≡ bytes
        → received.decode bytes ≡ ok response
        → length bytes < 2 ^ 31
        → let o = fetch (imports x wire llm layout) received name (length bytes) s in
          (o.0 ≡ into_result response) × (o.1.host ≡ emptied s.host)
    unfolding fetch
    fetch-pending received name [] s response waiting decoded small =
        let done = settle-all received name 0 [] s response decoded in
        (
          ap (λ (o : Result CapError _ × Store W). o.0) done,
          ap (λ (o : Result CapError _ × Store W). o.1.host) done
              ∙ ap (λ p. record s.host { pending = p }) waiting,
        )
    fetch-pending received name (b ∷ bytes) s response waiting decoded small =
        let n = length (b ∷ bytes) in
        let o = guest_read x wire llm layout (replicate n 0) s in
        let (got, state) =
          guest_read-pending s (b ∷ bytes) (replicate n 0) waiting (length-replicate n 0) small in
        let some_ : eqb n 0 ≡ false = ground arith in
        let whole : o.0 ≡ (pos n, b ∷ bytes) =
          got ∙ ap (λ k. (k, b ∷ bytes)) (as_i32-pos n small) in
        let done = settle-all received name n (b ∷ bytes) o.1 response decoded in
        rw (fetch, some_, whole, done) (refl, state)

    -- On a layout that keeps its promise: a capability call of the agent whose request is encoded in
    -- fewer than 2^31 bytes and within the limits, and whose response has fewer than 2^31 bytes and is decoded, gives what the
    -- dispatcher gives for that request, and leaves the host in the state in which the dispatcher leaves
    -- it, with nothing pending.
    pub host_call-dispatch :
        {Req Res : Type 0} (sent : Codec Req) (received : Codec (CapResponse Res)) (name : String)
        (request : Req) (body : List ℕ) (s : Store W) (response : CapResponse Res)
        → sent.encode request ≡ ok body
        → from_utf8 (as_bytes name) ≡ some name
        → length (as_bytes name) ≤ 256
        → length body ≤ s.host.policy.limits.max_request_bytes
        → length body < 2 ^ 31
        → received.decode (dispatch x wire llm s.host name body).0 ≡ ok response
        → length (dispatch x wire llm s.host name body).0 < 2 ^ 31
        → let o = host_call (imports x wire llm layout) sent received name request s in
          (o.0 ≡ into_result response)
          × (o.1.host ≡ emptied (dispatch x wire llm s.host name body).1)
    unfolding host_call
    host_call-dispatch sent received name request body s response encoded named short fits low
          decoded small =
        let d = dispatch x wire llm s.host name body in
        let o = guest_call x wire llm layout (as_bytes name) body s in
        let (announced, waits) = guest_call-dispatch s name body named short fits low in
        let count : o.0 ≡ pos (length d.0) = announced ∙ as_i32-pos (length d.0) small in
        let pends : o.1.host.pending ≡ d.0 = ap (λ (h : HostState W). h.pending) waits in
        let (value, state) = fetch-pending received name d.0 o.1 response pends decoded small in
        rw (host_call, encoded, count) (value, state ∙ ap emptied waits)
