-- ===== src/Runtime/Reach/Branches.antt =====
-- What a step of the guest can do to the host's state.
use tds_wasm_ai.Common.{
  ℕ, ◌+◌, ◌%◌, ◌^◌, ◌*◌, ◌≤◌, ◌<◌, ◌≡◌, refl, String, List, [], ◌∷◌, ◌++◌, ◌==◌, ltb, leb, eqb,
  leb→lt, ltb→lt, Bool-cases, Option-cases, Result, ap, inl, inr, length, arith, ok, err, min, ◌||◌,
}
use tds_wasm_ai.Common.Int.{ℤ}
use tds_wasm_ai.Common.Utf8.{from_utf8, from_utf8_lossy}
use tds_wasm_ai.External.{External}
use tds_wasm_ai.Wire.{Wire}
use tds_wasm_ai.Abi.Types.{LlmRequest, ToolInvokeRequest, tools_list, tool_invoke, llm_complete}
use tds_wasm_ai.Tools.Invoke.{invoke}
use tds_wasm_ai.Runtime.Memory.{read_guest, write_guest}
use tds_wasm_ai.Runtime.Memory.Laws.{length-read_guest-le}
use tds_wasm_ai.Runtime.State.{LogLine, LlmProvider, HostState, Store}
use tds_wasm_ai.Runtime.Dispatch.{list_tools, invoke_tool, complete_turn, complete, dispatch}
use tds_wasm_ai.Runtime.Calls.{log, serve, call, response_read}
use tds_wasm_ai.Runtime.Reach.{Step, logged, called, received, computed}

module _ {V U W : Type 0} (x : External V U W) (wire : Wire V) (llm : LlmProvider V W) where
  -- The effects of a step on the host's state, apart from the pending response: nothing, a log line, a
  -- tool call, or a model turn where one is left.
  pub data Change (h k : HostState W) : Type 0 where
    quiet : k ≡ record h { pending = k.pending } → Change h k
    line :
        (l : LogLine) (bytes : List ℕ)
        → length h.logs < 512
        → length bytes ≤ 8192
        → l.message ≡ from_utf8_lossy bytes
        → k ≡ record h { pending = k.pending; logs = h.logs ++ l ∷ [] }
        → Change h k
    tool :
        (name : String) (input : V)
        → k ≡ record h {
          pending = k.pending;
          tools = (invoke x h.tools name input h.world).box;
          world = (invoke x h.tools name input h.world).world;
        }
        → Change h k
    turn :
        (req : LlmRequest V)
        → h.llm_calls < h.policy.limits.max_steps
        → k ≡ record h {
          pending = k.pending;
          llm_calls = (h.llm_calls + 1) % 2 ^ 32;
          world = (llm.complete req h.world).1;
        }
        → Change h k

  invoke_tool-Change :
      (h : HostState W) (parsed : Result String (ToolInvokeRequest V))
      → Change h (invoke_tool x wire llm h parsed).1
  unfolding invoke_tool
  invoke_tool-Change h (ok req) = tool req.name req.input refl
  invoke_tool-Change h (err e) = quiet refl

  complete_turn-Change :
      (h : HostState W) (parsed : Result String (LlmRequest V))
      → h.llm_calls < h.policy.limits.max_steps
      → Change h (complete_turn x wire llm h parsed).1
  unfolding complete_turn
  complete_turn-Change h (ok req) left = turn req left refl
  complete_turn-Change h (err e) left = quiet refl

  complete-Change :
      (h : HostState W) (request : List ℕ) → Change h (complete x wire llm h request).1
  unfolding complete
  complete-Change h request = elim (Bool-cases (leb h.policy.limits.max_steps h.llm_calls)) [
    | inl spent ↦ rw (complete, spent) (quiet refl)
    | inr left ↦
        rw (complete, left)
          (complete_turn-Change h (wire.llm_request.decode request)
            (leb→lt h.policy.limits.max_steps h.llm_calls left))
  ]

  dispatch-Change :
      (h : HostState W) (name : String) (request : List ℕ)
      → Change h (dispatch x wire llm h name request).1
  unfolding dispatch list_tools
  dispatch-Change h name request = elim (Bool-cases (name == tools_list)) [
    | inl lists ↦ rw (dispatch, lists) (quiet refl)
    | inr not_lists ↦ elim (Bool-cases (name == tool_invoke)) [
      | inl invokes ↦
          rw (dispatch, not_lists, invokes)
            (invoke_tool-Change h (wire.tool_invoke_request.decode request))
      | inr not_invokes ↦ elim (Bool-cases (name == llm_complete)) [
        | inl completes ↦
            rw (dispatch, not_lists, not_invokes, completes) (complete-Change h request)
        | inr unknown ↦ rw (dispatch, not_lists, not_invokes, unknown) (quiet refl)
      ]
    ]
  ]

  -- The pending response does not matter to a change.
  pended :
      {h k : HostState W} (bytes : List ℕ) → Change h k → Change h (record k { pending = bytes })
  pended bytes (quiet e) = quiet (ap {A = HostState W} (λ k. record k { pending = bytes }) e)
  pended bytes (line l bs room short text e) =
      line l bs room short text (ap {A = HostState W} (λ k. record k { pending = bytes }) e)
  pended bytes (tool name input e) =
      tool name input (ap {A = HostState W} (λ k. record k { pending = bytes }) e)
  pended bytes (turn req left e) =
      turn req left (ap {A = HostState W} (λ k. record k { pending = bytes }) e)

  log-Change : (s : Store W) (level : ℤ) (ptr len : ℕ) → Change s.host (log s level ptr len).host
  unfolding log
  log-Change s level ptr len = elim (Option-cases (read_guest s.memory ptr (min len (8 * 1024)))) [
    | inl outside ↦ rw (log, outside) (quiet refl)
    | inr (bytes, read) ↦ elim (Bool-cases (ltb (length s.host.logs) 512)) [
      | inl room ↦
          let short : length bytes ≤ 8192 =
            omega (arith, length-read_guest-le s.memory ptr (min len 8192) bytes read) in
          rw (log, read, room) (line _ bytes (ltb→lt (length s.host.logs) 512 room) short refl refl)
      | inr full ↦ rw (log, read, full) (quiet refl)
    ]
  ]

  serve-Change :
      (s : Store W) (name_bytes request : List ℕ)
      → Change s.host (serve x wire llm s name_bytes request).1.host
  unfolding serve
  serve-Change s name_bytes request = elim (Option-cases (from_utf8 name_bytes)) [
    | inl ill_formed ↦ rw (serve, ill_formed) (quiet refl)
    | inr (name, read) ↦ rw (serve, read) (pended _ (dispatch-Change s.host name request))
  ]

  call-Change :
      (s : Store W) (name_ptr name_len req_ptr req_len : ℕ)
      → Change s.host (call x wire llm s name_ptr name_len req_ptr req_len).1.host
  unfolding call
  call-Change s name_ptr name_len req_ptr req_len =
      elim (Bool-cases (ltb s.host.policy.limits.max_request_bytes req_len || ltb 256 name_len)) [
        | inl too_long ↦ rw (call, too_long) (quiet refl)
        | inr fits ↦ elim (Option-cases (read_guest s.memory name_ptr name_len)) [
          | inl outside ↦ rw (call, fits, outside) (quiet refl)
          | inr (name_bytes, read) ↦ elim (Option-cases (read_guest s.memory req_ptr req_len)) [
            | inl outside ↦ rw (call, fits, read, outside) (quiet refl)
            | inr (request, read') ↦
                rw (call, fits, read, read') (serve-Change s name_bytes request)
          ]
        ]
      ]

  received-Change : (s : Store W) (ptr len : ℕ) → Change s.host (response_read s ptr len).1.host
  unfolding response_read
  received-Change s ptr len = elim (Bool-cases (eqb (length s.host.pending) len)) [
    | inr differ ↦ rw (response_read, differ) (quiet refl)
    | inl same ↦ elim (Option-cases (write_guest s.memory ptr s.host.pending)) [
      | inl outside ↦ rw (response_read, same, outside) (quiet refl)
      | inr (memory, written) ↦ rw (response_read, same, written) (quiet refl)
    ]
  ]

  pub Step-Change : {s t : Store W} → Step x wire llm s t → Change s.host t.host
  Step-Change {s} (logged level ptr len e) = rw e (log-Change s level ptr len)
  Step-Change {s} (called a b c d e) = rw e (call-Change s a b c d)
  Step-Change {s} (received ptr len e) = rw e (received-Change s ptr len)
  Step-Change (computed memory fuel less e) = rw e (quiet refl)
