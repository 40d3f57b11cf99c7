-- ===== src/Examples/Agents.antt =====
-- The guest, on a host that answers every call with one byte.
use Prim.Native.String.{len, slice}
use text.Mathlib.Text.{is_char_boundary}
use text.Mathlib.TextBridge.{IsPrefix}
use native.Mathlib.Nat.{le_refl}
use tds_wasm_ai.Common.{
  ℕ, ◌+◌, ◌-◌, ◌^◌, max, ◌<◌, ◌≤◌, ◌≡◌, inl, inr, refl, Bool, Bool-cases, true, false, ◌&&◌, eqb,
  if◌then◌else◌, some, none, List, [], ◌∷◌, filter_map, ok, arith,
}
use tds_wasm_ai.Common.Int.{pos, eqb_ℤ}
use tds_wasm_ai.Common.Text.{format, show}
use tds_wasm_ai.Common.Utf8.{as_bytes, encode_scalar}
use tds_wasm_ai.Abi.Types.{
  AgentInput, LlmRequest, llm_complete, no_usage, into_result, as_tool_use, assistant_message,
  user_message, result_block, add,
}
use tds_wasm_ai.Agent.Imports.{Imports, host_call, fetch, settle}
use tds_wasm_ai.Agent.Truncate.{truncate, truncate_cuts}
use tds_wasm_ai.Agent.Loop.{Progress, again, take_turn, follow, run_tools, run_tool, run_agent}
use tds_wasm_ai.Agent.Loop.Tooling.{Continues, take_turn-Continues}
use tds_wasm_ai.Agent.Loop.Turns.{IsInOrder, run_agent-IsInOrder}
use tds_wasm_ai.Agent.Loop.Calls.{IsCount, run_agent-count}
use tds_wasm_ai.Agent.Exports.{Heap, tds_alloc}
use tds_wasm_ai.Examples.Parts.{Value, fields, json, wire, asks_time}

abbrev same_bytes : List ℕ → List ℕ → Bool
same_bytes [] [] = true
same_bytes (a ∷ l) (b ∷ r) = eqb a b && same_bytes l r
same_bytes _ _ = false

same_bytes-eq : (l r : List ℕ) → same_bytes l r ≡ true → l ≡ r
same_bytes-eq [] [] h = refl
same_bytes-eq (a ∷ l) (b ∷ r) h =
    let head : a ≡ b = ground arith in
    let tail : l ≡ r = same_bytes-eq l r (ground arith) in cc (head, tail)
same_bytes-eq [] (b ∷ r) h = cc (h)
same_bytes-eq (a ∷ l) [] h = cc (h)

-- The state counts the model calls.
abbrev host : Imports ℕ
host = record {
  log = λ level message s. s;
  call = λ name body s. (pos 1, if same_bytes name (as_bytes llm_complete) then s + 1 else s);
  response_read = λ buf s. ((pos 1, 1 ∷ []), s);
}

host-IsCount : IsCount wire host (λ n. n)
host-IsCount = record {
  log = λ level message s. le_refl s;
  fetch = λ buf s. le_refl s;
  call = λ name body s. ground arith;
  other = λ name body s differs. elim (Bool-cases (same_bytes name (as_bytes llm_complete))) [
    | inl same ↦ elim (differs (same_bytes-eq name (as_bytes llm_complete) same)) [ ]
    | inr other ↦ rw other (le_refl s)
  ];
}

abbrev input : AgentInput
input = record { task = "What time is it?"; context = some " "; max_steps = 3 }

run_agent-count_example : (run_agent json wire host input 0).1 ≤ 0 + max 3 1
run_agent-count_example = run_agent-count wire host (λ n. n) host-IsCount json input 0

run_agent-IsInOrder_example : IsInOrder (max 3 1) (run_agent json wire host input 0).0
run_agent-IsInOrder_example = run_agent-IsInOrder wire host json input 0

abbrev first : Progress Value
first = record { messages = []; record_ = []; usage = no_usage }

abbrev request : LlmRequest Value
request = record { system = none; messages = []; tools = [] }

asked : (host_call host wire.llm_request wire.llm_response llm_complete request 0).0 ≡ ok asks_time
unfolding host_call fetch settle into_result as_bytes encode_scalar eqb_ℤ
asked = refl

abbrev second : Progress Value
second = record {
  messages =
      assistant_message asks_time.content
      ∷ user_message (result_block "id1" "noon" false ∷ [])
      ∷ [];
  record_ = record { step = 1; name = "now"; input = fields []; ok = true; result = "noon" } ∷ [];
  usage = no_usage;
}

goes_on : (take_turn wire host [] 1 first 0).0 ≡ again second
unfolding take_turn follow run_tools run_tool host_call fetch settle into_result as_bytes
    encode_scalar eqb_ℤ as_tool_use filter_map truncate add
goes_on = refl

take_turn-Continues_example :
    Continues wire host [] 1 first 0 (take_turn wire host [] 1 first 0).1 second
take_turn-Continues_example = take_turn-Continues wire host [] 1 first 0 second goes_on

truncate_cuts_example :
    (end : ℕ) × (end ≤ 2)
    × (is_char_boundary "aéb" end ≡ true)
    × ((k : ℕ) → end < k → k ≤ 2 → is_char_boundary "aéb" k ≡ false)
    × IsPrefix (slice "aéb" 0 end) "aéb"
    × (truncate "aéb" 2
        ≡ format (slice "aéb" 0 end ∷ "… [" ∷ show (len "aéb" - end) ∷ " bytes truncated]" ∷ []))
truncate_cuts_example = truncate_cuts "aéb" 2 (omega arith)

-- An allocator that hands out the address 8 and copies nothing.
abbrev heap : Heap ℕ
heap = record { alloc = λ n s. (8, s); dealloc = λ ptr len s. s; copy = λ bytes ptr s. s }

alloc_word : (tds_alloc heap 3 0).0 < 2 ^ 32
unfolding tds_alloc
alloc_word = omega arith
