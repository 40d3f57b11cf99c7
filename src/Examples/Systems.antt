-- ===== src/Examples/Systems.antt =====
-- The agent on a host, with buffers at the start of memory.
use tds_wasm_ai.Common.{
  ℕ, ◌+◌, ◌^◌, ◌<◌, ◌≡◌, refl, sym, none, some, List, [], ◌∷◌, ◌++◌, length, length-append, ok,
  arith,
}
use native.Mathlib.Nat.{le_refl}
use tds_wasm_ai.Wire.{Wire}
use tds_wasm_ai.Abi.Types.{CapResponse, AgentInput, tool_invoke, llm_complete}
use tds_wasm_ai.Tools.Invoke.{invoke, run_now, now_rfc3339, is_enabled}
use tds_wasm_ai.Agent.Imports.{host_call}
use tds_wasm_ai.Runtime.Memory.{read_guest}
use tds_wasm_ai.Runtime.Memory.Laws.{read_guest_iff, take-append, drop-append}
use tds_wasm_ai.Runtime.State.{LlmProvider, Store, fresh}
use tds_wasm_ai.Runtime.Reach.Turns.{IsCount}
use tds_wasm_ai.System.Guest.{Layout, IsLayout, imports}
use tds_wasm_ai.System.Promises.{Fulfils, promise_complete, promise_invoke}
use tds_wasm_ai.System.Capabilities.{complete-refines, invoke-refines}
use tds_wasm_ai.Examples.Parts.{Value, World, start, ext, wire, model, open_policy}
use tds_wasm_ai.Examples.Codecs.{
  only, only-RoundTrips, request, is_request, is_request-eq, response, is_response, is_response-eq,
  asks, is_asks, is_asks-eq, told, is_told, is_told-eq,
}

-- One byte follows the buffers.
abbrev layout : Layout World
layout = record {
  one = λ buf s. (0, record s { memory = some (buf ++ 0 ∷ []) });
  two = λ a b s. ((0, length a), record s { memory = some (a ++ (b ++ 0 ∷ [])) });
}

reads_first :
    (a rest : List ℕ)
    → length a + length rest < 2 ^ 33
    → read_guest (some (a ++ rest)) 0 (length a) ≡ some a
reads_first a rest small =
    (read_guest_iff (a ++ rest) 0 (length a) a (omega (arith, length-append a rest, small))).1
      (omega (arith, length-append a rest), sym (take-append a rest))

reads_second :
    (a b : List ℕ)
    → length a + length b < 2 ^ 32
    → read_guest (some (a ++ (b ++ 0 ∷ []))) (length a) (length b) ≡ some b
reads_second a b small =
    let rest = b ++ 0 ∷ [] in
    let long : length rest ≡ length b + 1 = length-append b (0 ∷ []) in
    (read_guest_iff (a ++ rest) (length a) (length b) b
        (omega (arith, length-append a rest, long, small))).1
      (
        omega (arith, length-append a rest, long),
        rw (drop-append a rest) (sym (take-append b (0 ∷ []))),
      )

layout-IsLayout : IsLayout layout
layout-IsLayout = record {
  one_computes = λ buf s. record { host = refl; fuel = le_refl s.fuel };
  one_holds = λ buf s small. reads_first buf (0 ∷ []) (omega (arith, small));
  two_computes = λ a b s. record { host = refl; fuel = le_refl s.fuel };
  two_hold_first =
      λ a b s small. reads_first a (b ++ 0 ∷ []) (omega (arith, length-append b (0 ∷ []), small));
  two_hold_second = λ a b s small. reads_second a b small;
}

abbrev lossless : Wire Value
lossless = record wire {
  llm_request = only request is_request;
  llm_response = only (CapResponse.ok response) is_response;
  tool_invoke_request = only asks is_asks;
  tool_invoke_response = only told is_told;
}

-- A provider that ends the conversation and counts the completions.
abbrev ends : LlmProvider Value World
ends = record { complete = λ _ w. (ok response, (w.0, w.1 + 1)); describe = "model" }

abbrev begun : Store World
begun = record { memory = none; fuel = 100; host = fresh open_policy start }

complete-refines_example :
    Fulfils ext lossless ends
      (host_call
        (imports ext lossless ends layout)
        lossless.llm_request
        lossless.llm_response
        llm_complete
        request
        begun)
      (promise_complete ext ends begun.host request)
unfolding fresh promise_complete
complete-refines_example =
    complete-refines ext lossless ends layout layout-IsLayout begun request (1 ∷ []) (1 ∷ [])
      (only-RoundTrips request is_request is_request-eq)
      (only-RoundTrips (CapResponse.ok response) is_response is_response-eq) refl (omega arith)
      (omega arith) refl (omega arith) (omega arith)

invoke-refines_example :
    Fulfils ext lossless ends
      (host_call
        (imports ext lossless ends layout)
        lossless.tool_invoke_request
        lossless.tool_invoke_response
        tool_invoke
        asks
        begun)
      (promise_invoke ext ends begun.host asks)
unfolding fresh promise_invoke invoke run_now now_rfc3339 is_enabled
invoke-refines_example =
    invoke-refines ext lossless ends layout layout-IsLayout begun asks (1 ∷ []) (1 ∷ [])
      (only-RoundTrips asks is_asks is_asks-eq) (only-RoundTrips told is_told is_told-eq) refl
      (omega arith) (omega arith) refl (omega arith)

abbrev task : AgentInput
task = record { task = "What time is it?"; context = none; max_steps = 30 }

counts : IsCount ext wire model (λ w. w.1)
counts = record { clock = λ w. le_refl w.1; send = λ u w. le_refl w.1; complete = λ r w. le_refl _ }
