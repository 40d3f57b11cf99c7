-- ===== src/Examples/Denied.antt =====
-- A policy that enables no tool, and a model that asks for the time.
use tds_wasm_ai.Common.{
  ◌≡◌, ◌⊎◌, refl, ap, ◌∙◌, Bool, true, false, ◌&&◌, ◌==◌, eq_iff, and-eq-true, filter_map, [], ◌∷◌,
  none, arith,
}
use tds_wasm_ai.Common.Text.{format}
use tds_wasm_ai.Wire.{Wire}
use tds_wasm_ai.Abi.Types.{CapError, CapResponse, ToolInvokeResponse, denied, display, result_block}
use tds_wasm_ai.Policy.Types.{Policy, default_policy}
use tds_wasm_ai.Tools.Invoke.{invoke, is_enabled}
use tds_wasm_ai.Tools.Specs.{specs}
use tds_wasm_ai.Runtime.State.{Store, fresh}
use tds_wasm_ai.Agent.Loop.{run_tool}
use tds_wasm_ai.Agent.Truncate.{truncate}
use tds_wasm_ai.System.Guest.{imports}
use tds_wasm_ai.System.Promises.{promise_invoke}
use tds_wasm_ai.System.Denials.{run_tool_unlisted}
use tds_wasm_ai.Examples.Parts.{Value, fields, World, start, ext, wire, model}
use tds_wasm_ai.Examples.Codecs.{only, only-RoundTrips, asks, is_asks, is_asks-eq}
use tds_wasm_ai.Examples.Buffers.{layout, layout-IsLayout}

abbrev closed : Policy
closed = record default_policy { tools = record default_policy.tools { enabled = [] } }

abbrev begun : Store World
begun = record { memory = none; fuel = 100; host = fresh closed start }

abbrev refusal : CapError
refusal = denied (format ("tool " ∷ "now" ∷ " is not enabled by this host's policy" ∷ []))

abbrev is_refusal : CapResponse ToolInvokeResponse → Bool
is_refusal (CapResponse.ok r) = false
is_refusal (CapResponse.err e) = (e.kind == refusal.kind) && (e.message == refusal.message)

is_refusal-eq :
    (r : CapResponse ToolInvokeResponse) → is_refusal r ≡ true → r ≡ CapResponse.err refusal
is_refusal-eq (CapResponse.ok r) h = cc (h)
is_refusal-eq (CapResponse.err e) h =
    let (kind, message) = and-eq-true (e.kind == refusal.kind) (e.message == refusal.message) h in
    ap (λ k. CapResponse.err (record { kind = k; message = e.message }))
      ((eq_iff e.kind refusal.kind).0 kind)
    ∙ ap (λ m. CapResponse.err (record { kind = refusal.kind; message = m }))
        ((eq_iff e.message refusal.message).0 message)

abbrev closing : Wire Value
closing = record wire {
  tool_invoke_request = only asks is_asks;
  tool_invoke_response = only (CapResponse.err refusal) is_refusal;
}

run_tool_unlisted_example :
    let o = run_tool closing (imports ext closing model layout) 1 "id1" "now" (fields []) begun in
    (e : CapError) × ((e.kind ≡ "denied") ⊎ (e.kind ≡ "not_found"))
    × (o.0 ≡ (
      record {
        step = 1;
        name = "now";
        input = fields [];
        ok = false;
        result = truncate (display e) 512;
      },
      result_block "id1" (display e) true,
    ))
    × (o.1.host.tools ≡ begun.host.tools)
    × (o.1.host.world ≡ start)
unfolding fresh promise_invoke invoke is_enabled specs format filter_map
run_tool_unlisted_example =
    run_tool_unlisted ext closing model layout layout-IsLayout 1 "id1" "now" (fields []) begun
      (1 ∷ []) (1 ∷ []) (only-RoundTrips asks is_asks is_asks-eq)
      (only-RoundTrips (CapResponse.err refusal) is_refusal is_refusal-eq) (λ m. elim m [ ]) refl
      (omega arith) (omega arith) refl (omega arith)
