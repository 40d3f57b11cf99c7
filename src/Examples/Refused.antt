-- ===== src/Examples/Refused.antt =====
-- A policy that allows only empty requests, and a call with a request of one byte.
use tds_wasm_ai.Common.{◌≡◌, refl, [], ◌∷◌, none, ok, err, arith}
use tds_wasm_ai.Wire.{Codec}
use tds_wasm_ai.Abi.Types.{CapError, CapResponse, LlmResponse, llm_complete}
use tds_wasm_ai.Policy.Types.{Policy, default_policy}
use tds_wasm_ai.Runtime.State.{Store, fresh}
use tds_wasm_ai.Runtime.Dispatch.{respond}
use tds_wasm_ai.Agent.Imports.{host_call}
use tds_wasm_ai.System.Guest.{imports}
use tds_wasm_ai.System.Direct.{quiet, too_large}
use tds_wasm_ai.System.Direct.Refusals.{oversized-eq-err}
use tds_wasm_ai.Examples.Parts.{Value, World, start, ext, wire, model}
use tds_wasm_ai.Examples.Codecs.{request}
use tds_wasm_ai.Examples.Buffers.{layout, layout-IsLayout}

abbrev strict : Policy
strict = record default_policy { limits = record default_policy.limits { max_request_bytes = 0 } }

abbrev begun : Store World
begun = record { memory = none; fuel = 100; host = fresh strict start }

abbrev refusal : CapError
refusal = too_large 1 0

-- The responses that are refusals.
abbrev refusals : Codec (CapResponse (LlmResponse Value))
refusals = record { encode = λ r. err "not needed"; decode = λ bytes. ok (CapResponse.err refusal) }

oversized-eq-err_example :
    let o =
      host_call
        (imports ext wire model layout)
        wire.llm_request
        refusals
        llm_complete
        request
        begun in
    (o.0 ≡ err refusal) × (quiet o.1.host ≡ quiet (record begun.host { pending = [] }))
unfolding fresh respond
oversized-eq-err_example =
    oversized-eq-err ext wire model layout layout-IsLayout wire.llm_request refusals llm_complete
      request (1 ∷ []) begun (omega arith) refl (omega arith) refl (omega arith)
