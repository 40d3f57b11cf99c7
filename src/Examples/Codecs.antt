-- ===== src/Examples/Codecs.antt =====
-- Encodings of one value each, which a test recognises.
use tds_wasm_ai.Common.{
  ◌≡◌, refl, ap, ◌∙◌, Bool, true, false, ◌&&◌, String, Option, none, some, List, [], ◌∷◌, eqb, ◌==◌,
  eq_iff, if◌then◌else◌, ok, err, Bool-cases, inl, inr, and-eq-true, arith,
}
use tds_wasm_ai.Wire.{Codec, RoundTrips}
use tds_wasm_ai.Abi.Types.{
  CapResponse, Usage, ToolInvokeRequest, ToolInvokeResponse, LlmRequest, LlmResponse, no_usage,
}
use tds_wasm_ai.Examples.Parts.{Value, fields}

-- An encoding of one value, which a test recognises.
abbrev pub only : {A : Type 0} → A → (A → Bool) → Codec A
only a is = record {
  encode = λ b. if is b then ok (1 ∷ []) else err "no encoding";
  decode = λ _. ok a;
}

pub only-RoundTrips :
    {A : Type 0} (a : A) (is : A → Bool) → ((b : A) → is b ≡ true → b ≡ a) → RoundTrips (only a is)
only-RoundTrips a is exact = record {
  decode-encode = λ b bytes h. elim (Bool-cases (is b)) [
    | inl good ↦ rw (exact b good) refl
    | inr bad ↦ cc (rw bad at h)
  ];
}

abbrev pub nil : {A : Type 0} → List A → Bool
nil [] = true
nil (a ∷ more) = false

abbrev pub request : LlmRequest Value
request = record { system = none; messages = []; tools = [] }

abbrev pub absent : Option String → Bool
absent none = true
absent (some s) = false

pub absent-eq : (o : Option String) → absent o ≡ true → o ≡ none
absent-eq none h = refl
absent-eq (some s) h = cc (h)

pub nil-eq : {A : Type 0} (l : List A) → nil l ≡ true → l ≡ []
nil-eq [] h = refl
nil-eq (a ∷ l) h = cc (h)

abbrev pub is_request : LlmRequest Value → Bool
is_request r = absent r.system && (nil r.messages && nil r.tools)

pub is_request-eq : (r : LlmRequest Value) → is_request r ≡ true → r ≡ request
is_request-eq r h =
    let (no_system, rest) = and-eq-true (absent r.system) (nil r.messages && nil r.tools) h in
    let (no_messages, no_tools) = and-eq-true (nil r.messages) (nil r.tools) rest in
    ap (λ o. record r { system = o }) (absent-eq r.system no_system)
    ∙ ap (λ m. record request { messages = m; tools = r.tools }) (nil-eq r.messages no_messages)
    ∙ ap (λ t. record request { tools = t }) (nil-eq r.tools no_tools)

abbrev pub response : LlmResponse Value
response = record { stop_reason = "end_turn"; content = []; usage = no_usage }

abbrev pub unused : Usage → Bool
unused u = eqb u.input_tokens 0 && eqb u.output_tokens 0

pub unused-eq : (u : Usage) → unused u ≡ true → u ≡ no_usage
unused-eq u h =
    let (no_input, no_output) = and-eq-true (eqb u.input_tokens 0) (eqb u.output_tokens 0) h in
    let input : u.input_tokens ≡ 0 = ground arith in
    let output : u.output_tokens ≡ 0 = ground arith in
    ap (λ n. record u { input_tokens = n }) input
    ∙ ap (λ n. record no_usage { output_tokens = n }) output

abbrev pub is_response : CapResponse (LlmResponse Value) → Bool
is_response (CapResponse.ok r) = r.stop_reason == "end_turn" && (nil r.content && unused r.usage)
is_response (CapResponse.err e) = false

pub is_response-eq :
    (r : CapResponse (LlmResponse Value)) → is_response r ≡ true → r ≡ CapResponse.ok response
is_response-eq (CapResponse.ok r) h =
    let (ended, rest) =
      and-eq-true (r.stop_reason == "end_turn") (nil r.content && unused r.usage) h in
    let (no_content, no_tokens) = and-eq-true (nil r.content) (unused r.usage) rest in
    ap (λ t. CapResponse.ok (record r { stop_reason = t }))
      ((eq_iff r.stop_reason "end_turn").0 ended)
    ∙ ap (λ c. CapResponse.ok (record response { content = c; usage = r.usage }))
        (nil-eq r.content no_content)
    ∙ ap (λ u. CapResponse.ok (record response { usage = u })) (unused-eq r.usage no_tokens)
is_response-eq (CapResponse.err e) h = cc (h)

abbrev no_fields : Value → Bool
no_fields (Value.text t) = false
no_fields (fields es) = nil es

no_fields-eq : (v : Value) → no_fields v ≡ true → v ≡ fields []
no_fields-eq (Value.text t) h = cc (h)
no_fields-eq (fields es) h = ap fields (nil-eq es h)

abbrev pub asks : ToolInvokeRequest Value
asks = record { name = "now"; input = fields [] }

abbrev pub is_asks : ToolInvokeRequest Value → Bool
is_asks r = r.name == "now" && no_fields r.input

pub is_asks-eq : (r : ToolInvokeRequest Value) → is_asks r ≡ true → r ≡ asks
is_asks-eq r h =
    let (named, empty) = and-eq-true (r.name == "now") (no_fields r.input) h in
    ap (λ n. record r { name = n }) ((eq_iff r.name "now").0 named)
    ∙ ap (λ v. record asks { input = v }) (no_fields-eq r.input empty)

abbrev pub told : CapResponse ToolInvokeResponse
told = CapResponse.ok (record { content = "2026-01-01T00:00:00Z" })

abbrev pub is_told : CapResponse ToolInvokeResponse → Bool
is_told (CapResponse.ok r) = r.content == "2026-01-01T00:00:00Z"
is_told (CapResponse.err e) = false

pub is_told-eq : (r : CapResponse ToolInvokeResponse) → is_told r ≡ true → r ≡ told
is_told-eq (CapResponse.ok r) h =
    ap (λ c. CapResponse.ok (record r { content = c }))
      ((eq_iff r.content "2026-01-01T00:00:00Z").0 h)
is_told-eq (CapResponse.err e) h = cc (h)
