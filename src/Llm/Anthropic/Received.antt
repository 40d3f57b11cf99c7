-- ===== src/Llm/Anthropic/Received.antt =====
-- Where a response of the provider comes from.
use tds_wasm_ai.Common.{
  ℕ, zero, suc, ltb, some, ◌≡◌, inl, inr, refl, ◌∙◌, ap, Bool-cases, Result-cases, String, Option,
  [], ◌∷◌, true, Result, ok, err, arith,
}
use tds_wasm_ai.Common.Text.{format}
use tds_wasm_ai.Abi.Types.{CapError, upstream, LlmRequest, LlmResponse}
use tds_wasm_ai.Policy.Types.{LlmConfig}
use tds_wasm_ai.Llm.Anthropic.{
  Remote, Answer, ApiResponse, final, wait, from_api, is_success, is_retryable, refusal, pause,
  judge, ask, attempts, complete,
}
use tds_wasm_ai.Llm.Anthropic.Laws.{verdict, attempts_end}

module _ {V W : Type 0} (remote : Remote V W) (config : LlmConfig) (api_key : String) where
  -- Where a response comes from: an answer with a status of success whose body parsed to it.
  pub record Received (request : LlmRequest V) (v : LlmResponse V) : Type 0 where
    pub world : W
    pub answer : Answer V
    pub parsed : ApiResponse V
    pub answered : (ask remote config api_key request world).0 ≡ ok answer
    pub success : is_success answer.status ≡ true
    pub read : answer.parsed ≡ ok parsed
    pub same : v ≡ from_api parsed

  judge-Received :
      (attempt : ℕ) (request : LlmRequest V) (w : W) (v : LlmResponse V)
      (a : Result String (Answer V))
      → (ask remote config api_key request w).0 ≡ a
      → judge remote config api_key attempt a ≡ final (ok v)
      → Received request v
  unfolding judge
  judge-Received attempt request w v (err e) at h = cc (h)
  judge-Received attempt request w v (ok r) at h = elim (Bool-cases (is_success r.status)) [
    | inr bad ↦ elim (Bool-cases (is_retryable r.status)) [
      | inl again ↦
          let f : judge remote config api_key attempt (ok r)
              ≡ wait (pause attempt r.retry_after) (refusal r) =
            rw (judge, bad, again) refl in
          cc (h, f)
      | inr fatal ↦
          let f : judge remote config api_key attempt (ok r) ≡ final (err (refusal r)) =
            rw (judge, bad, fatal) refl in
          cc (h, f)
    ]
    | inl good ↦ elim (Result-cases r.parsed) [
      | inr (why, e) ↦
          let f : judge remote config api_key attempt (ok r)
              ≡ final (err (upstream (format ("malformed model response: " ∷ why ∷ [])))) =
            rw (judge, good, e) refl in
          cc (h, f)
      | inl (parsed, e) ↦
          let f : judge remote config api_key attempt (ok r) ≡ final (ok (from_api parsed)) =
            rw (judge, good, e) refl in
          record {
            world = w;
            answer = r;
            parsed = parsed;
            answered = at;
            success = good;
            read = e;
            same = cc (h, f);
          }
    ]
  ]

  attempts-Received :
      (fuel attempt : ℕ) (request : LlmRequest V) (w : W) (v : LlmResponse V)
      → (attempts remote config api_key fuel attempt request w).0 ≡ some (ok v)
      → Received request v
  unfolding attempts
  attempts-Received zero attempt request w v h = cc (h)
  attempts-Received (suc fuel) attempt request w v h =
      let o = ask remote config api_key request w in
      elim (verdict remote config api_key (judge remote config api_key attempt o.0)) [
        | inl (r, e) ↦
            let same : ◌≡◌ {A = Option (Result CapError (LlmResponse V))} (some r) (some (ok v)) =
              rw (attempts, e) at h in
            let f : r ≡ ok v = cc (same) in
            judge-Received attempt request w v o.0 refl (e ∙ ap final f)
        | inr (ms, why, e) ↦ elim (Bool-cases (ltb attempt config.max_retries)) [
          | inr spent ↦ cc (rw (attempts, e, spent) at h)
          | inl left ↦
              attempts-Received fuel (suc attempt) request (remote.sleep ms o.1) v
                (rw (attempts, e, left) at h)
        ]
      ]

  -- Whatever is retried, a response that the provider returns is one that the API gave with a
  -- status of success, its body converted.
  complete-Received :
      (request : LlmRequest V) (w : W) (v : LlmResponse V)
      → (complete remote config api_key request w).0 ≡ ok v
      → Received request v
  unfolding complete
  complete-Received request w v h =
      let (r, e) =
        attempts_end remote config api_key (suc config.max_retries) 0 request w
          (omega arith, omega arith) in
      let same : r ≡ ok v = rw (complete, e) at h in
      attempts-Received (suc config.max_retries) 0 request w v (e ∙ ap some same)
