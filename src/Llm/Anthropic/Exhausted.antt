-- ===== src/Llm/Anthropic/Exhausted.antt =====
-- The retries of the provider on an API that stays busy.
use tds_wasm_ai.Common.{
  ℕ, zero, suc, ◌+◌, ◌≤◌, ltb, some, ◌≡◌, inl, inr, refl, Bool-cases, String, Option, true, false,
  Result, ok, err, arith,
}
use tds_wasm_ai.Abi.Types.{CapError, LlmRequest}
use tds_wasm_ai.Policy.Types.{LlmConfig}
use tds_wasm_ai.Llm.Anthropic.{
  Remote, Answer, wait, is_success, is_retryable, refusal, pause, judge, ask, attempts, complete,
}
use tds_wasm_ai.Llm.Anthropic.Laws.{Enough}

module _ {V W : Type 0} (remote : Remote V W) (config : LlmConfig) (api_key : String) where
  -- A count of the requests that a request raises by one and a pause leaves.
  pub record IsTally (count : W → ℕ) : Type 0 where
    pub post :
        (url key version : String) (beta : Option String) (b : V) (w : W)
        → count (remote.post url key version beta b w).1 ≡ count w + 1
    pub sleep : (ms : ℕ) (w : W) → count (remote.sleep ms w) ≡ count w

  -- An outcome of a request after which it is worth asking again: it was not sent, or the API is busy.
  pub data IsTransient : Result String (Answer V) → Type 0 where
    not_sent : (why : String) → IsTransient (err why)
    busy :
        (r : Answer V)
        → is_success r.status ≡ false
        → is_retryable r.status ≡ true
        → IsTransient (ok r)

  judge_transient :
      (attempt : ℕ) (a : Result String (Answer V))
      → IsTransient a
      → (ms : ℕ) × (e : CapError) × (judge remote config api_key attempt a ≡ wait ms e)
  unfolding judge
  judge_transient attempt a (not_sent why) = (_, _, refl)
  judge_transient attempt a (busy r bad again) =
      (pause attempt r.retry_after, refusal r, rw (judge, bad, again) refl)

  module _ (request : LlmRequest V)
      (transient : (w : W) → IsTransient (ask remote config api_key request w).0) (count : W → ℕ)
      (tally : IsTally count) where
    exhausted :
        (fuel attempt : ℕ) (w : W)
        → Enough remote config api_key fuel attempt
        → (e : CapError) × ((attempts remote config api_key fuel attempt request w).0
            ≡ some (err e))
          × (count (attempts remote config api_key fuel attempt request w).1 + attempt
              ≡ count w + config.max_retries + 1)
    unfolding attempts ask
    exhausted zero attempt w (le, lt) = absurd (omega arith)
    exhausted (suc fuel) attempt w (le, lt) =
        let o = ask remote config api_key request w in
        let (ms, why, e) = judge_transient attempt o.0 (transient w) in
        let asked : count o.1 ≡ count w + 1 = tally.post _ _ _ _ _ w in
        elim (Bool-cases (ltb attempt config.max_retries)) [
          | inr spent ↦
              let last : attempt ≡ config.max_retries = ground arith in
              (
                why,
                rw (attempts, e, spent) refl,
                rw (attempts, e, spent) (omega (arith, asked, last)),
              )
          | inl left ↦
              let small : suc attempt ≤ config.max_retries = ground arith in
              let (f, ended, counted) =
                exhausted fuel (suc attempt) (remote.sleep ms o.1) (small, omega (arith, lt)) in
              (
                f,
                rw (attempts, e, left) ended,
                rw (attempts, e, left) (omega (arith, asked, counted, tally.sleep ms o.1)),
              )
        ]

    -- Where every request is one that is not sent or that the API answers with a status to retry
    -- on, a completion asks the API exactly `max_retries + 1` times, by any tally of the requests,
    -- and ends with an error.
    pub complete_exhausted :
        (w : W)
        → let o = complete remote config api_key request w in
          (e : CapError) × (o.0 ≡ err e) × (count o.1 ≡ count w + config.max_retries + 1)
    unfolding complete
    complete_exhausted w =
        let (e, ended, counted) =
          exhausted (suc config.max_retries) 0 w (omega arith, omega arith) in
        (e, rw (complete, ended) refl, omega (arith, counted))
