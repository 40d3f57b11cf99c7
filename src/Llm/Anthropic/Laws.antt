-- ===== src/Llm/Anthropic/Laws.antt =====
-- How often the API is asked and how long the provider waits.
use tds_wasm_ai.Common.{
  ℕ, zero, suc, ◌+◌, ◌≤◌, ◌<◌, min, ltb, some, ◌≡◌, ◌⊎◌, inl, inr, refl, ◌∙◌, Bool-cases, String,
  Option, Result, err, arith,
}
use tds_wasm_ai.Abi.Types.{CapError, LlmRequest, LlmResponse}
use tds_wasm_ai.Policy.Types.{LlmConfig}
use tds_wasm_ai.Llm.Anthropic.{
  Remote, Verdict, final, wait, backoff, judge, ask, attempts, complete,
}

backoff_ceiling : (attempt : ℕ) → 5 ≤ attempt → backoff attempt ≡ 16_000
unfolding backoff
backoff_ceiling attempt h =
    let same : min attempt 5 ≡ 5 = omega (arith, h) in rw (backoff, same) (omega arith)

-- The wait before a retry, in milliseconds, is from one second up to sixteen, and does not shrink
-- from one retry to the next.
backoff_bounds :
    (attempt : ℕ)
    → 1 ≤ attempt
    → (1000 ≤ backoff attempt)
      × (backoff attempt ≤ 16_000)
      × (backoff attempt ≤ backoff (suc attempt))
unfolding backoff
backoff_bounds zero h = ground arith
backoff_bounds (suc zero) h = (omega arith, omega arith, omega arith)
backoff_bounds (suc (suc zero)) h = (omega arith, omega arith, omega arith)
backoff_bounds (suc (suc (suc zero))) h = (omega arith, omega arith, omega arith)
backoff_bounds (suc (suc (suc (suc zero)))) h = (omega arith, omega arith, omega arith)
backoff_bounds (suc (suc (suc (suc (suc n))))) h =
    let here = backoff_ceiling (suc (suc (suc (suc (suc n))))) (omega arith) in
    let after = backoff_ceiling (suc (suc (suc (suc (suc (suc n)))))) (omega arith) in
    (omega (arith, here), omega (arith, here), omega (arith, here, after))

module _ {V W : Type 0} (remote : Remote V W) (config : LlmConfig) (api_key : String) where
  pub verdict :
      (v : Verdict V)
      → ((r : Result CapError (LlmResponse V)) × (v ≡ final r))
        ⊎ ((ms : ℕ) × (e : CapError) × (v ≡ wait ms e))
  verdict (final r) = inl (r, refl)
  verdict (wait ms e) = inr (ms, e, refl)

  -- A count of the requests: one raises it by at most one, and a pause does not raise it.
  pub record IsCount (count : W → ℕ) : Type 0 where
    pub post :
        (url key version : String) (beta : Option String) (b : V) (w : W)
        → count (remote.post url key version beta b w).1 ≤ count w + 1
    pub sleep : (ms : ℕ) (w : W) → count (remote.sleep ms w) ≤ count w

  asked :
      (count : W → ℕ)
      → IsCount count
      → (request : LlmRequest V) (w : W)
      → count (ask remote config api_key request w).1 ≤ count w + 1
  unfolding ask
  asked count c request w = c.post _ _ _ _ _ w

  -- The fuel that does for the loop at its `attempt`th retry.
  abbrev pub Enough : ℕ → ℕ → Type 0
  Enough fuel attempt = (attempt ≤ config.max_retries) × (config.max_retries < fuel + attempt)

  attempts_more :
      (fuel more attempt : ℕ) (request : LlmRequest V) (w : W)
      → Enough fuel attempt
      → Enough more attempt
      → attempts remote config api_key fuel attempt request w
        ≡ attempts remote config api_key more attempt request w
  unfolding attempts
  attempts_more zero more attempt request w (le, lt) _ = absurd (omega arith)
  attempts_more (suc fuel) zero attempt request w _ (le, lt) = absurd (omega arith)
  attempts_more (suc fuel) (suc more) attempt request w (le, lt) (_, lt_more) =
      let o = ask remote config api_key request w in
      elim (verdict (judge remote config api_key attempt o.0)) [
        | inl (r, e) ↦ rw (attempts, e) refl
        | inr (ms, why, e) ↦ elim (Bool-cases (ltb attempt config.max_retries)) [
          | inr spent ↦ rw (attempts, e, spent) refl
          | inl left ↦
              let small : suc attempt ≤ config.max_retries = ground arith in
              rw (attempts, e, left)
                (attempts_more fuel more (suc attempt) request (remote.sleep ms o.1)
                  (small, omega (arith, lt)) (small, omega (arith, lt_more)))
        ]
      ]

  pub attempts_end :
      (fuel attempt : ℕ) (request : LlmRequest V) (w : W)
      → Enough fuel attempt
      → (r : Result CapError (LlmResponse V)) × ((attempts remote config api_key fuel attempt
            request w).0
          ≡ some r)
  unfolding attempts
  attempts_end zero attempt request w (le, lt) = absurd (omega arith)
  attempts_end (suc fuel) attempt request w (le, lt) =
      let o = ask remote config api_key request w in
      elim (verdict (judge remote config api_key attempt o.0)) [
        | inl (r, e) ↦ (r, rw (attempts, e) refl)
        | inr (ms, why, e) ↦ elim (Bool-cases (ltb attempt config.max_retries)) [
          | inr spent ↦ (err why, rw (attempts, e, spent) refl)
          | inl left ↦
              let small : suc attempt ≤ config.max_retries = ground arith in
              rw (attempts, e, left)
                (attempts_end fuel (suc attempt) request (remote.sleep ms o.1)
                  (small, omega (arith, lt)))
        ]
      ]

  -- Whatever the fuel.
  attempts-count :
      (count : W → ℕ)
      → IsCount count
      → (fuel attempt : ℕ) (request : LlmRequest V) (w : W) → attempt ≤ config.max_retries
      → count (attempts remote config api_key fuel attempt request w).1 + attempt
        ≤ count w + config.max_retries + 1
  unfolding attempts
  attempts-count count c zero attempt request w le = omega (arith, le)
  attempts-count count c (suc fuel) attempt request w le =
      let o = ask remote config api_key request w in
      elim (verdict (judge remote config api_key attempt o.0)) [
        | inl (r, e) ↦ rw (attempts, e) (omega (arith, le, asked count c request w))
        | inr (ms, why, e) ↦ elim (Bool-cases (ltb attempt config.max_retries)) [
          | inr spent ↦ rw (attempts, e, spent) (omega (arith, le, asked count c request w))
          | inl left ↦
              let small : suc attempt ≤ config.max_retries = ground arith in
              rw (attempts, e, left)
                (omega (
                  arith,
                  asked count c request w,
                  c.sleep ms o.1,
                  attempts-count count c fuel (suc attempt) request (remote.sleep ms o.1) small,
                ))
        ]
      ]

  -- On any fuel above `max_retries` the loop of the provider ends, and it ends as a completion
  -- does; and a completion asks the API at most `max_retries + 1` times, by any count of the
  -- requests.
  pub complete-count :
      (count : W → ℕ)
      → IsCount count
      → (fuel : ℕ) (request : LlmRequest V) (w : W) → config.max_retries < fuel
      → let o = complete remote config api_key request w in
        (attempts remote config api_key fuel 0 request w ≡ (some o.0, o.1))
        × (count o.1 ≤ count w + config.max_retries + 1)
  unfolding complete
  complete-count count c fuel request w lt =
      let within : Enough (suc config.max_retries) 0 = (omega arith, omega arith) in
      let (r, e) = attempts_end (suc config.max_retries) 0 request w within in
      let bound = attempts-count count c (suc config.max_retries) 0 request w (omega arith) in
      (
        attempts_more fuel (suc config.max_retries) 0 request w (omega arith, omega (arith, lt))
              within
            ∙ rw (complete, e) refl,
        omega (arith, bound),
      )
