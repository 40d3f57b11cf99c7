-- ===== src/Runtime/New/Laws.antt =====
-- What `Runtime::new` and `Runtime::from_files` guarantee.
use tds_wasm_ai.Common.{
  ℕ, ◌≡◌, refl, sym, ap, ◌∙◌, ◌↔◌, String, List, Memᴰ, All, Result, ok, map_err, >>=-eq-ok,
  map_err-eq-ok,
}
use tds_wasm_ai.Wire.{Codec}
use tds_wasm_ai.Llm.Build.{Machine, build}
use tds_wasm_ai.Llm.Anthropic.{Remote}
use tds_wasm_ai.Policy.Types.{Policy}
use tds_wasm_ai.Policy.Validation.{IsAcceptable, validate, validate_iff}
use tds_wasm_ai.Runtime.State.{LlmProvider}
use tds_wasm_ai.Runtime.Exec.{Failure, failure, in_context}
use tds_wasm_ai.Runtime.Module.{
  IsProvided, required_exports, verify_module_shape, verify_module_shape_iff,
}
use tds_wasm_ai.Runtime.Ticker.{spawned}
use tds_wasm_ai.Runtime.New.{config, Wasmtime, Runtime, new, from_files}

module _ {V W E M : Type 0} (debug : String → String) (wasmtime : Wasmtime E M) where
  abbrev runtime : E → M → Policy → LlmProvider V W → Runtime V W E M
  runtime engine module_ policy llm = record {
    engine = engine;
    module_ = module_;
    policy = policy;
    llm = llm;
    ticker = spawned (wasmtime.epoch engine);
  }

  -- What every runtime keeps: its policy is acceptable, its engine counts fuel and can be interrupted,
  -- its module was compiled by it and has the shape of an agent.
  pub record IsGuarded (r : Runtime V W E M) : Type 0 where
    pub policy : IsAcceptable r.policy
    pub engine : wasmtime.new_engine config ≡ ok r.engine
    pub imports : All IsProvided (wasmtime.shape r.module_).imports
    pub exports : All (λ name. Memᴰ name (wasmtime.shape r.module_).exports) required_exports
    pub ticker : r.ticker ≡ spawned (wasmtime.epoch r.engine)

  -- A runtime is made exactly if the policy is acceptable, the engine that counts fuel and can be
  -- interrupted is made, the module compiles and has the shape of an agent, and the ticker is
  -- spawned. It holds that policy, that provider, that engine and module, and a ticker at its
  -- start.
  pub new_iff :
      (policy : Policy) (wasm : List ℕ) (llm : LlmProvider V W) (r : Runtime V W E M)
      → (new debug wasmtime policy wasm llm ≡ ok r) ↔ (
          IsGuarded r
          × (r.policy ≡ policy)
          × (r.llm ≡ llm)
          × (wasmtime.new_module r.engine wasm ≡ ok r.module_)
          × (wasmtime.spawn ≡ ok tt))
  unfolding new
  new_iff policy wasm llm r = (
    (λ h.
        let (u, valid, h1) = >>=-eq-ok (map_err failure (validate debug policy)) _ h in
        let (engine, made, h2) = >>=-eq-ok (in_context _ (wasmtime.new_engine config)) _ h1 in
        let (m, compiled, h3) = >>=-eq-ok (in_context _ (wasmtime.new_module engine wasm)) _ h2 in
        let (v, verified, h4) =
          >>=-eq-ok (map_err failure (verify_module_shape debug (wasmtime.shape m))) _ h3 in
        let (w, ticks, built) = >>=-eq-ok (in_context _ wasmtime.spawn) _ h4 in
        let shape =
          (verify_module_shape_iff debug (wasmtime.shape m)).0 (map_err-eq-ok _ _ _ verified) in
        let same : runtime engine m policy llm ≡ r = cc (built) in
        rw (← same) (
          record {
            policy = (validate_iff debug policy).0 (map_err-eq-ok _ _ _ valid);
            engine = map_err-eq-ok _ _ _ made;
            imports = shape.0;
            exports = shape.1;
            ticker = refl;
          },
          refl,
          refl,
          map_err-eq-ok _ _ _ compiled,
          map_err-eq-ok _ _ _ ticks,
        )),
    λ h.
        let (g, kept, served, compiled, ticks) = h in
        let valid : validate debug policy ≡ ok tt =
          (validate_iff debug policy).1 (rw (← kept) g.policy) in
        let verified =
          (verify_module_shape_iff debug (wasmtime.shape r.module_)).1 (g.imports, g.exports) in
        rw (new, valid, g.engine, compiled, verified, ticks)
          (ap (λ t. ok (record r { policy = policy; llm = llm; ticker = t })) (sym g.ticker)
            ∙ ap (λ p. ok (record r { policy = p; llm = llm })) (sym kept)
            ∙ ap (λ l. ok (record r { llm = l })) (sym served)),
  )

  -- The provider plays no part in whether a runtime is made.
  pub new-provider :
      (policy : Policy) (wasm : List ℕ) (llm other : LlmProvider V W) (r : Runtime V W E M)
      → new debug wasmtime policy wasm llm ≡ ok r
      → new debug wasmtime policy wasm other ≡ ok (record r { llm = other })
  new-provider policy wasm llm other r h =
      let (g, kept, served, compiled, ticks) = (new_iff policy wasm llm r).0 h in
      (new_iff policy wasm other (record r { llm = other })).1 (
        record {
          policy = g.policy;
          engine = g.engine;
          imports = g.imports;
          exports = g.exports;
          ticker = g.ticker;
        },
        kept,
        refl,
        compiled,
        ticks,
      )

  -- A runtime from files is guarded, and its provider is the one that the policy names.
  pub from_files-eq-ok :
      (read : String → Result Failure (List ℕ)) (machine : Machine) (remote : Remote V W)
      (value : Codec V) (policy : Policy) (path : String) (r : Runtime V W E M)
      → from_files debug wasmtime read machine remote value policy path ≡ ok r
      → IsGuarded r × (r.policy ≡ policy) × (build machine remote value policy.llm ≡ ok r.llm)
  unfolding from_files
  from_files-eq-ok read machine remote value policy path r h =
      let (wasm, found, h1) = >>=-eq-ok (in_context _ (read path)) _ h in
      let (llm, built, h2) = >>=-eq-ok (build machine remote value policy.llm) _ h1 in
      let (g, kept, served, _, _) = (new_iff policy wasm llm r).0 h2 in
      (g, kept, built ∙ ap ok (sym served))
