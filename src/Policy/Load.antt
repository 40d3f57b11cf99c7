-- ===== src/Policy/Load.antt =====
-- crates/tds-host/src/policy.rs, `Policy::load`. Reading the file and the TOML of its text (serde, toml) are
-- parameters; a path is its `Display`.
use tds_wasm_ai.Common.{
  ◌≡◌, refl, ◌↔◌, String, [], ◌∷◌, Result, ok, ◌>>=◌, ◌>>◌, map_err, >>=-eq-ok, map_err-eq-ok,
}
use tds_wasm_ai.Common.Text.{format}
use tds_wasm_ai.Policy.Types.{Policy}
use tds_wasm_ai.Policy.Validation.{validate, validate_iff, IsAcceptable}
use tds_wasm_ai.Runtime.Exec.{Failure, failure, in_context}

module _ (debug : String → String) (read_to_string : String → Result Failure String)
    (from_str : String → Result Failure Policy) where
  unfoldable pub load : String → Result Failure Policy
  load path = do
    text ← in_context (format ("reading policy " ∷ path ∷ [])) (read_to_string path)
    policy ← in_context (format ("parsing policy " ∷ path ∷ [])) (from_str text)
    map_err failure (validate debug policy)
    ok policy

  -- A policy is loaded exactly if its file is read, its text parses to it, and it is acceptable.
  pub load_iff :
      (path : String) (policy : Policy)
      → (load path ≡ ok policy) ↔ (
          (text : String) × (read_to_string path ≡ ok text)
          × (from_str text ≡ ok policy)
          × IsAcceptable policy)
  unfolding load
  load_iff path policy = (
    (λ h.
        let (text, found, h1) = >>=-eq-ok (in_context _ (read_to_string path)) _ h in
        let (p, parsed, h2) = >>=-eq-ok (in_context _ (from_str text)) _ h1 in
        let (u, valid, is) = >>=-eq-ok (map_err failure (validate debug p)) _ h2 in
        let same : p ≡ policy = cc (is) in
        rw (← same) (
          text,
          map_err-eq-ok _ _ _ found,
          map_err-eq-ok _ _ _ parsed,
          (validate_iff debug p).0 (map_err-eq-ok _ _ _ valid),
        )),
    λ h.
        let (text, found, parsed, fine) = h in
        let valid : validate debug policy ≡ ok tt = (validate_iff debug policy).1 fine in
        rw (load, found, parsed, valid) refl,
  )
