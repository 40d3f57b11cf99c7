-- ===== src/Main/Laws.antt =====
-- The policy of the command line, and the two kinds of check.
use tds_wasm_ai.Common.{
  ◌≡◌, refl, ◌↔◌, true, false, String, Option, none, some, Result, ok, err, map_ok, map_err,
  >>=-eq-ok, map_err-eq-ok,
}
use mathlib.Core.Path.{subst}
use tds_wasm_ai.Policy.Types.{Policy, default_policy}
use tds_wasm_ai.Policy.Validation.{IsAcceptable, validate, validate_iff}
use tds_wasm_ai.Policy.Load.{load_iff}
use tds_wasm_ai.Runtime.Exec.{failure, in_context}
use tds_wasm_ai.Runtime.State.{LlmProvider}
use tds_wasm_ai.Runtime.New.{Runtime, from_files}
use tds_wasm_ai.Runtime.New.Laws.{new-provider}
use tds_wasm_ai.Llm.Build.{build}
use tds_wasm_ai.Llm.Mock.{mock_provider}
use tds_wasm_ai.Main.{Platform, policy_of, checked}

pub map_ok-eq-ok :
    {E A B : Type 0} (f : A → B) (r : Result E A) (b : B)
    → map_ok f r ≡ ok b
    → (a : A) × (r ≡ ok a) × (f a ≡ b)
map_ok-eq-ok f (ok a) b h = (a, refl, cc (h))
map_ok-eq-ok f (err e) b h = cc (h)

module _ {V W E M : Type 0} (host : Platform V W E M) where
  -- The policy of the command line is acceptable, whether it is loaded or the default.
  policy_of-IsAcceptable :
      (path : Option String) (policy : Policy)
      → policy_of host path ≡ ok policy
      → IsAcceptable policy
  unfolding policy_of
  policy_of-IsAcceptable (some path) policy h =
      let (text, found, parsed, fine) =
        (load_iff host.debug host.read_to_string host.from_str path policy).0 h in
      fine
  policy_of-IsAcceptable none policy h =
      let (u, valid, is) = >>=-eq-ok (map_err failure (validate host.debug default_policy)) _ h in
      let same : default_policy ≡ policy = cc (is) in
      subst IsAcceptable same
        ((validate_iff host.debug default_policy).0 (map_err-eq-ok _ _ _ valid))

  abbrev offline : LlmProvider V W
  offline = mock_provider host.remote.json host.wire.value

  -- A check with the credential accepts exactly if the offline check does and the provider that the
  -- policy names can be built, which wants its credential.
  pub checked_iff :
      (policy : Policy) (agent : String)
      → ((r : Runtime V W E M) × (checked host false policy agent ≡ ok r)) ↔ (
          ((r : Runtime V W E M) × (checked host true policy agent ≡ ok r))
          × ((llm : LlmProvider V W) × (build host.machine host.remote host.wire.value policy.llm
                ≡ ok llm)))
  unfolding checked from_files
  checked_iff policy agent = (
    (λ h.
        let (r, opened) = h in
        let (wasm, found, h1) = >>=-eq-ok (in_context _ (host.read agent)) _ opened in
        let (llm, built, made) =
          >>=-eq-ok (build host.machine host.remote host.wire.value policy.llm) _ h1 in
        let there : host.read agent ≡ ok wasm = map_err-eq-ok _ _ _ found in
        let again = new-provider host.debug host.wasmtime policy wasm llm offline r made in
        ((record r { llm = offline }, rw (checked, there) again), (llm, built))),
    λ h.
        let ((r, opened), (llm, built)) = h in
        let (wasm, found, made) = >>=-eq-ok (in_context _ (host.read agent)) _ opened in
        let there : host.read agent ≡ ok wasm = map_err-eq-ok _ _ _ found in
        let again = new-provider host.debug host.wasmtime policy wasm offline llm r made in
        (record r { llm = llm }, rw (checked, from_files, there, built) again),
  )
