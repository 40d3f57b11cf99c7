-- ===== src/Agent/Loop/Simulation/Capabilities.antt =====
-- `host_call` on two sets of imports that answer alike.
use tds_wasm_ai.Common.{
  ℕ, ◌^◌, ◌<◌, ◌≡◌, refl, sym, ◌∙◌, eqb, Bool-cases, Result-cases, inl, inr, String, List, [], ◌∷◌,
  replicate, length-replicate, Result, ok, err,
}
use mathlib.Core.Path.{subst}
use tds_wasm_ai.Common.Int.{ℤ, pos, negsuc, eqb_ℤ}
use tds_wasm_ai.Common.Text.{format}
use tds_wasm_ai.Common.Utf8.{as_bytes}
use tds_wasm_ai.Wire.{Codec}
use tds_wasm_ai.Abi.Types.{CapError, CapResponse, LogLevel, cap_error}
use tds_wasm_ai.Agent.Imports.{Imports, emit, reason, settle, fetch, host_call}
use tds_wasm_ai.Agent.Loop.Simulation.{Agrees, same, Agrees-then, Simulates}

-- What follows a call that gave `n`.
module _ {Res : Type 0} (codec : Codec (CapResponse Res)) (name : String) where
  abbrev pub served : {U : Type 0} → Imports U → ℤ → U → Result CapError Res × U
  served {U} imports n u = elim n as (λ _. Result CapError Res × U) [
    | negsuc k ↦ (err (cap_error "host" (format (name ∷ ": " ∷ reason (negsuc k) ∷ []))), u)
    | pos k ↦ fetch imports codec name k u
  ]

module _ {S T : Type 0} (host : Imports S) (other : Imports T) (R : S → T → Type 0)
    (sim : Simulates R host other) where
  pub emit-simulated :
      (level : LogLevel) (message : String) (s : S) (t : T)
      → R s t
      → R (emit host level message s) (emit other level message t)
  unfolding emit
  emit-simulated level message s t r = sim.log _ _ s t r

  module _ {Res : Type 0} (codec : Codec (CapResponse Res)) (name : String) where
    settle-Agrees :
        (n : ℕ) (copied : ℤ × List ℕ) (s : S) (t : T)
        → R s t
        → Agrees R (settle host codec name n (copied, s)) (settle other codec name n (copied, t))
    unfolding settle
    settle-Agrees n copied s t r = elim (Bool-cases (eqb_ℤ copied.0 (pos n))) [
      | inl all ↦ rw (settle, all) (same _ r)
      | inr cut ↦ rw (settle, cut) (same _ r)
    ]

    fetch-Agrees :
        (n : ℕ) (s : S) (t : T)
        → n < 2 ^ 31
        → R s t
        → Agrees R (fetch host codec name n s) (fetch other codec name n t)
    unfolding fetch
    fetch-Agrees n s t small r = elim (Bool-cases (eqb n 0)) [
      | inl nothing ↦ rw (fetch, nothing) (settle-Agrees n (pos 0, []) s t r)
      | inr any ↦
          let buf = replicate n 0 in
          let o = host.response_read buf s in
          let o' = other.response_read buf t in
          rw (fetch, any)
            (Agrees-then o o' (λ c u. settle host codec name n (c, u))
              (λ c u. settle other codec name n (c, u))
              (sim.fetch buf s t
                (subst (λ k. k < 2 ^ 31) (sym (length-replicate {A = ℕ} n 0)) small) r)
              (λ c _ r'. settle-Agrees n c o.1 o'.1 r'))
    ]

    served-Agrees :
        (n : ℤ) (s : S) (t : T)
        → ((k : ℕ) → n ≡ pos k → k < 2 ^ 31)
        → R s t
        → Agrees R (served codec name host n s) (served codec name other n t)
    served-Agrees (negsuc k) s t small r = same _ r
    served-Agrees (pos k) s t small r = fetch-Agrees k s t (small k refl) r

    pub host_call-Agrees :
        {Req : Type 0} (sent : Codec Req) (request : Req) (s : S) (t : T)
        → R s t
        → Agrees R
            (host_call host sent codec name request s)
            (host_call other sent codec name request t)
    unfolding host_call
    host_call-Agrees sent request s t r = elim (Result-cases (sent.encode request)) [
      | inr (e, bad) ↦ rw (host_call, bad) (same _ r)
      | inl (body, good) ↦
          let o = host.call (as_bytes name) body s in
          let o' = other.call (as_bytes name) body t in
          rw (host_call, good)
            (Agrees-then o o' (served codec name host) (served codec name other)
              (sim.call (as_bytes name) body s t r)
              (λ n announced r'.
                served-Agrees n o.1 o'.1
                  (λ k is.
                    sim.short (as_bytes name) body t k
                      (sym (sim.call (as_bytes name) body s t r).value ∙ announced ∙ is))
                  r'))
    ]

  -- What is done with an outcome, whether it is a success or not.
  pub either :
      {A B : Type 0} (o : Result CapError A × S) (o' : Result CapError A × T) (f : A → S → B × S)
      (g : CapError → S → B × S) (f' : A → T → B × T) (g' : CapError → T → B × T)
      → Agrees R o o'
      → ((a : A) → R o.1 o'.1 → Agrees R (f a o.1) (f' a o'.1))
      → ((e : CapError) → R o.1 o'.1 → Agrees R (g e o.1) (g' e o'.1))
      → Agrees R
          (elim o.0 as (λ _. B × S) [ ok a ↦ f a o.1 | err e ↦ g e o.1 ])
          (elim o'.0 as (λ _. B × T) [ ok a ↦ f' a o'.1 | err e ↦ g' e o'.1 ])
  either {A} {B} o o' f g f' g' agree hf hg =
      Agrees-then o o' (λ r u. elim r as (λ _. B × S) [ ok a ↦ f a u | err e ↦ g e u ])
        (λ r u. elim r as (λ _. B × T) [ ok a ↦ f' a u | err e ↦ g' e u ]) agree
        (λ r _ related.
          elim r
            as (λ r.
              Agrees R (elim r as (λ _. B × S) [ ok a ↦ f a o.1 | err e ↦ g e o.1 ])
                (elim r as (λ _. B × T) [ ok a ↦ f' a o'.1 | err e ↦ g' e o'.1 ])) [
                  | ok a ↦ hf a related
                  | err e ↦ hg e related
                ])
