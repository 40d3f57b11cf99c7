-- ===== src/Agent/Imports/Laws.antt =====
-- When a host call succeeds, and what the host saw of it.
use tds_wasm_ai.Common.{
  ℕ, ◌≡◌, ◌⊎◌, inl, inr, refl, sym, ap, ◌∙◌, ◌∷◌, Bool-cases, Result-cases, String, List, [], ok,
  err, eqb, replicate, true, arith,
}
use tds_wasm_ai.Common.Int.{ℤ, pos, negsuc, eqb_ℤ}
use tds_wasm_ai.Common.Utf8.{as_bytes}
use tds_wasm_ai.Common.Text.{format}
use tds_wasm_ai.Wire.{Codec}
use tds_wasm_ai.Abi.Types.{CapResponse, cap_error, invalid, into_result}
use tds_wasm_ai.Agent.Imports.{Imports, fetch, settle, reason, host_call}

eqb_ℤ-eq : (a b : ℤ) → eqb_ℤ a b ≡ true → a ≡ b
unfolding eqb_ℤ
eqb_ℤ-eq (pos a) (pos b) h = let e : a ≡ b = ground arith in ap pos e
eqb_ℤ-eq (negsuc a) (negsuc b) h = let e : a ≡ b = ground arith in ap negsuc e
eqb_ℤ-eq (pos a) (negsuc b) h = cc (h)
eqb_ℤ-eq (negsuc a) (pos b) h = cc (h)

sign : (a : ℤ) → ((n : ℕ) × (a ≡ pos n)) ⊎ ((k : ℕ) × (a ≡ negsuc k))
sign (pos n) = inl (n, refl)
sign (negsuc k) = inr (k, refl)

module _ {S : Type 0} (host : Imports S) {Req Res : Type 0} (sent : Codec Req)
    (received : Codec (CapResponse Res)) (name : String) where
  -- How a host call came to its value: the request was encoded and sent, the host announced `n` bytes,
  -- all of them were fetched, none of them if there were none, and they say that the call succeeded.
  pub record Served (request : Req) (s : S) (v : Res) : Type 0 where
    pub body : List ℕ
    pub n : ℕ
    pub buf : List ℕ
    pub encoded : sent.encode request ≡ ok body
    pub announced : (host.call (as_bytes name) body s).0 ≡ pos n
    pub fetched :
        ((n ≡ 0) × (buf ≡ []))
        ⊎ ((host.response_read (replicate n 0) (host.call (as_bytes name) body s).1).0
            ≡ (pos n, buf))
    pub decoded : received.decode buf ≡ ok (CapResponse.ok v)

  into_result-eq-ok : (r : CapResponse Res) (v : Res) → into_result r ≡ ok v → r ≡ CapResponse.ok v
  unfolding into_result
  into_result-eq-ok (CapResponse.ok w) v h = cc (h)
  into_result-eq-ok (CapResponse.err e) v h = cc (h)

  settle-eq-ok :
      (n : ℕ) (copied : ℤ) (buf : List ℕ) (t : S) (v : Res)
      → (settle host received name n ((copied, buf), t)).0 ≡ ok v
      → (copied ≡ pos n) × (received.decode buf ≡ ok (CapResponse.ok v))
  unfolding settle
  settle-eq-ok n copied buf t v h = elim (Bool-cases (eqb_ℤ copied (pos n))) [
    | inr differs ↦
        let e : (settle host received name n ((copied, buf), t)).0
            ≡ err (cap_error "host" (format (name ∷ ": truncated response" ∷ []))) =
          rw (settle, differs) refl in
        cc (h, e)
    | inl all ↦ elim (Result-cases (received.decode buf)) [
      | inr (why, bad) ↦
          let e : (settle host received name n ((copied, buf), t)).0
              ≡ err (cap_error "host" (format (name ∷ ": malformed response: " ∷ why ∷ []))) =
            rw (settle, all, bad) refl in
          cc (h, e)
      | inl (r, good) ↦
          let e : (settle host received name n ((copied, buf), t)).0 ≡ into_result r =
            rw (settle, all, good) refl in
          (eqb_ℤ-eq copied (pos n) all, good ∙ ap ok (into_result-eq-ok r v (sym e ∙ h)))
    ]
  ]

  pub settle-state : (n : ℕ) (o : (ℤ × List ℕ) × S) → (settle host received name n o).1 ≡ o.1
  unfolding settle
  settle-state n ((copied, buf), t) = elim (Bool-cases (eqb_ℤ copied (pos n))) [
    | inl all ↦ rw (settle, all) refl
    | inr differs ↦ rw (settle, differs) refl
  ]

  fetch-Served :
      (request : Req) (s : S) (v : Res) (body : List ℕ) (n : ℕ)
      → sent.encode request ≡ ok body
      → (host.call (as_bytes name) body s).0 ≡ pos n
      → (fetch host received name n (host.call (as_bytes name) body s).1).0 ≡ ok v
      → Served request s v
  unfolding fetch
  fetch-Served request s v body n encoded announced h = elim (Bool-cases (eqb n 0)) [
    | inl nothing ↦
        let e : (fetch host received name n (host.call (as_bytes name) body s).1).0
            ≡ (settle host received name n ((pos 0, []), (host.call (as_bytes name) body s).1)).0 =
          rw (fetch, nothing) refl in
        let (same, good) =
          settle-eq-ok n (pos 0) [] (host.call (as_bytes name) body s).1 v (sym e ∙ h) in
        record {
          body = body;
          n = n;
          buf = [];
          encoded = encoded;
          announced = announced;
          fetched = inl (ground arith, refl);
          decoded = good;
        }
    | inr some ↦
        let o = host.response_read (replicate n 0) (host.call (as_bytes name) body s).1 in
        let e : (fetch host received name n (host.call (as_bytes name) body s).1).0
            ≡ (settle host received name n o).0 =
          rw (fetch, some) refl in
        let (same, good) = settle-eq-ok n o.0.0 o.0.1 o.1 v (sym e ∙ h) in
        record {
          body = body;
          n = n;
          buf = o.0.1;
          encoded = encoded;
          announced = announced;
          fetched = inr (cc (same));
          decoded = good;
        }
  ]

  -- A host call yields a value only if the host accepted the request and announced a length, all of
  -- the response of that length was delivered, and it decodes to the success envelope of the value.
  host_call-Served :
      (request : Req) (s : S) (v : Res)
      → (host_call host sent received name request s).0 ≡ ok v
      → Served request s v
  unfolding host_call
  host_call-Served request s v h = elim (Result-cases (sent.encode request)) [
    | inr (why, bad) ↦
        let e : (host_call host sent received name request s).0
            ≡ err (invalid (format ("could not encode " ∷ name ∷ " request: " ∷ why ∷ []))) =
          rw (host_call, bad) refl in
        cc (h, e)
    | inl (body, encoded) ↦ elim (sign (host.call (as_bytes name) body s).0) [
      | inl (n, announced) ↦
          let e : (host_call host sent received name request s).0
              ≡ (fetch host received name n (host.call (as_bytes name) body s).1).0 =
            rw (host_call, encoded, announced) refl in
          fetch-Served request s v body n encoded announced (sym e ∙ h)
      | inr (k, refused) ↦
          let e : (host_call host sent received name request s).0
              ≡ err (cap_error "host" (format (name ∷ ": " ∷ reason (negsuc k) ∷ []))) =
            rw (host_call, encoded, refused) refl in
          cc (h, e)
    ]
  ]
