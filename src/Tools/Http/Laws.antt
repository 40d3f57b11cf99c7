-- ===== src/Tools/Http/Laws.antt =====
-- What `http_get` may reach, and how much of a response it reads.
use tds_wasm_ai.Common.{
  ℕ, ◌-◌, ◌≤◌, ◌≡◌, refl, ◌⊎◌, inl, inr, String, true, some, none, List, [], ◌∷◌, length, ◌==◌,
  eq_iff, ok, err, Result-cases, Option-cases, Bool-cases, length-take, length-append, arith,
}
use tds_wasm_ai.Common.Text.{format}
use tds_wasm_ai.External.{External, Chunk, bytes, broken}
use tds_wasm_ai.Abi.Types.{CapError, denied, invalid}
use tds_wasm_ai.Policy.Types.{HttpToolConfig}
use tds_wasm_ai.Policy.Hosts.{allows}
use tds_wasm_ai.Tools.Http.{read_body, string_arg, checked_url, http_get}

-- What is read of a response's body is no longer than the limit, however the body arrives.
length-read_body-le :
    (cap : ℕ) (chunks : List Chunk) (bs : List ℕ) → read_body cap chunks ≡ ok bs → length bs ≤ cap
unfolding read_body
length-read_body-le cap [] bs h = ground arith
length-read_body-le cap (bytes b ∷ chunks) bs h =
    elim (Result-cases (read_body (cap - length b) chunks)) [
      | inr (e, bad) ↦ ground (arith, length-take cap b)
      | inl (more, rest) ↦ ground (
        arith,
        length-take cap b,
        length-append b more,
        length-read_body-le (cap - length b) chunks more rest,
      )
    ]
length-read_body-le cap (broken e ∷ chunks) bs h = ground arith

module _ {V U W : Type 0} (x : External V U W) (config : HttpToolConfig) where
  -- A URL that may be fetched: https, and at a host that the policy allows.
  pub record IsPermitted (url : U) (host : String) : Type 0 where
    pub https : x.scheme url ≡ "https"
    pub at : x.host_str url ≡ some host
    pub allowed : allows config host ≡ true

  checked_url-IsPermitted :
      (input : V) (url : U) (host : String)
      → checked_url x config input ≡ ok (url, host)
      → IsPermitted url host
  unfolding checked_url
  checked_url-IsPermitted input url host h = record {
    https = ground (arith, eq_iff (x.scheme url) "https");
    at = ground arith;
    allowed = ground arith;
  }

  -- `http_get` touches the world outside by at most one request, for a URL that is https and whose
  -- host the policy allows.
  pub http_get-contained :
      (input : V) (w : W)
      → ((http_get x config input w).1 ≡ w)
        ⊎ ((url : U) × (host : String) × IsPermitted url host
            × ((http_get x config input w).1 ≡ (x.send url w).1))
  unfolding http_get
  http_get-contained input w = elim (Result-cases (checked_url x config input)) [
    | inl ((url, host), checked) ↦
        inr (url, host, checked_url-IsPermitted input url host checked, rw (checked, http_get))
    | inr (e, refused) ↦ inl (rw (refused, http_get))
  ]

  checked_url_refused :
      (input : V) (text : String) (url : U)
      → string_arg x input "url" ≡ ok text
      → x.parse_url text ≡ ok url
      → ((host : String) → ¬ IsPermitted url host)
      → (e : CapError) × (checked_url x config input ≡ err e)
        × ((e.kind ≡ "denied") ⊎ ((x.host_str url ≡ none) × (e.kind ≡ "invalid")))
  unfolding checked_url
  checked_url_refused input text url read parsed unfit =
      elim (Bool-cases (x.scheme url == "https")) [
        | inr plain ↦ (
          denied "only https URLs may be fetched",
          rw (checked_url, read, parsed, plain),
          inl refl,
        )
        | inl secure ↦ elim (Option-cases (x.host_str url)) [
          | inl bare ↦ (
            invalid "url has no host",
            rw (checked_url, read, parsed, secure, bare),
            inr (bare, refl),
          )
          | inr (host, at) ↦ elim (Bool-cases (allows config host)) [
            | inl open_to ↦ absurd (
                unfit host (record {
                  https = (eq_iff (x.scheme url) "https").0 secure;
                  at = at;
                  allowed = open_to;
                }))
            | inr closed ↦ (
              denied (format ("host " ∷ x.debug host ∷ " is not in this host's allowlist" ∷ [])),
              rw (checked_url, read, parsed, secure, at, closed),
              inl refl,
            )
          ]
        ]
      ]

  -- A URL that parses but is permitted with no host is refused and no request is made: as denied,
  -- or as invalid if it has no host.
  pub http_get_refused :
      (input : V) (text : String) (url : U) (w : W)
      → string_arg x input "url" ≡ ok text
      → x.parse_url text ≡ ok url
      → ((host : String) → ¬ IsPermitted url host)
      → (e : CapError) × (http_get x config input w ≡ (err e, w))
        × ((e.kind ≡ "denied") ⊎ ((x.host_str url ≡ none) × (e.kind ≡ "invalid")))
  unfolding http_get
  http_get_refused input text url w read parsed unfit =
      let (e, refused, kind) = checked_url_refused input text url read parsed unfit in
      (e, rw (refused, http_get), kind)
