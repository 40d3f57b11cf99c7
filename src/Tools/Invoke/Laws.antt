-- ===== src/Tools/Invoke/Laws.antt =====
-- What a tool call may change, and that what is not shown to the agent is not run.
use tds_wasm_ai.Common.{
  ◌≡◌, refl, ◌⊎◌, inl, inr, String, true, false, none, some, [], ◌∷◌, Memᴰ, ◌==◌, eq_iff,
  any-eq-true, Bool-cases, Result-cases, ok, err,
}
use tds_wasm_ai.Common.Text.{format}
use tds_wasm_ai.External.{External}
use tds_wasm_ai.Abi.Types.{CapError, ToolSpec, denied, not_found}
use tds_wasm_ai.Policy.Types.{Policy}
use tds_wasm_ai.Tools.Known.{known_tools}
use tds_wasm_ai.Tools.Specs.{spec_for, specs}
use tds_wasm_ai.Tools.Specs.Laws.{shown, shown_of_enabled, spec_of_unknown, spec_of_known}
use tds_wasm_ai.Tools.Http.Laws.{IsPermitted, http_get-contained}
use tds_wasm_ai.Tools.Scratchpad.{kv_get, kv_put}
use tds_wasm_ai.Tools.Scratchpad.Laws.{IsWithin, kv_put-IsWithin, kv_put-eq-err}
use tds_wasm_ai.Tools.Invoke.{
  ToolBox, Outcome, is_enabled, run_now, run_http_get, run_kv_put, now_rfc3339, invoke,
}

shown_of_is_enabled :
    {V U W : Type 0} (x : External V U W) (p : Policy) (name : String) (s : ToolSpec V)
    → is_enabled p name ≡ true
    → spec_for x name ≡ some s
    → Memᴰ name (shown x p)
unfolding is_enabled specs
shown_of_is_enabled x p name s on e =
    let (t, m, same) = any-eq-true (λ t. t == name) p.tools.enabled on in
    shown_of_enabled x name s p.tools.enabled (rw (← (eq_iff t name).0 same) m) e

module _ {V U W : Type 0} (x : External V U W) (box : ToolBox) (name : String) (input : V)
    (w : W) where
  abbrev refused : CapError → Outcome W
  refused e = record { result = err e; box = box; world = w }

  abbrev denial : CapError
  denial = denied (format ("tool " ∷ x.debug name ∷ " is not enabled by this host's policy" ∷ []))

  abbrev absence : CapError
  absence = not_found (format ("no tool named " ∷ x.debug name ∷ []))

  -- The branches of `invoke`.
  data Branch (o : Outcome W) : Type 0 where
    disabled :
        (e : CapError)
        → is_enabled box.policy name ≡ false
        → e.kind ≡ "denied"
        → o ≡ refused e
        → Branch o
    unknown :
        (e : CapError) → spec_for x name ≡ none → e.kind ≡ "not_found" → o ≡ refused e → Branch o
    now : is_enabled box.policy name ≡ true → name ≡ "now" → o ≡ run_now x box w → Branch o
    http :
        is_enabled box.policy name ≡ true
        → name ≡ "http_get"
        → o ≡ run_http_get x box input w
        → Branch o
    get :
        is_enabled box.policy name ≡ true
        → name ≡ "kv_get"
        → o ≡ record { result = kv_get x box.kv input; box = box; world = w }
        → Branch o
    put :
        is_enabled box.policy name ≡ true
        → name ≡ "kv_put"
        → o ≡ run_kv_put x box input w
        → Branch o

  invoke-Branch : Branch (invoke x box name input w)
  unfolding invoke
  invoke-Branch = elim (Bool-cases (is_enabled box.policy name)) [
    | inr off ↦ disabled denial off refl (rw (invoke, off))
    | inl on ↦ elim (Bool-cases (name == "now")) [
      | inl is_now ↦ now on ((eq_iff name "now").0 is_now) (rw (invoke, on, is_now))
      | inr not_now ↦ elim (Bool-cases (name == "http_get")) [
        | inl is_http ↦
            http on ((eq_iff name "http_get").0 is_http) (rw (invoke, on, not_now, is_http))
        | inr not_http ↦ elim (Bool-cases (name == "kv_get")) [
          | inl is_get ↦
              get on ((eq_iff name "kv_get").0 is_get) (rw (invoke, on, not_now, not_http, is_get))
          | inr not_get ↦ elim (Bool-cases (name == "kv_put")) [
            | inl is_put ↦
                put on ((eq_iff name "kv_put").0 is_put)
                  (rw (invoke, on, not_now, not_http, not_get, is_put))
            | inr not_put ↦
                unknown absence (no_spec not_now not_http not_get not_put) refl
                  (rw (invoke, on, not_now, not_http, not_get, not_put))
          ]
        ]
      ]
    ]
  ]
    where
      no_spec :
          (name == "now") ≡ false
          → (name == "http_get") ≡ false
          → (name == "kv_get") ≡ false
          → (name == "kv_put") ≡ false
          → spec_for x name ≡ none
      no_spec a b c d = spec_of_unknown x name a b c d

  -- The changes that a call can make: the policy stays, the scratchpad changes only under an enabled
  -- `kv_put` that succeeds, and the world only under an enabled `now`, or an enabled `http_get` by one
  -- request that the policy permits.
  pub record Effects (o : Outcome W) : Type 0 where
    pub policy : o.box.policy ≡ box.policy
    pub scratchpad :
        (o.box.kv ≡ box.kv)
        ⊎ ((is_enabled box.policy name ≡ true)
            × (name ≡ "kv_put")
            × ((message : String) × (o.result ≡ ok message)))
    pub outside :
        (o.world ≡ w)
        ⊎ ((is_enabled box.policy name ≡ true) × (name ≡ "now") × (o.world ≡ (x.clock w).1))
        ⊎ ((is_enabled box.policy name ≡ true)
            × (name ≡ "http_get")
            × ((url : U) × (host : String) × IsPermitted x box.policy.tools.http url host
                × (o.world ≡ (x.send url w).1)))

  nothing : {e : CapError} → Effects (refused e)
  nothing = record { policy = refl; scratchpad = inl refl; outside = inl refl }

  -- Every call of a tool keeps the policy, changes the scratchpad only by an enabled `kv_put` that
  -- succeeds, and changes the world only by reading the clock for an enabled `now` or by one
  -- request of an enabled `http_get` for a URL that the policy permits.
  pub invoke-Effects : Effects (invoke x box name input w)
  unfolding run_now run_http_get run_kv_put now_rfc3339
  invoke-Effects = effects (invoke x box name input w) invoke-Branch
    where
      effects : (o : Outcome W) → Branch o → Effects o
      effects o (disabled e off kind same) = rw same nothing
      effects o (unknown e bare kind same) = rw same nothing
      effects o (now on at same) =
          rw same
            (record { policy = refl; scratchpad = inl refl; outside = inr (inl (on, at, refl)) })
      effects o (http on at same) = rw same (record {
        policy = refl;
        scratchpad = inl refl;
        outside = elim (http_get-contained x box.policy.tools.http input w) [
          | inl still ↦ inl still
          | inr (url, host, permitted, sent) ↦ inr (inr (on, at, (url, host, permitted, sent)))
        ];
      })
      effects o (get on at same) =
          rw same (record { policy = refl; scratchpad = inl refl; outside = inl refl })
      effects o (put on at same) = rw same (record {
        policy = refl;
        scratchpad = elim (Result-cases (kv_put x box.policy.tools.kv box.kv input).0) [
          | inl (message, stored) ↦ inr (on, at, (message, stored))
          | inr (e, failed) ↦ inl (kv_put-eq-err x box.policy.tools.kv box.kv input e failed).0
        ];
        outside = inl refl;
      })

  -- Every call of a tool on a scratchpad within the policy's limits leaves it within them.
  pub invoke-IsWithin :
      IsWithin box.policy.tools.kv box.kv
      → IsWithin box.policy.tools.kv (invoke x box name input w).box.kv
  unfolding run_now run_http_get run_kv_put
  invoke-IsWithin h = within (invoke x box name input w) invoke-Branch
    where
      within : (o : Outcome W) → Branch o → IsWithin box.policy.tools.kv o.box.kv
      within o (disabled e off kind same) = rw same h
      within o (unknown e bare kind same) = rw same h
      within o (now on at same) = rw same h
      within o (http on at same) = rw same h
      within o (get on at same) = rw same h
      within o (put on at same) = rw same (kv_put-IsWithin x box.policy.tools.kv box.kv input h)

  -- A tool that the agent is not shown is refused, as denied or as not found, and the call changes
  -- nothing.
  pub invoke_unlisted :
      ¬ Memᴰ name (shown x box.policy)
      → (e : CapError) × (invoke x box name input w
          ≡ record { result = err e; box = box; world = w })
        × ((e.kind ≡ "denied") ⊎ (e.kind ≡ "not_found"))
  invoke_unlisted h = refusal (invoke x box name input w) invoke-Branch
    where
      unlisted : is_enabled box.policy name ≡ true → Memᴰ name known_tools → ⊥
      unlisted on m =
          let (s, e) = spec_of_known x name m in h (shown_of_is_enabled x box.policy name s on e)

      refusal :
          (o : Outcome W)
          → Branch o
          → (e : CapError) × (o ≡ refused e) × ((e.kind ≡ "denied") ⊎ (e.kind ≡ "not_found"))
      refusal o (disabled e off kind same) = (e, same, inl kind)
      refusal o (unknown e bare kind same) = (e, same, inr kind)
      refusal o (now on at same) = absurd (unlisted on (rw at (Memᴰ.head refl)))
      refusal o (http on at same) = absurd (unlisted on (rw at (Memᴰ.tail (Memᴰ.head refl))))
      refusal o (get on at same) =
          absurd (unlisted on (rw at (Memᴰ.tail (Memᴰ.tail (Memᴰ.head refl)))))
      refusal o (put on at same) =
          absurd (unlisted on (rw at (Memᴰ.tail (Memᴰ.tail (Memᴰ.tail (Memᴰ.head refl))))))
