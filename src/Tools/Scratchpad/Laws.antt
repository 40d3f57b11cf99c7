-- ===== src/Tools/Scratchpad/Laws.antt =====
-- The scratchpad's limits hold after every call, a stored value comes back, and a refusal changes
-- nothing.
use Prim.Native.String.{len}
use tds_wasm_ai.Common.{
  ◌≤◌, ◌<◌, ◌≡◌, ◌⊎◌, String, true, All, length, if◌then◌else◌, ◌==◌, ok, err, inl, inr, [], ◌∷◌,
  Result-cases, Bool-cases, ltb, leb, ltb→le, ◌&&◌, arith,
}
use tds_wasm_ai.Common.Assoc.{contains_key, insert, lookup-insert, length-insert, All-insert}
use tds_wasm_ai.Common.Text.{format}
use tds_wasm_ai.External.{External}
use tds_wasm_ai.Abi.Types.{CapError}
use tds_wasm_ai.Policy.Types.{KvToolConfig}
use tds_wasm_ai.Tools.Http.{string_arg}
use tds_wasm_ai.Tools.Scratchpad.{Scratchpad, kv_get, store, kv_put, negate}

-- No more keys and no longer values than the policy allows.
pub record IsWithin (limits : KvToolConfig) (kv : Scratchpad) : Type 0 where
  pub keys : length kv ≤ limits.max_keys
  pub values : All (λ e. len e.1 ≤ limits.max_value_bytes) kv

-- The value is short enough, and the key is there already or there is room for it.
pub record Fits (limits : KvToolConfig) (kv : Scratchpad) (key value : String) : Type 0 where
  pub short : len value ≤ limits.max_value_bytes
  pub room : (contains_key key kv ≡ true) ⊎ (length kv < limits.max_keys)

module _ {V U W : Type 0} (x : External V U W) where
  store-IsWithin :
      (limits : KvToolConfig) (kv : Scratchpad) (key value : String)
      → IsWithin limits kv
      → IsWithin limits (store x limits kv key value).1
  unfolding store
  store-IsWithin limits kv key value h = record {
    keys = ground (arith, length-insert key value kv);
    values = elim (Bool-cases (ltb limits.max_value_bytes (len value))) [
      | inl long ↦ rw (store, long) h.values
      | inr short ↦
          elim (Bool-cases (negate (contains_key key kv) && leb limits.max_keys (length kv))) [
            | inl full ↦ rw (store, short, full) h.values
            | inr room ↦
                rw (store, short, room)
                  (All-insert (λ v. len v ≤ limits.max_value_bytes) key value kv
                    (ltb→le limits.max_value_bytes (len value) short) h.values)
          ]
    ];
  }

  -- Whatever its arguments, `kv_put` on a scratchpad within its limits leaves it within them.
  pub kv_put-IsWithin :
      (limits : KvToolConfig) (kv : Scratchpad) (input : V)
      → IsWithin limits kv
      → IsWithin limits (kv_put x limits kv input).1
  unfolding kv_put
  kv_put-IsWithin limits kv input h = elim (Result-cases (string_arg x input "key")) [
    | inr (e, bad) ↦ rw (bad, kv_put) h
    | inl (key, read) ↦ elim (Result-cases (string_arg x input "value")) [
      | inr (e, bad) ↦ rw (read, bad, kv_put) h
      | inl (value, read') ↦ rw (read, read', kv_put) (store-IsWithin limits kv key value h)
    ]
  ]

  store_of_Fits :
      (limits : KvToolConfig) (kv : Scratchpad) (key value : String)
      → Fits limits kv key value
      → store x limits kv key value
        ≡ (ok (format ("stored " ∷ x.debug key ∷ [])), insert key value kv)
  unfolding store
  store_of_Fits limits kv key value h = ground arith

  store-eq-err :
      (limits : KvToolConfig) (kv : Scratchpad) (key value : String) (e : CapError)
      → (store x limits kv key value).0 ≡ err e
      → ((store x limits kv key value).1 ≡ kv) × (e.kind ≡ "denied") × (¬ Fits limits kv key value)
  unfolding store
  store-eq-err limits kv key value e h =
      (ground arith, ground arith, λ f. ground (arith, f.short, f.room))

  -- After a `kv_put` of a value that fits, a `kv_get` of its key returns the value, and a `kv_get`
  -- of any other key returns what it returned before.
  pub kv_get-kv_put :
      (limits : KvToolConfig) (kv : Scratchpad) (input later : V) (key value wanted : String)
      → string_arg x input "key" ≡ ok key
      → string_arg x input "value" ≡ ok value
      → string_arg x later "key" ≡ ok wanted
      → Fits limits kv key value
      → kv_get x (kv_put x limits kv input).1 later
        ≡ (if key == wanted then ok value else kv_get x kv later)
  unfolding kv_put kv_get
  kv_get-kv_put limits kv input later key value wanted k v l h =
      rw (k, v, l, kv_put, kv_get, store_of_Fits limits kv key value h, lookup-insert)
        (ground arith)

  -- A `kv_put` that fails changes nothing. Either an argument is missing, or the call is denied and
  -- the value that it names does not fit.
  pub kv_put-eq-err :
      (limits : KvToolConfig) (kv : Scratchpad) (input : V) (e : CapError)
      → (kv_put x limits kv input).0 ≡ err e
      → ((kv_put x limits kv input).1 ≡ kv)
        × ((string_arg x input "key" ≡ err e)
            ⊎ (string_arg x input "value" ≡ err e)
            ⊎ ((key : String) × (value : String) × (string_arg x input "key" ≡ ok key)
                × (string_arg x input "value" ≡ ok value)
                × (e.kind ≡ "denied")
                × (¬ Fits limits kv key value)))
  unfolding kv_put
  kv_put-eq-err limits kv input e h = elim (Result-cases (string_arg x input "key")) [
    | inr (e', bad) ↦ (ground arith, ground arith)
    | inl (key, read) ↦ elim (Result-cases (string_arg x input "value")) [
      | inr (e', bad) ↦ (ground arith, ground arith)
      | inl (value, read') ↦
          let (same, kind, misfit) =
            store-eq-err limits kv key value e (ground (arith, read, read')) in
          (ground (arith, same), inr (inr (key, value, read, read', kind, misfit)))
    ]
  ]
