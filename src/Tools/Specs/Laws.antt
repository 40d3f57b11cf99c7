-- ===== src/Tools/Specs/Laws.antt =====
-- The names of the tools that the agent is shown.
use mathlib.Core.List.{filter_map-cons-none, filter_map-cons-some}
use tds_wasm_ai.Common.{
  ◌≡◌, refl, sym, inl, inr, String, false, none, some, List, [], ◌∷◌, map, filter_map, Memᴰ, All,
  ◌==◌, eq_iff, Option-cases, arith,
}
use tds_wasm_ai.External.{External}
use tds_wasm_ai.Abi.Types.{ToolSpec}
use tds_wasm_ai.Policy.Types.{Policy}
use tds_wasm_ai.Tools.Known.{known_tools}
use tds_wasm_ai.Tools.Specs.{spec_for, specs}

module _ {V U W : Type 0} (x : External V U W) where
  name-spec_for : (name : String) (s : ToolSpec V) → spec_for x name ≡ some s → s.name ≡ name
  unfolding spec_for
  name-spec_for name s h =
      ground (
        arith,
        eq_iff name "now",
        eq_iff name "http_get",
        eq_iff name "kv_get",
        eq_iff name "kv_put",
      )

  -- A tool is described exactly if the host knows it.
  pub spec_of_known :
      (name : String) → Memᴰ name known_tools → (s : ToolSpec V) × (spec_for x name ≡ some s)
  unfolding spec_for
  spec_of_known name (Memᴰ.head e) = rw (e, spec_for) (_, refl)
  spec_of_known name (Memᴰ.tail (Memᴰ.head e)) = rw (e, spec_for) (_, refl)
  spec_of_known name (Memᴰ.tail (Memᴰ.tail (Memᴰ.head e))) = rw (e, spec_for) (_, refl)
  spec_of_known name (Memᴰ.tail (Memᴰ.tail (Memᴰ.tail (Memᴰ.head e)))) = rw (e, spec_for) (_, refl)
  spec_of_known name (Memᴰ.tail (Memᴰ.tail (Memᴰ.tail (Memᴰ.tail m)))) = elim m [ ]

  pub spec_of_unknown :
      (name : String)
      → (name == "now") ≡ false
      → (name == "http_get") ≡ false
      → (name == "kv_get") ≡ false
      → (name == "kv_put") ≡ false
      → spec_for x name ≡ none
  unfolding spec_for
  spec_of_unknown name a b c d = rw (a, b, c, d)

  abbrev pub shown : Policy → List String
  shown p = map (λ s. s.name) (specs x p)

  shown-All :
      (names : List String)
      → All (λ name. Memᴰ name known_tools) names
      → map (λ s. s.name) (filter_map (spec_for x) names) ≡ names
  unfolding filter_map
  shown-All [] h = refl
  shown-All (name ∷ names) h =
      let (s, e) = spec_of_known name h.0 in
      rw (filter_map-cons-some (spec_for x) name names e)
        (cc (name-spec_for name s e, shown-All names h.1))

  -- Under a policy that enables known tools only, the agent is shown the enabled tools, in the
  -- policy's order.
  pub shown-eq-enabled :
      (p : Policy) → All (λ name. Memᴰ name known_tools) p.tools.enabled → shown p ≡ p.tools.enabled
  unfolding specs
  shown-eq-enabled p h = shown-All p.tools.enabled h

  -- An enabled tool that has a description is shown.
  pub shown_of_enabled :
      (name : String) (s : ToolSpec V) (names : List String)
      → Memᴰ name names
      → spec_for x name ≡ some s
      → Memᴰ name (map (λ t. t.name) (filter_map (spec_for x) names))
  shown_of_enabled name s [] m h = elim m [ ]
  shown_of_enabled name s (n ∷ names) (Memᴰ.head e) h =
      rw (filter_map-cons-some (spec_for x) n names (rw e at h))
        (Memᴰ.head (sym (name-spec_for name s h)))
  shown_of_enabled name s (n ∷ names) (Memᴰ.tail m) h = elim (Option-cases (spec_for x n)) [
    | inl unknown ↦
        rw (filter_map-cons-none (spec_for x) n names unknown) (shown_of_enabled name s names m h)
    | inr (t, is_known) ↦
        rw (filter_map-cons-some (spec_for x) n names is_known)
          (Memᴰ.tail (shown_of_enabled name s names m h))
  ]
