-- ===== src/Runtime/Module.antt =====
-- crates/tds-host/src/runtime.rs, `verify_module_shape`: what a module may import and must export.
use tds_wasm_ai.Common.{
  ◌≡◌, refl, ◌↔◌, String, Bool, true, ◌&&◌, List, [], ◌∷◌, Memᴰ, All, any, any-eq-true, any_of_mem,
  ◌==◌, eq_iff, eq_refl, if◌then◌else◌, Result, ok, err, ◌>>◌, Bool-cases, >>=-eq-ok, inl, inr,
  and-eq-true, arith,
}
use tds_wasm_ai.Common.Text.{format}
use tds_wasm_ai.Abi.Types.{host_module}

pub record Import : Type 0 where
  pub module_name : String
  pub name : String

-- A compiled module, as far as its shape is looked at.
pub record Shape : Type 0 where
  pub imports : List Import
  pub exports : List String

abbrev pub allowed_imports : List String
allowed_imports = "log" ∷ "call" ∷ "response_read" ∷ []

abbrev pub required_exports : List String
required_exports = "memory" ∷ "tds_abi_version" ∷ "tds_alloc" ∷ "tds_dealloc" ∷ "tds_run" ∷ []

-- `contains` and `get_export(…).is_some()`
unfoldable pub contains : List String → String → Bool
contains names name = any (λ n. n == name) names

unfoldable pub check_imports : List Import → Result String (Unit {0})
check_imports [] = ok tt
check_imports (i ∷ imports) =
    let rest = check_imports imports in
    if (i.module_name == host_module) && contains allowed_imports i.name
    then rest
    else err (
        format (
          "agent module imports " ∷ i.module_name ∷ "::" ∷ i.name
          ∷ ", which this host does not provide; the agent may only import " ∷ host_module
          ∷ "::{log, call, response_read}" ∷ []))

-- `debug` is the standard library's `{:?}` of a string.
module _ (debug : String → String) where
  unfoldable pub check_exports : List String → List String → Result String (Unit {0})
  check_exports exports [] = ok tt
  check_exports exports (required ∷ more) =
      let rest = check_exports exports more in
      if contains exports required
      then rest
      else err (format ("agent module does not export " ∷ debug required ∷ []))

  unfoldable pub verify_module_shape : Shape → Result String (Unit {0})
  verify_module_shape m = do check_imports m.imports; check_exports m.exports required_exports

-- The host's own functions and nothing else.
abbrev pub IsProvided : Import → Type 0
IsProvided i = (i.module_name ≡ host_module) × Memᴰ i.name allowed_imports

pub contains_iff :
    (names : List String) (name : String) → (contains names name ≡ true) ↔ Memᴰ name names
unfolding contains
contains_iff names name = (
  (λ h. let (n, m, e) = any-eq-true (λ n. n == name) names h in rw (← (eq_iff n name).0 e) m),
  λ m. any_of_mem (λ n. n == name) m (eq_refl name),
)

check_imports_iff :
    (imports : List Import) → (check_imports imports ≡ ok tt) ↔ All IsProvided imports
unfolding check_imports
check_imports_iff [] = ((λ h. tt), λ h. refl)
check_imports_iff (i ∷ imports) =
    elim (Bool-cases ((i.module_name == host_module) && contains allowed_imports i.name)) [
      | inl allowed ↦ rw allowed (
        (λ h.
            let (own, named) =
              and-eq-true (i.module_name == host_module) (contains allowed_imports i.name)
                allowed in
            (
              (
                (eq_iff i.module_name host_module).0 own,
                (contains_iff allowed_imports i.name).0 named,
              ),
              (check_imports_iff imports).0 h,
            )),
        λ h. (check_imports_iff imports).1 h.1,
      )
      | inr foreign ↦ rw foreign (
        (λ h. cc),
        λ h. ground (
          arith,
          foreign,
          (eq_iff i.module_name host_module).1 h.0.0,
          (contains_iff allowed_imports i.name).1 h.0.1,
        ),
      )
    ]

check_exports_iff :
    (debug : String → String) (exports required : List String)
    → (check_exports debug exports required ≡ ok tt) ↔ All (λ name. Memᴰ name exports) required
unfolding check_exports
check_exports_iff debug exports [] = ((λ h. tt), λ h. refl)
check_exports_iff debug exports (name ∷ more) = elim (Bool-cases (contains exports name)) [
  | inl there ↦ rw there (
    (λ h. ((contains_iff exports name).0 there, (check_exports_iff debug exports more).0 h)),
    λ h. (check_exports_iff debug exports more).1 h.1,
  )
  | inr missing ↦ rw missing ((λ h. cc), λ h. cc (missing, (contains_iff exports name).1 h.0))
]

-- A module is accepted exactly if it imports only the three host functions and has the five
-- exports.
pub verify_module_shape_iff :
    (debug : String → String) (m : Shape)
    → (verify_module_shape debug m ≡ ok tt)
      ↔ (All IsProvided m.imports × All (λ name. Memᴰ name m.exports) required_exports)
unfolding verify_module_shape
verify_module_shape_iff debug m = (
  (λ h.
      let (done, imports, exports) = >>=-eq-ok (check_imports m.imports) _ h in
      (
        (check_imports_iff m.imports).0 imports,
        (check_exports_iff debug m.exports required_exports).0 exports,
      )),
  λ h.
      rw ((check_imports_iff m.imports).1 h.0)
        ((check_exports_iff debug m.exports required_exports).1 h.1),
)
