-- ===== src/Common/Assoc.antt =====
-- `BTreeMap` with text keys, as the list of its entries. No source iterates over a map, so the order of
-- the entries is not observed.
use tds_wasm_ai.Common.Lists.{length, All}
use tds_wasm_ai.Common.Tests.{if◌then◌else◌}
use Prim.Native.Nat.{◌+◌}
use Prim.Native.String.{String}
use mathlib.Core.Path.{◌≡◌, refl}
use mathlib.Core.Bool.{Bool, true, false}
use mathlib.Core.Option.{Option, none, some}
use mathlib.Core.List.{List, [], ◌∷◌}
use native.Mathlib.Omega.{arith}
use text.Mathlib.Text.{◌==◌}
use text.Mathlib.TextEquality.{eq_iff}

module _ {ℓ} {A : Type ℓ} where
  -- `get`
  unfoldable pub lookup : String → List (String × A) → Option A
  lookup k [] = none
  lookup k ((j, v) ∷ m) = if j == k then some v else lookup k m

  -- `contains_key`
  unfoldable pub contains_key : String → List (String × A) → Bool
  contains_key k [] = false
  contains_key k ((j, v) ∷ m) = if j == k then true else contains_key k m

  -- `insert`
  unfoldable pub insert : String → A → List (String × A) → List (String × A)
  insert k v [] = (k, v) ∷ []
  insert k v ((j, w) ∷ m) = if j == k then (j, v) ∷ m else (j, w) ∷ insert k v m

module _ {ℓ} {A : Type ℓ} where
  pub lookup-insert :
      (key wanted : String) (value : A) (entries : List (String × A))
      → lookup wanted (insert key value entries)
        ≡ (if key == wanted then some value else lookup wanted entries)
  unfolding lookup insert
  lookup-insert key wanted value [] = refl
  lookup-insert key wanted value ((at, old) ∷ entries) = ground (
    arith,
    lookup-insert key wanted value entries,
    eq_iff key wanted,
    eq_iff at wanted,
    eq_iff at key,
  )

  -- A key that is already there keeps the number of entries; a new one adds an entry.
  pub length-insert :
      (k : String) (v : A) (m : List (String × A))
      → length (insert k v m) ≡ (if contains_key k m then length m else length m + 1)
  unfolding insert contains_key
  length-insert k v [] = ground arith
  length-insert k v ((i, w) ∷ m) = ground (arith, length-insert k v m)

  pub All-insert {κ} :
      (P : A → Type κ) (k : String) (v : A) (m : List (String × A))
      → P v
      → All (λ e. P e.1) m
      → All (λ e. P e.1) (insert k v m)
  unfolding insert
  All-insert P k v [] p h = (p, tt)
  All-insert P k v ((i, w) ∷ m) p h = ground (arith, All-insert P k v m p h.1)
