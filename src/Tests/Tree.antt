-- ===== src/Tests/Tree.antt =====
-- JSON values as trees, for the tests.
use tds_wasm_ai.Common.{
  ℕ, String, Bool, true, false, Option, none, some, List, [], ◌∷◌, ◌==◌, if◌then◌else◌, Result, ok,
  err,
}
use tds_wasm_ai.External.{Json}
use tds_wasm_ai.Abi.Types.{CapError}

mutual
  pub data Tree : Type 0 where
    text : String → Tree
    number : ℕ → Tree
    boolean : Bool → Tree
    array : Items → Tree
    object : Members → Tree

  pub data Items : Type 0 where
    no_items : Items
    item : Tree → Items → Items

  pub data Members : Type 0 where
    no_members : Members
    member : String → Tree → Members → Members

abbrev items : List Tree → Items
items [] = no_items
items (v ∷ vs) = item v (items vs)

-- The first member of a name.
abbrev find : Members → String → Option Tree
find no_members key = none
find (member name v ms) key = if name == key then some v else find ms key

abbrev replace : Members → String → Tree → Members
replace no_members key w = member key w no_members
replace (member name v ms) key w =
    if name == key then member name w ms else member name v (replace ms key w)

abbrev members : List (String × Tree) → Members
members [] = no_members
members ((name, v) ∷ ms) = member name v (members ms)

abbrev get : Tree → String → Option Tree
get (object ms) key = find ms key
get _ key = none

abbrev as_str : Tree → Option String
as_str (text s) = some s
as_str _ = none

abbrev set : Tree → String → Tree → Tree
set (object ms) key w = object (replace ms key w)
set v key w = v

abbrev pub json : Json Tree
json = record {
  object = λ ms. object (members ms);
  array = λ vs. array (items vs);
  string = text;
  number = number;
  boolean = boolean;
  get = get;
  as_str = as_str;
  set = set;
}

abbrev text_is : Option String → String → Bool
text_is none s = false
text_is (some t) s = t == s

abbrev pub is_none : {A : Type 0} → Option A → Bool
is_none none = true
is_none (some a) = false

-- `v[key] == s`
abbrev pub member_is : Tree → String → String → Bool
member_is v key s = elim (get v key) [ none ↦ false | some w ↦ text_is (as_str w) s ]

-- `v[outer][key] == s`
abbrev pub inner_is : Tree → String → String → String → Bool
inner_is v outer key s = elim (get v outer) [ none ↦ false | some w ↦ member_is w key s ]

-- `result.is_ok()` and `result.unwrap_err().kind == kind`
abbrev pub is_ok : {E A : Type 0} → Result E A → Bool
is_ok (ok a) = true
is_ok (err e) = false

abbrev pub fails_as : {A : Type 0} → String → Result CapError A → Bool
fails_as kind (ok a) = false
fails_as kind (err e) = e.kind == kind

-- `result.unwrap() == s`
abbrev pub gives : String → Result CapError String → Bool
gives s (ok t) = t == s
gives s (err e) = false
