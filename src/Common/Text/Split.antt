-- ===== src/Common/Text/Split.antt =====
-- The operations of the Rust standard library that cut a text: `lines`, `split_once` at white space and
-- `trim_end_matches` of a character.
use Prim.Native.Char.{Char, code}
use Prim.Native.String.{String, [], ◌∷◌}
use mathlib.Core.Bool.{Bool, false, ◌&&◌}
use mathlib.Core.Option.{Option, none, some}
use mathlib.Core.List.{List}
use tds_wasm_ai.Common.Tests.{eqb, if◌then◌else◌}
use tds_wasm_ai.Common.Text.{is_whitespace}

-- A character in front of the first line.
unfoldable pub onto_first : Char → List String → List String
onto_first c List.[] = List.◌∷◌ (c ∷ []) List.[]
onto_first c (List.◌∷◌ l ls) = List.◌∷◌ (c ∷ l) ls

unfoldable pub begins_with_newline : String → Bool
begins_with_newline [] = false
begins_with_newline (c ∷ s) = eqb (code c) 10

-- `str::lines`: a line ends at `\n` or `\r\n`, and nothing after the last of these is no line.
unfoldable pub lines : String → List String
unfolding onto_first begins_with_newline
lines [] = List.[]
lines (c ∷ s) =
    if eqb (code c) 10
    then List.◌∷◌ [] (lines s)
    else if eqb (code c) 13 && begins_with_newline s
    then lines s
    else onto_first c (lines s)

-- `split_once(char::is_whitespace)`
unfoldable pub split_once_space : String → Option (String × String)
unfolding is_whitespace
split_once_space [] = none
split_once_space (c ∷ s) =
    if is_whitespace (code c)
    then some ([], s)
    else elim (split_once_space s) [ none ↦ none | some (a, b) ↦ some (c ∷ a, b) ]

unfoldable pub cons_unless_slash : Char → String → String
cons_unless_slash c [] = if eqb (code c) 47 then [] else c ∷ []
cons_unless_slash c (d ∷ s) = c ∷ d ∷ s

-- `trim_end_matches('/')`
unfoldable pub trim_end_slashes : String → String
unfolding cons_unless_slash
trim_end_slashes [] = []
trim_end_slashes (c ∷ s) = cons_unless_slash c (trim_end_slashes s)
