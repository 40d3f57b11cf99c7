-- ===== src/Common/Text.antt =====
-- The string operations of the Rust standard library that the sources call, over the native texts.
-- `len`, `slice` and `is_char_boundary` of the library count bytes of the UTF-8, as Rust does.
pub mod Laws
pub mod Split
use Prim.Native.Char.{Char, char, code, IsScalar, nul}
use Prim.Native.String.{String, [], ◌∷◌, ◌++◌}
use Prim.Native.Nat.{ℕ, zero, suc, ◌+◌, ◌/◌, ◌%◌, ◌<◌}
use mathlib.Core.Logic.{dite}
use mathlib.Core.Bool.{Bool, true, false, ◌&&◌, ◌||◌}
use mathlib.Core.Option.{Option, none, some}
use mathlib.Core.List.{List}
use native.Mathlib.Omega.{arith}
use native.Mathlib.Decide.{dec_lt}
use text.Mathlib.Text.{◌==◌}
use tds_wasm_ai.Common.Tests.{ltb, leb, eqb, if◌then◌else◌}

pub low-IsScalar : (n : ℕ) → n < 55296 → IsScalar n
low-IsScalar n h = ground arith

pub high-IsScalar : (n : ℕ) → 57343 < n → n < 1114112 → IsScalar n
high-IsScalar n g h = ground arith

-- `char::from_u32`
unfoldable pub from_u32 : ℕ → Option Char
unfolding dec_lt
from_u32 n =
    dite (dec_lt n 55296) (λ h. some (char n (low-IsScalar n h)))
      λ _.
        dite (dec_lt 57343 n)
          (λ g. dite (dec_lt n 1114112) (λ h. some (char n (high-IsScalar n g h))) (λ _. none))
          (λ _. none)

abbrev or_nul : Option Char → Char
or_nul none = nul
or_nul (some c) = c

-- `char::to_ascii_lowercase`
unfoldable pub lower_char : Char → Char
unfolding from_u32
lower_char c = if leb b'A' (code c) && leb (code c) b'Z' then or_nul (from_u32 (code c + 32)) else c

-- `str::to_ascii_lowercase`
unfoldable pub to_ascii_lowercase : String → String
unfolding lower_char
to_ascii_lowercase [] = []
to_ascii_lowercase (c ∷ s) = lower_char c ∷ to_ascii_lowercase s

-- `char::is_whitespace`: the White_Space property of Unicode.
unfoldable pub is_whitespace : ℕ → Bool
is_whitespace n =
    (leb 9 n && leb n 13)
    || eqb n 32
    || eqb n 0x85
    || eqb n 0xa0
    || eqb n 0x1680
    || (leb 0x2000 n && leb n 0x200a)
    || eqb n 0x2028
    || eqb n 0x2029
    || eqb n 0x202f
    || eqb n 0x205f
    || eqb n 0x3000

-- `str::trim_start`
unfoldable pub trim_start : String → String
unfolding is_whitespace
trim_start [] = []
trim_start (c ∷ s) = if is_whitespace (code c) then trim_start s else c ∷ s

-- A character in front of a text whose trailing white space is gone.
unfoldable pub cons_trimmed : Char → String → String
unfolding is_whitespace
cons_trimmed c [] = if is_whitespace (code c) then [] else c ∷ []
cons_trimmed c (d ∷ s) = c ∷ d ∷ s

-- `str::trim_end`
unfoldable pub trim_end : String → String
unfolding cons_trimmed
trim_end [] = []
trim_end (c ∷ s) = cons_trimmed c (trim_end s)

-- `str::trim`
unfoldable pub trim : String → String
unfolding trim_start trim_end
trim s = trim_end (trim_start s)

-- `str::is_empty`
abbrev pub is_empty_text : String → Bool
is_empty_text [] = true
is_empty_text (c ∷ s) = false

-- `str::strip_prefix`, the prefix first.
unfoldable pub strip_prefix : String → String → Option String
strip_prefix [] s = some s
strip_prefix (p ∷ ps) [] = none
strip_prefix (p ∷ ps) (c ∷ s) = if eqb (code p) (code c) then strip_prefix ps s else none

-- `str::ends_with`, the suffix first: some tail of the text is the suffix.
unfoldable pub ends_with : String → String → Bool
ends_with t [] = t == []
ends_with t (c ∷ s) = (t == (c ∷ s)) || ends_with t s

-- `str::contains`, the part first: some tail of the text begins with it.
unfoldable pub contains : String → String → Bool
unfolding strip_prefix
contains t [] = t == []
contains t (c ∷ s) =
    let later = contains t s in elim (strip_prefix t (c ∷ s)) [ none ↦ later | some rest ↦ true ]

-- `format!`: the pieces of a message one after the other.
unfoldable pub format : List String → String
format List.[] = []
format (List.◌∷◌ p ps) = p ++ format ps

-- `slice::join`
unfoldable pub join : String → List String → String
join sep List.[] = []
join sep (List.◌∷◌ p List.[]) = p
join sep (List.◌∷◌ p (List.◌∷◌ q qs)) = p ++ (sep ++ join sep (List.◌∷◌ q qs))

abbrev digit : ℕ → Char
digit n = or_nul (from_u32 (48 + n % 10))

show_from : ℕ → ℕ → String → String
unfolding from_u32
show_from zero n acc = acc
show_from (suc f) n acc =
    let rest = show_from f (n / 10) (digit n ∷ acc) in if ltb n 10 then digit n ∷ acc else rest

-- `Display` of an unsigned integer: its decimal digits. The number itself is fuel enough, since each
-- round divides it by ten.
unfoldable pub show : ℕ → String
unfolding show_from
show n = show_from (suc n) n []
