-- ===== src/Common/Utf8.antt =====
-- The bytes of a text, and `String::from_utf8` and `String::from_utf8_lossy` of the standard library.
-- The decoder reads a byte at a time; it accepts no overlong form and no surrogate, and the lossy form
-- writes one replacement character for each maximal ill-formed part, as the standard library documents.
pub mod Laws
use Prim.Native.Char.{Char, char, code}
use Prim.Native.String.{String, [], ◌∷◌}
use Prim.Native.Nat.{ℕ, ◌+◌, ◌-◌, ◌*◌, ◌/◌, ◌%◌}
use mathlib.Core.Bool.{◌&&◌}
use mathlib.Core.Option.{Option, none, some}
use mathlib.Core.Option
use mathlib.Core.List.{List, ◌++◌}
use tds_wasm_ai.Common.Tests.{ltb, leb, eqb, if◌then◌else◌}
use tds_wasm_ai.Common.Text.{from_u32}

-- The bytes of one scalar value.
unfoldable pub encode_scalar : ℕ → List ℕ
encode_scalar n =
    if ltb n 0x80
    then List.◌∷◌ n List.[]
    else if ltb n 0x800
    then List.◌∷◌ (0xc0 + n / 64) (List.◌∷◌ (0x80 + n % 64) List.[])
    else if ltb n 0x10000
    then List.◌∷◌ (0xe0 + n / 4096)
        (List.◌∷◌ (0x80 + n / 64 % 64) (List.◌∷◌ (0x80 + n % 64) List.[]))
    else List.◌∷◌ (0xf0 + n / 262144) (
        List.◌∷◌ (0x80 + n / 4096 % 64)
          (List.◌∷◌ (0x80 + n / 64 % 64) (List.◌∷◌ (0x80 + n % 64) List.[])))

-- `str::as_bytes`
unfoldable pub as_bytes : String → List ℕ
unfolding encode_scalar
as_bytes [] = List.[]
as_bytes (c ∷ s) = encode_scalar (code c) ++ as_bytes s

-- Between two characters, or inside one: the bytes left, the value so far, and the range that the next
-- byte must lie in.
pub data Decoder : Type 0 where
  ready : Decoder
  pending : ℕ → ℕ → ℕ → ℕ → Decoder

pub data Advance : Type 0 where
  emit : Char → Advance
  go : Decoder → Advance
  fail : Advance

abbrev pub emit_or_fail : Option Char → Advance
emit_or_fail none = fail
emit_or_fail (some c) = emit c

-- The first byte of a character.
unfoldable pub lead : ℕ → Advance
unfolding from_u32
lead b =
    if ltb b 0x80
    then emit_or_fail (from_u32 b)
    else if leb 0xc2 b && leb b 0xdf
    then go (pending 1 (b - 0xc0) 0x80 0xbf)
    else if eqb b 0xe0
    then go (pending 2 0 0xa0 0xbf)
    else if eqb b 0xed
    then go (pending 2 13 0x80 0x9f)
    else if leb 0xe1 b && leb b 0xef
    then go (pending 2 (b - 0xe0) 0x80 0xbf)
    else if eqb b 0xf0
    then go (pending 3 0 0x90 0xbf)
    else if leb 0xf1 b && leb b 0xf3
    then go (pending 3 (b - 0xf0) 0x80 0xbf)
    else if eqb b 0xf4
    then go (pending 3 4 0x80 0x8f)
    else fail

unfoldable pub advance : Decoder → ℕ → Advance
unfolding lead
advance ready b = lead b
advance (pending left acc lo hi) b =
    if leb lo b && leb b hi
    then if leb left 1
      then emit_or_fail (from_u32 (acc * 64 + b % 64))
      else go (pending (left - 1) (acc * 64 + b % 64) 0x80 0xbf)
    else fail

unfoldable pub decode : Decoder → List ℕ → Option String
decode ready List.[] = some []
decode (pending _ _ _ _) List.[] = none
decode d (List.◌∷◌ b bs) = elim (advance d b) [
  | emit c ↦ Option.map (λ s. c ∷ s) (decode ready bs)
  | go d' ↦ decode d' bs
  | fail ↦ none
]

-- `String::from_utf8`, the error dropped.
unfoldable pub from_utf8 : List ℕ → Option String
from_utf8 bs = decode ready bs

-- U+FFFD
abbrev pub replacement : Char
replacement = char 0xfffd tt

unfoldable pub lossy : Decoder → List ℕ → String
lossy ready List.[] = []
lossy (pending _ _ _ _) List.[] = replacement ∷ []
lossy ready (List.◌∷◌ b bs) = elim (advance ready b) [
  | emit c ↦ c ∷ lossy ready bs
  | go d ↦ lossy d bs
  | fail ↦ replacement ∷ lossy ready bs
]
lossy (pending left acc lo hi) (List.◌∷◌ b bs) = elim (advance (pending left acc lo hi) b) [
  | emit c ↦ c ∷ lossy ready bs
  | go d ↦ lossy d bs
  | fail ↦ replacement ∷ elim (advance ready b) [
    | emit c ↦ c ∷ lossy ready bs
    | go d ↦ lossy d bs
    | fail ↦ replacement ∷ lossy ready bs
  ]
]

-- `String::from_utf8_lossy`
unfoldable pub from_utf8_lossy : List ℕ → String
from_utf8_lossy bs = lossy ready bs
