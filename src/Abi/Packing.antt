-- ===== src/Abi/Packing.antt =====
-- crates/tds-abi/src/lib.rs, `pack_ptr_len` and `unpack_ptr_len`: a pointer and a length in the one
-- 64-bit word that `tds_run` returns.
use Prim.Native.Nat.{bit_and, bit_or}
use tds_wasm_ai.Common.{ℕ, ◌+◌, ◌*◌, ◌/◌, ◌%◌, ◌^◌, ◌<◌, ◌≡◌, ap, ◌∙◌, arith}
use tds_wasm_ai.Common.Bits.{or-shifted, and-mask}

-- `((ptr as u64) << 32) | (len as u64)`
unfoldable pub pack_ptr_len : ℕ → ℕ → ℕ
pack_ptr_len ptr len = bit_or (ptr * 2 ^ 32 % 2 ^ 64) len

-- `((packed >> 32) as u32, (packed & 0xffff_ffff) as u32)`
unfoldable pub unpack_ptr_len : ℕ → ℕ × ℕ
unpack_ptr_len packed = (packed / 2 ^ 32 % 2 ^ 32, bit_and packed 0xffff_ffff % 2 ^ 32)

pack-eq-sum :
    (ptr len : ℕ) → ptr < 2 ^ 32 → len < 2 ^ 32 → pack_ptr_len ptr len ≡ ptr * 2 ^ 32 + len
unfolding pack_ptr_len
pack-eq-sum ptr len p l = ap (λ (w : ℕ). bit_or w len) (omega arith) ∙ or-shifted 32 ptr len l

-- A 32-bit pointer and length packed into a word fit in 64 bits, and unpacking gives both back.
pub unpack-pack :
    (ptr len : ℕ)
    → ptr < 2 ^ 32
    → len < 2 ^ 32
    → (pack_ptr_len ptr len < 2 ^ 64) × (unpack_ptr_len (pack_ptr_len ptr len) ≡ (ptr, len))
unfolding unpack_ptr_len
unpack-pack ptr len p l = (
  omega (arith, pack-eq-sum ptr len p l),
  ground (arith, pack-eq-sum ptr len p l, and-mask 32 (pack_ptr_len ptr len)),
)

-- Every 64-bit word is the packing of the pair that it unpacks to, and both parts of the pair are
-- 32-bit numbers.
pack-unpack :
    (packed : ℕ)
    → packed < 2 ^ 64
    → (pack_ptr_len (unpack_ptr_len packed).0 (unpack_ptr_len packed).1 ≡ packed)
      × ((unpack_ptr_len packed).0 < 2 ^ 32)
      × ((unpack_ptr_len packed).1 < 2 ^ 32)
unfolding unpack_ptr_len
pack-unpack packed h = (
  omega (
    arith,
    pack-eq-sum (packed / 2 ^ 32 % 2 ^ 32) (bit_and packed 0xffff_ffff % 2 ^ 32) (omega arith)
        (omega arith),
    and-mask 32 packed,
  ),
  omega arith,
  omega arith,
)
