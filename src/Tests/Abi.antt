-- ===== src/Tests/Abi.antt =====
-- The unit tests of crates/tds-abi/src/lib.rs that do not concern serde's derives.
use tds_wasm_ai.Common.{◌≡◌, refl, Bool, true, ◌&&◌, eqb}
use tds_wasm_ai.Abi.Packing.{pack_ptr_len, unpack_ptr_len}

unfoldable ptr_len_roundtrips : Bool
ptr_len_roundtrips =
    let (p, l) = unpack_ptr_len (pack_ptr_len 0xdead_beef 4096) in eqb p 0xdead_beef && eqb l 4096

ptr_len_roundtrips_lem : ptr_len_roundtrips ≡ true
unfolding ptr_len_roundtrips pack_ptr_len unpack_ptr_len
ptr_len_roundtrips_lem = refl
