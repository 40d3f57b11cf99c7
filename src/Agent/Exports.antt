-- ===== src/Agent/Exports.antt =====
-- crates/tds-agent/src/lib.rs, the exports `tds_alloc`, `tds_dealloc` and `tds_run`. The allocator of the
-- guest's memory is a parameter.
use tds_wasm_ai.Common.{
  ℕ, ◌-◌, ◌%◌, ◌^◌, ◌<◌, ◌≡◌, ◌||◌, ◌⊎◌, inl, inr, Bool-cases, List, [], ◌∷◌, length, eqb, leb,
  if◌then◌else◌, ok, err, arith,
}
use tds_wasm_ai.Common.Text.{format}
use tds_wasm_ai.Common.Utf8.{as_bytes}
use tds_wasm_ai.External.{Json}
use tds_wasm_ai.Wire.{Wire}
use tds_wasm_ai.Abi.Types.{abi_version, AgentOutput, error, no_usage}
use tds_wasm_ai.Abi.Packing.{pack_ptr_len, unpack_ptr_len, unpack-pack}
use tds_wasm_ai.Common.Int.{ℤ}
use tds_wasm_ai.Agent.Imports.{Imports}
use tds_wasm_ai.Agent.Loop.{run_agent}

-- The allocator and the bytes of the guest's memory, for layouts of alignment 1.
pub record Heap (S : Type 0) : Type 0 where
  pub alloc : ℕ → S → ℕ × S
  pub dealloc : (ptr len : ℕ) → S → S
  pub copy : (bytes : List ℕ) (ptr : ℕ) → S → S

abbrev pub tds_abi_version : ℤ
tds_abi_version = abi_version

module _ {S : Type 0} (heap : Heap S) where
  -- A layout of more than `isize::MAX` bytes, 2^31 - 1 in the guest, is an error.
  unfoldable pub tds_alloc : ℕ → S → ℕ × S
  tds_alloc len s =
      if eqb len 0 then (1, s) else if leb len (2 ^ 31 - 1) then heap.alloc len s else (0, s)

  unfoldable pub tds_dealloc : ℕ → ℕ → S → S
  tds_dealloc ptr len s =
      if eqb ptr 0 || eqb ptr 1 || eqb len 0
      then s
      else if leb len (2 ^ 31 - 1)
      then heap.dealloc ptr len s
      else s

  unfoldable pub leak_to_host : List ℕ → S → ℕ × S
  leak_to_host bytes s =
      let len = length bytes % 2 ^ 32 in
      let (out, t) = tds_alloc len s in
      if eqb out 0 then (pack_ptr_len 0 0, t) else (pack_ptr_len out len, heap.copy bytes out t)

  -- For a result of fewer than 2^32 bytes and an allocator that gives 32-bit addresses, the word
  -- that `leak_to_host` returns unpacks to the address that `tds_alloc` gave and the length of the
  -- result, or to a null pair if it gave none.
  unpack-leak_to_host :
      (bytes : List ℕ) (s : S)
      → length bytes < 2 ^ 32
      → (tds_alloc (length bytes) s).0 < 2 ^ 32
      → (((tds_alloc (length bytes) s).0 ≡ 0) × (unpack_ptr_len (leak_to_host bytes s).0 ≡ (0, 0)))
        ⊎ (unpack_ptr_len (leak_to_host bytes s).0 ≡ ((tds_alloc (length bytes) s).0, length bytes))
  unfolding leak_to_host
  unpack-leak_to_host bytes s short word =
      elim (Bool-cases (eqb (tds_alloc (length bytes) s).0 0)) [
        | inl out ↦ inl (
          ground arith,
          rw (leak_to_host, small, out) (unpack-pack 0 0 (omega arith) (omega arith)).1,
        )
        | inr fine ↦
            inr rw (leak_to_host, small, fine)
              (unpack-pack (tds_alloc (length bytes) s).0 (length bytes) word short).1
      ]
    where
      small : length bytes % 2 ^ 32 ≡ length bytes
      small = omega (arith, short)

module _ {V S : Type 0} (json : Json V) (wire : Wire V) (host : Imports S) (heap : Heap S) where
  unfoldable pub run_input : List ℕ → S → AgentOutput V × S
  run_input bytes s = elim (wire.agent_input.decode bytes) [
    | ok input ↦ run_agent json wire host input s
    | err e ↦ (
      record {
        answer = format ("could not parse agent input: " ∷ e ∷ []);
        steps = 0;
        stop = error;
        tool_calls = [];
        usage = no_usage;
      },
      s,
    )
  ]

  -- `tds_run` on the bytes that its arguments point to.
  unfoldable pub tds_run : List ℕ → S → ℕ × S
  tds_run bytes s =
      let (output, t) = run_input bytes s in
      let fallback =
        as_bytes "{\"answer\":\"serialization failed\",\"steps\":0,\"stop\":\"error\"}" in
      let bytes : List ℕ = elim (wire.agent_output.encode output) [
        | ok encoded ↦ encoded
        | err _ ↦ fallback
      ] in
      leak_to_host heap bytes t
