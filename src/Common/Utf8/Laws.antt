-- ===== src/Common/Utf8/Laws.antt =====
-- A lossy text is at most three times as long as the bytes that it was read from.
use Prim.Native.Char.{Char, code, len_utf8, len_utf8_def}
use Prim.Native.String.{String, ◌∷◌, len}
use Prim.Native.String.len as len_laws
use Prim.Native.Nat.{ℕ, ◌+◌, ◌*◌, ◌≤◌, ◌<◌}
use mathlib.Core.Path.{◌≡◌, refl, ap}
use mathlib.Core.Logic.{◌⊎◌, inl, inr}
use mathlib.Core.Option.{Option, none, some}
use mathlib.Core.List.{List}
use native.Mathlib.Omega.{arith}
use tds_wasm_ai.Common.Tests.{ltb, Bool-cases, tests}
use tds_wasm_ai.Common.Lists.{length}
use tds_wasm_ai.Common.Text.{from_u32}
use tds_wasm_ai.Common.Utf8.{
  Decoder, ready, pending, Advance, emit, go, fail, emit_or_fail, lead, advance, lossy,
  from_utf8_lossy, replacement,
}

len_utf8-le : (c : Char) → len_utf8 c ≤ 4
len_utf8-le c = ground (arith, len_utf8_def c)

len_utf8_ascii : (c : Char) → code c < 128 → len_utf8 c ≡ 1
len_utf8_ascii c h = ground (arith, len_utf8_def c)

code-from_u32 : (n : ℕ) (c : Char) → from_u32 n ≡ some c → code c ≡ n
unfolding from_u32
code-from_u32 n c h = ground arith

emit_or_fail-emit : (o : Option Char) (c : Char) → emit_or_fail o ≡ emit c → o ≡ some c
emit_or_fail-emit none c h = cc
emit_or_fail-emit (some d) c h = cc

-- A first byte that is a character by itself is below 128.
lead-emit : (b : ℕ) (c : Char) → lead b ≡ emit c → len_utf8 c ≡ 1
unfolding lead
lead-emit b c h = elim (Bool-cases (ltb b 0x80)) [
  | inl small ↦
      let read : from_u32 b ≡ some c = emit_or_fail-emit (from_u32 b) c (rw (lead, small) at h) in
      len_utf8_ascii c (omega (tests, code-from_u32 b c read, small))
  | inr large ↦ absurd (ground arith)
]

credit : Decoder → ℕ
credit ready = 0
credit (pending _ _ _ _) = 3

Advance-cases :
    (a : Advance) → ((c : Char) × (a ≡ emit c)) ⊎ ((d : Decoder) × (a ≡ go d)) ⊎ (a ≡ fail)
Advance-cases (emit c) = inl (c, refl)
Advance-cases (go d) = inr (inl (d, refl))
Advance-cases fail = inr (inr refl)

abbrev after : Advance → List ℕ → String
after (emit c) bs = c ∷ lossy ready bs
after (go d) bs = lossy d bs
after fail bs = replacement ∷ lossy ready bs

-- What a step of the decoder adds to the text, where the rest keeps to the bound.
step-le :
    (a : Advance) (bs : List ℕ)
    → ((c : Char) → a ≡ emit c → len_utf8 c ≡ 1)
    → ((d : Decoder) → len (lossy d bs) ≤ 3 * length bs + credit d)
    → len (after a bs) ≤ 3 * length bs + 3
unfolding credit
step-le (emit c) bs small ih =
    omega (arith, len_laws.cons c (lossy ready bs), small c refl, ih ready)
step-le (go ready) bs small ih = omega (arith, ih ready)
step-le (go (pending n acc lo hi)) bs small ih = omega (arith, ih (pending n acc lo hi))
step-le fail bs small ih =
    omega (arith, len_laws.cons replacement (lossy ready bs), len_utf8_def replacement, ih ready)

abbrev resumed : Advance → ℕ → List ℕ → String
resumed (emit c) b bs = c ∷ lossy ready bs
resumed (go d) b bs = lossy d bs
resumed fail b bs = replacement ∷ after (lead b) bs

pending-le :
    (a : Advance) (b : ℕ) (bs : List ℕ)
    → ((d : Decoder) → len (lossy d bs) ≤ 3 * length bs + credit d)
    → len (resumed a b bs) ≤ 3 * length bs + 6
unfolding credit
pending-le (emit c) b bs ih =
    omega (arith, len_laws.cons c (lossy ready bs), len_utf8-le c, ih ready)
pending-le (go ready) b bs ih = omega (arith, ih ready)
pending-le (go (pending n acc lo hi)) b bs ih = omega (arith, ih (pending n acc lo hi))
pending-le fail b bs ih = omega (
  arith,
  len_laws.cons replacement (after (lead b) bs),
  len_utf8_def replacement,
  step-le (lead b) bs (lead-emit b) ih,
)

lossy-ready : (b : ℕ) (bs : List ℕ) → lossy ready (List.◌∷◌ b bs) ≡ after (lead b) bs
unfolding lossy advance
lossy-ready b bs = elim (Advance-cases (lead b)) [
  | inl (c, e) ↦ rw (e, lossy)
  | inr (inl (d, e)) ↦ rw (e, lossy)
  | inr (inr e) ↦ rw (e, lossy)
]

lossy-pending :
    (n acc lo hi b : ℕ) (bs : List ℕ)
    → lossy (pending n acc lo hi) (List.◌∷◌ b bs) ≡ resumed (advance (pending n acc lo hi) b) b bs
unfolding lossy
lossy-pending n acc lo hi b bs = elim (Advance-cases (advance (pending n acc lo hi) b)) [
  | inl (c, e) ↦ rw (e, lossy)
  | inr (inl (d, e)) ↦ rw (e, lossy)
  | inr (inr e) ↦ rw (e, lossy) (ap (λ s. replacement ∷ s) (reread b bs))
]
  where
    reread :
        (b : ℕ) (bs : List ℕ)
        → elim (advance ready b) [
          | emit c ↦ c ∷ lossy ready bs
          | go d ↦ lossy d bs
          | fail ↦ replacement ∷ lossy ready bs
        ]
          ≡ after (lead b) bs
    reread b bs = lossy-ready b bs

lossy-le : (bs : List ℕ) (d : Decoder) → len (lossy d bs) ≤ 3 * length bs + credit d
unfolding lossy credit advance
lossy-le List.[] ready = omega (arith, len_laws.nil)
lossy-le List.[] (pending n acc lo hi) =
    omega (arith, len_laws.cons replacement "", len_laws.nil, len_utf8_def replacement)
lossy-le (List.◌∷◌ b bs) ready =
    rw lossy-ready (omega (arith, step-le (lead b) bs (lead-emit b) (lossy-le bs)))
lossy-le (List.◌∷◌ b bs) (pending n acc lo hi) =
    rw lossy-pending
      (omega (arith, pending-le (advance (pending n acc lo hi) b) b bs (lossy-le bs)))

pub len-from_utf8_lossy-le : (bs : List ℕ) → len (from_utf8_lossy bs) ≤ 3 * length bs
unfolding from_utf8_lossy credit
len-from_utf8_lossy-le bs = omega (arith, lossy-le bs ready)
