-- ===== src/Common/Bits.antt =====
-- Shifts and masks: the bitwise or of two numbers with no digit in common is their sum, and a mask of
-- `k` ones is a remainder.
use Prim.Native.Nat.{
  ℕ, zero, suc, ◌+◌, ◌-◌, ◌*◌, ◌/◌, ◌%◌, ◌^◌, ◌≤◌, ◌<◌, min, max, bit_and, bit_or, digits,
  bit_and-bitwise, bit_or-bitwise,
}
use mathlib.Core.Path.{◌≡◌, refl, ap}
use native.Mathlib.Nat.{pow-suc, div-add-mod}
use native.Mathlib.Omega.{arith}

-- Any two counts that are large enough give the same digits.
module _ (rest : ℕ → ℕ) (on_digit : ℕ → ℕ → ℕ) where
  abbrev run : ℕ → ℕ → ℕ → ℕ
  run = digits rest on_digit

  run_enough : (m n a b : ℕ) → a ≤ m → a ≤ n → run m a b ≡ run n a b
  run_enough zero zero a b _ _ = refl
  run_enough (suc m) zero zero b _ _ = refl
  run_enough zero (suc n) zero b _ _ = refl
  run_enough (suc m) (suc n) zero b _ _ = refl
  run_enough (suc m) (suc n) (suc a) b p q =
      ap (λ d. d * 2 + on_digit (suc a % 2) (b % 2))
        (run_enough m n (suc a / 2) (b / 2) (omega arith) (omega arith))
  run_enough zero n (suc a) b p q = absurd (omega arith)
  run_enough (suc m) zero (suc a) b p q = absurd (omega arith)

lowest_or : (a b : ℕ) → bit_or a b ≡ bit_or (a / 2) (b / 2) * 2 + max (a % 2) (b % 2)
lowest_or zero b = omega (arith, bit_or-bitwise 0 b, bit_or-bitwise 0 (b / 2))
lowest_or (suc a) b = omega (
  arith,
  bit_or-bitwise (suc a) b,
  bit_or-bitwise (suc a / 2) (b / 2),
  run_enough (λ y. y) max a (suc a / 2) (suc a / 2) (b / 2) (omega arith) (omega arith),
)

lowest_and : (a b : ℕ) → bit_and a b ≡ bit_and (a / 2) (b / 2) * 2 + min (a % 2) (b % 2)
lowest_and zero b = omega (arith, bit_and-bitwise 0 b, bit_and-bitwise 0 (b / 2))
lowest_and (suc a) b = omega (
  arith,
  bit_and-bitwise (suc a) b,
  bit_and-bitwise (suc a / 2) (b / 2),
  run_enough (λ y. 0) min a (suc a / 2) (suc a / 2) (b / 2) (omega arith) (omega arith),
)

or-zero_below : (n a : ℕ) → a ≤ n → bit_or a 0 ≡ a
or-zero_below n zero h = omega (arith, bit_or-bitwise 0 0)
or-zero_below zero (suc a) h = absurd (omega arith)
or-zero_below (suc n) (suc a) h =
    omega (arith, lowest_or (suc a) 0, or-zero_below n (suc a / 2) (omega arith))

and-zero_below : (n a : ℕ) → a ≤ n → bit_and a 0 ≡ 0
and-zero_below n zero h = omega (arith, bit_and-bitwise 0 0)
and-zero_below zero (suc a) h = absurd (omega arith)
and-zero_below (suc n) (suc a) h =
    omega (arith, lowest_and (suc a) 0, and-zero_below n (suc a / 2) (omega arith))

-- A number shifted left by `k` has no digit in common with one below `2 ^ k`.
pub or-shifted : (k a b : ℕ) → b < 2 ^ k → bit_or (a * 2 ^ k) b ≡ a * 2 ^ k + b
or-shifted zero a zero h = omega (arith, or-zero_below (a * 1) (a * 1) (omega arith))
or-shifted zero a (suc b) h = absurd (omega arith)
or-shifted (suc k) a b h = omega (
  arith,
  lowest_or (a * 2 ^ suc k) b,
  or-shifted k a (b / 2) (omega (arith, pow-suc 2 k)),
  ap (λ d. bit_or d (b / 2)) (halved),
  halved,
  doubled,
)
  where
    doubled : a * 2 ^ suc k ≡ a * 2 ^ k * 2
    doubled = omega (arith, ap (λ (d : ℕ). a * d) (pow-suc 2 k))

    halved : a * 2 ^ suc k / 2 ≡ a * 2 ^ k
    halved = omega (arith, doubled)

positive : (k : ℕ) → 0 < 2 ^ k
positive zero = omega arith
positive (suc k) = omega (arith, pow-suc 2 k, positive k)

half_mod : (m a : ℕ) → 0 < m → a % (m * 2) ≡ a / 2 % m * 2 + a % 2
half_mod m a h = grind (arith, div-add-mod (a / 2) m)

-- A mask of `k` ones keeps the remainder.
pub and-mask : (k a : ℕ) → bit_and a (2 ^ k - 1) ≡ a % 2 ^ k
and-mask zero a = omega (arith, and-zero_below a a (omega arith))
and-mask (suc k) a = omega (
  arith,
  lowest_and a (2 ^ suc k - 1),
  ap (λ m. bit_and (a / 2) m) shorter,
  and-mask k (a / 2),
  half_mod (2 ^ k) a (positive k),
  pow-suc 2 k,
  ap (λ m. a % m) (pow-suc 2 k),
  positive k,
)
  where
    shorter : (2 ^ suc k - 1) / 2 ≡ 2 ^ k - 1
    shorter = omega (arith, pow-suc 2 k, positive k)
