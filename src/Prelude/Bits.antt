-- ===== src/Prelude/Bits.antt =====
-- `|` of disjoint fields, as arithmetic.
use Prim.Native.Nat.{min, max, bit_and, bit_and-bitwise, bit_or, digits, bitwise, bit_or-bitwise}
use native.Mathlib.Nat.{pow-suc}
use mincplus.Prelude.{ℕ, zero, suc, ◌+◌, ◌*◌, ◌/◌, ◌%◌, ◌^◌, ◌≤◌, ◌<◌, ◌≡◌, refl, ap, arith}

-- Any two fuels that reach the number give the same digits.
module _ (combine : ℕ → ℕ → ℕ) (beyond : ℕ → ℕ) where
  same_digits :
      (k l m n : ℕ) → (m ≤ k) × (m ≤ l) → digits beyond combine k m n ≡ digits beyond combine l m n
  same_digits k l zero n h = at_zero k l
    where
      at_zero : (k l : ℕ) → digits beyond combine k zero n ≡ digits beyond combine l zero n
      at_zero zero zero = refl
      at_zero zero (suc l) = refl
      at_zero (suc k) zero = refl
      at_zero (suc k) (suc l) = refl
  same_digits zero l (suc m) n h = absurd (omega arith)
  same_digits (suc k) zero (suc m) n h = absurd (omega arith)
  same_digits (suc k) (suc l) (suc m) n h =
      rw (same_digits k l (suc m / 2) (n / 2) (omega arith, omega arith))

  bitwise_lowest :
      (m n : ℕ)
      → combine (suc m % 2) (n % 2) + 2 * bitwise beyond combine (suc m / 2) (n / 2)
        ≡ bitwise beyond combine (suc m) n
  bitwise_lowest m n =
      let halves = same_digits m (suc m / 2) (suc m / 2) (n / 2) (omega arith, omega arith) in
      omega (arith, halves)

bit_or_lowest : (m n : ℕ) → max (m % 2) (n % 2) + 2 * bit_or (m / 2) (n / 2) ≡ bit_or m n
bit_or_lowest zero n = simp bit_or-bitwise (omega arith)
bit_or_lowest (suc m) n = simp bit_or-bitwise (bitwise_lowest max (λ d. d) m n)

pub zero-bit_or : (b : ℕ) → bit_or 0 b ≡ b
zero-bit_or b = bit_or-bitwise 0 b

pow-suc_double : (q k : ℕ) → 2 * (q * 2 ^ k) ≡ q * 2 ^ suc k
pow-suc_double q k = omega (arith, ap (λ (power : ℕ). power * q) (pow-suc 2 k))

-- A number below 2 ^ k and a multiple of 2 ^ k have no bit in common.
pub bit_or_high : (k x q : ℕ) → x < 2 ^ k → bit_or x (q * 2 ^ k) ≡ x + q * 2 ^ k
bit_or_high zero zero q h = omega (arith, zero-bit_or (q * 2 ^ 0))
bit_or_high zero (suc x) q h = absurd (omega arith)
bit_or_high (suc k) x q h = ground (
  arith,
  pow-suc 2 k,
  pow-suc_double q k,
  bit_or_lowest x (q * 2 ^ suc k),
  bit_or_high k (x / 2) q (omega (arith, pow-suc 2 k)),
)

bit_and_lowest : (m n : ℕ) → min (m % 2) (n % 2) + 2 * bit_and (m / 2) (n / 2) ≡ bit_and m n
bit_and_lowest zero n = simp bit_and-bitwise (omega arith)
bit_and_lowest (suc m) n = simp bit_and-bitwise (bitwise_lowest min (λ d. 0) m n)

bit_and_nothing : (fuel x : ℕ) → x ≤ fuel → bit_and x 0 ≡ 0
bit_and_nothing fuel zero h = bit_and-bitwise 0 0
bit_and_nothing zero (suc x) h = absurd (omega arith)
bit_and_nothing (suc fuel) (suc x) h =
    omega (arith, bit_and_lowest (suc x) 0, bit_and_nothing fuel (suc x / 2) (omega arith))

bit_and_seven : (x : ℕ) → bit_and x 7 ≡ x % 8
bit_and_seven x = omega (
  arith,
  bit_and_lowest x 7,
  bit_and_lowest (x / 2) 3,
  bit_and_lowest (x / 2 / 2) 1,
  bit_and_nothing (x / 2 / 2 / 2) (x / 2 / 2 / 2) (omega arith),
)

-- `&` with the mask of the lowest six bits.
pub bit_and_low_six : (x : ℕ) → bit_and x 0x3f ≡ x % 64
bit_and_low_six x = omega (
  arith,
  bit_and_lowest x 63,
  bit_and_lowest (x / 2) 31,
  bit_and_lowest (x / 2 / 2) 15,
  bit_and_seven (x / 2 / 2 / 2),
)
