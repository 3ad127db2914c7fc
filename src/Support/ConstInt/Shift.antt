-- ===== src/Support/ConstInt/Shift.antt =====
-- Shifts of src/support/consteval/const_int.cc: what they compute, and when they refuse.
use Prim.Native.Nat.{bit_or}
use native.Mathlib.Nat.{div-lt_iff_lt-mul, div-le_self}
use mathlib.Core.Option
use mincplus.Prelude.{subst, ℕ, ◌+◌, ◌-◌, ◌*◌, ◌/◌, ◌%◌, ◌^◌, ◌≤◌, ◌<◌, ◌≡◌, false, some, arith}
use mincplus.Prelude.Int.{ℤ, pos, negsuc}
use mincplus.Prelude.Bits.{bit_or_high}
use mincplus.Prelude.Powers.{pow_split, two-pow-pos, complement_div}
use mincplus.Support.ConstInt.{ConstInt, InRange, signed_value, shift_right, sign_mask}

-- Division by 2 ^ k that rounds towards negative infinity.
abbrev pub floor_shift : ℤ → ℕ → ℤ
floor_shift (pos n) k = pos (n / 2 ^ k)
floor_shift (negsuc n) k = negsuc (n / 2 ^ k)

mask_arith : (r q : ℕ) → (r + 1) * q ≡ 2 ^ 64 → 0 < q → (2 ^ 64 - 1) * q % 2 ^ 64 ≡ r * q
mask_arith r q e hq = omega arith

ones_and_one : (k : ℕ) → k ≤ 64 → (2 ^ k - 1 + 1) * 2 ^ (64 - k) ≡ 2 ^ 64
ones_and_one k h =
    let e : 2 ^ k - 1 + 1 ≡ 2 ^ k = omega (arith, two-pow-pos k) in rw e (pow_split 64 k h)

sign_mask_high : (k : ℕ) → k ≤ 64 → sign_mask k ≡ (2 ^ k - 1) * 2 ^ (64 - k)
unfolding sign_mask
sign_mask_high k h = mask_arith (2 ^ k - 1) (2 ^ (64 - k)) (ones_and_one k h) (two-pow-pos (64 - k))

quotient_fits : (k x : ℕ) → k ≤ 64 → x < 2 ^ 64 → x / 2 ^ k < 2 ^ (64 - k)
quotient_fits k x h l = (div-lt_iff_lt-mul (two-pow-pos k)).1 (omega (arith, pow_split 64 k h))

complement_arith :
    (r q d c : ℕ)
    → (r + 1) * q ≡ 2 ^ 64
    → d < q
    → c ≡ q - 1 - d
    → (d + r * q < 2 ^ 64) × (2 ^ 64 - 1 - (d + r * q) ≡ c)
complement_arith r q d c e h f = omega arith

-- The bits that an arithmetic shift of a negative number leaves.
shifted_in :
    (k x : ℕ)
    → k ≤ 64
    → x < 2 ^ 64
    → let y = bit_or (x / 2 ^ k) (sign_mask k) in
      (y < 2 ^ 64) × (2 ^ 64 - 1 - y ≡ (2 ^ 64 - 1 - x) / 2 ^ k)
shifted_in k x h l =
    let fits = quotient_fits k x h l in
    let whole = pow_split 64 k h in
    rw (sign_mask_high k h, bit_or_high (64 - k) (x / 2 ^ k) (2 ^ k - 1) fits)
      (complement_arith (2 ^ k - 1) (2 ^ (64 - k)) (x / 2 ^ k) _ (ones_and_one k h) fits (
        subst (λ (t : ℕ). (t - 1 - x) / 2 ^ k ≡ 2 ^ (64 - k) - 1 - x / 2 ^ k) whole
          (complement_div (2 ^ k) (2 ^ (64 - k)) x (two-pow-pos k) (omega (arith, whole)))))

-- `>>` of a signed word by a count below the width is its division by 2 ^ count, rounded towards
-- negative infinity, and the result is signed again.
pub shift_right_signed :
    (a b : ConstInt)
    → InRange a
    → a.is_unsigned ≡ false
    → b.bits < 64
    → (Option.map signed_value (shift_right a b) ≡ some (floor_shift (signed_value a) b.bits))
      × (Option.map (λ r. r.is_unsigned) (shift_right a b) ≡ some false)
unfolding shift_right signed_value
shift_right_signed a b v s h = (
  ground (
    arith,
    shifted_in b.bits a.bits,
    div-le_self a.bits (2 ^ b.bits),
    div-le_self (2 ^ 64 - 1 - a.bits) (2 ^ b.bits),
  ),
  ground arith,
)
