-- ===== src/Support/ConstInt/Arithmetic.antt =====
-- The wrapping operations of include/support/consteval/const_int.h against the exact ones.
use mincplus.Prelude.{◌-◌, ◌^◌, ◌≡◌, false, arith}
use mincplus.Prelude.Int.{ℤ, pos, ◌-ℤ◌, ◌+ℤ◌, ◌≤ℤ◌}
use mincplus.Support.ConstInt.{
  ConstInt, InRange, signed_value, int64_min, add, sub, negate, bit_not, from_signed,
}

-- The integers that an std::int64_t holds.
abbrev pub IsInt64 : ℤ → Type 0
IsInt64 x = (int64_min ≤ℤ x) × (x ≤ℤ pos (2 ^ 63 - 1))

-- Where the exact sum of the signed readings of two words fits in 64 bits, `add` gives it.
pub add_exact :
    (a b : ConstInt)
    → InRange a
    → InRange b
    → IsInt64 (signed_value a +ℤ signed_value b)
    → signed_value (add a b) ≡ signed_value a +ℤ signed_value b
unfolding add signed_value ◌+ℤ◌
add_exact a b va vb h = ground arith

-- Where the exact difference of the signed readings of two words fits in 64 bits, `sub` gives it.
pub sub_exact :
    (a b : ConstInt)
    → InRange a
    → InRange b
    → IsInt64 (signed_value a -ℤ signed_value b)
    → signed_value (sub a b) ≡ signed_value a -ℤ signed_value b
unfolding sub signed_value ◌-ℤ◌
sub_exact a b va vb h = ground arith

-- Every std::int64_t comes back from the bits that `fromSigned` makes of it.
pub signed_value-from_signed : (x : ℤ) → IsInt64 x → signed_value (from_signed x) ≡ x
unfolding from_signed signed_value
signed_value-from_signed x h = ground arith

-- `negate` of a word adds up with it to zero, is one more than `bitNot`, and undoes itself.
pub negate_laws :
    (a : ConstInt)
    → InRange a
    → ((add a (negate a)).bits ≡ 0)
      × ((negate a).bits ≡ (add (bit_not a) (record { bits = 1; is_unsigned = false })).bits)
      × (negate (negate a) ≡ a)
unfolding add negate bit_not
negate_laws a h = ground arith
