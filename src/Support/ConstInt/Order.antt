-- ===== src/Support/ConstInt/Order.antt =====
-- `compare` of src/support/consteval/const_int.cc against the order of the integers that the bits
-- stand for.
use mincplus.Prelude.{◌≡◌, Bool, true, false, ◌||◌, arith, ◌↔◌}
use mincplus.Prelude.Int.{ℤ, pos, negsuc, ◌-ℤ◌, sign}
use mincplus.Support.ConstInt.{ConstInt, InRange, to_signed, compare, equal}

-- How C reads the operand once the usual conversions have made both sides unsigned, or neither.
abbrev pub read_as : Bool → ConstInt → ℤ
read_as true a = pos a.bits
read_as false a = to_signed a.bits

-- On two words `compare` is the sign of the difference of the operands, both read as unsigned when either is.
pub compare-sign :
    (a b : ConstInt)
    → InRange a
    → InRange b
    → let unsigned = a.is_unsigned || b.is_unsigned in
      compare a b ≡ sign (read_as unsigned a -ℤ read_as unsigned b)
unfolding compare ◌-ℤ◌
compare-sign a b va vb = ground arith

-- On two words `compare` is zero exactly where `equal` holds, and it is -1 exactly where it is 1
-- with the operands swapped.
pub compare_laws :
    (a b : ConstInt)
    → InRange a
    → InRange b
    → ((compare a b ≡ pos 0) ↔ (equal a b ≡ true))
      × ((compare a b ≡ negsuc 0) ↔ (compare b a ≡ pos 1))
unfolding compare equal
compare_laws a b va vb = ground arith
