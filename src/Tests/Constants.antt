-- ===== src/Tests/Constants.antt =====
-- The theorems on constants and spans at fixed inputs.
use mincplus.Prelude.{ℕ, List, ◌+◌, [], ◌∷◌, ◌≡◌, ◌≤◌, ◌-◌, ◌^◌, refl, true, false, some, arith}
use mathlib.Core.Option
use mincplus.Support.ConstInt
use mincplus.Support.ConstInt.{
  ConstInt, divide, remainder, mul, shift_right, signed_value, from_signed, negate, bit_not,
}
use mincplus.Support.ConstInt.Division.{divide-remainder}
use mincplus.Support.ConstInt.Shift.{floor_shift, shift_right_signed}
use mincplus.Support.Constraint.{
  Operation, ConstraintClass, TypeConstant, IntConstant, constraint_grants,
  constraint_for_operation, integer_constant_value, constraint_class_from_name,
  constraint_class_name, constant_max,
}
use mincplus.Support.Constraint
use mincplus.Support.Constraint.Least.{constraint_for_operation_least}
use mincplus.Support.Constraint.Least
use mincplus.Support.LineTable.{line_text, at, rebuild, lookup}
use mincplus.Support.LineTable.Lookup.{IsLast, clamp, lookup-rebuild}
use mincplus.Support.Span.{Span}

abbrev seven : ConstInt
seven = record { bits = 7; is_unsigned = false }

abbrev minus_two : ConstInt
minus_two = record { bits = 2 ^ 64 - 2; is_unsigned = false }

abbrev unsigned_two : ConstInt
unsigned_two = record { bits = 2; is_unsigned = true }

-- 7 / -2 is -3 and 7 % -2 is 1.
divide-remainder_example :
    (ConstInt.add
      (mul (record { bits = 2 ^ 64 - 3; is_unsigned = false }) minus_two)
      (record { bits = 1; is_unsigned = false })).bits
    ≡ 7
unfolding divide remainder
divide-remainder_example = divide-remainder seven minus_two (omega arith) (omega arith) refl refl

shift_right_signed_example :
    (Option.map signed_value (shift_right minus_two unsigned_two)
      ≡ some (floor_shift (signed_value minus_two) 2))
    × (Option.map (λ r. r.is_unsigned) (shift_right minus_two unsigned_two) ≡ some false)
shift_right_signed_example =
    shift_right_signed minus_two unsigned_two (omega arith) refl (omega arith)

abbrev early : Span
early = record { file = 1; begin = 3; end = 5 }

abbrev late : Span
late = record { file = 1; begin = 8; end = 12 }

-- `+` is granted by Integer.
constraint_for_operation_least_example :
    (constraint_grants (constraint_for_operation Constraint.add) Constraint.add ≡ true)
    × (Least.size (constraint_for_operation Constraint.add) ≤ Least.size Constraint.integer)
unfolding constraint_grants
constraint_for_operation_least_example =
    constraint_for_operation_least Constraint.add Constraint.integer refl

-- The greatest value of an i65.
abbrev i65_max : IntConstant
i65_max = record { low = 2 ^ 64 - 1; high = 0; is_unsigned = false }

-- Two lines, the first ended by CR and LF.
abbrev two_lines : List ℕ
two_lines = b'a' ∷ 13 ∷ 10 ∷ b'b' ∷ []

-- The `b` is in the second line.
lookup-rebuild_example :
    let r = lookup (rebuild two_lines) 3 4 in
    (1 ≤ r.line)
    × IsLast (rebuild two_lines) (clamp 3 4) (r.line - 1)
    × (at (rebuild two_lines) (r.line - 1) + r.col ≡ clamp 3 4 + 1)
lookup-rebuild_example = lookup-rebuild two_lines 3 (omega arith)

second_line : lookup (rebuild two_lines) 3 4 ≡ record { line = 2; col = 1 }
unfolding lookup rebuild
second_line = refl

first_text : line_text (rebuild two_lines) two_lines 1 ≡ some (b'a' ∷ [])
unfolding line_text rebuild
first_text = refl
