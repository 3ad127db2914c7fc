-- ===== src/Support/Constraint/Least.antt =====
-- Which class `constraintForOperation` and `constraintForConstant` of
-- src/support/constraint/constraint.cc name.
use mincplus.Prelude.{ℕ, ◌≤◌, ◌≡◌, Bool, true, ◌&&◌, not, ◌||◌, leb, refl, arith}
use mincplus.Support.Constraint.{
  Operation, add, sub, mul, div, remainder, negate, increment, bitwise_and, bitwise_or, bitwise_xor,
  bitwise_not, shift_left, shift_right, less, less_equal, greater, greater_equal, equal, not_equal,
  logical_not, logical_and, logical_or, condition, ConstraintClass, any, eq, ordered, number,
  integer, float, pointer, TypeConstant, constraint_grants, constraint_for_operation, popcount,
  row_of, constraint_for_constant, constraint_grants_constant,
}

-- How many operations a class grants.
abbrev pub size : ConstraintClass → ℕ
size klass = popcount 64 (row_of klass).grants

-- What the answer for an operation has to do with one class.
abbrev suits : Operation → ConstraintClass → Bool
suits op klass =
    let best = constraint_for_operation op in
    not (constraint_grants klass op) || constraint_grants best op && leb (size best) (size klass)

abbrev suits_all : Operation → Bool
suits_all op =
    suits op any
    && (suits op eq
        && (suits op ordered
            && (suits op number && (suits op integer && (suits op float && suits op pointer)))))

suits_every : (op : Operation) → suits_all op ≡ true
unfolding constraint_grants constraint_for_operation
suits_every add = refl
suits_every sub = refl
suits_every mul = refl
suits_every div = refl
suits_every remainder = refl
suits_every negate = refl
suits_every increment = refl
suits_every bitwise_and = refl
suits_every bitwise_or = refl
suits_every bitwise_xor = refl
suits_every bitwise_not = refl
suits_every shift_left = refl
suits_every shift_right = refl
suits_every less = refl
suits_every less_equal = refl
suits_every greater = refl
suits_every greater_equal = refl
suits_every equal = refl
suits_every not_equal = refl
suits_every logical_not = refl
suits_every logical_and = refl
suits_every logical_or = refl
suits_every condition = refl

suits_each : (op : Operation) (klass : ConstraintClass) → suits op klass ≡ true
suits_each op any = ground (arith, suits_every op)
suits_each op eq = ground (arith, suits_every op)
suits_each op ordered = ground (arith, suits_every op)
suits_each op number = ground (arith, suits_every op)
suits_each op integer = ground (arith, suits_every op)
suits_each op float = ground (arith, suits_every op)
suits_each op pointer = ground (arith, suits_every op)

-- Where some class grants an operation, `constraintForOperation` names a class that grants it, and
-- no class that grants it grants fewer operations.
pub constraint_for_operation_least :
    (op : Operation) (klass : ConstraintClass)
    → constraint_grants klass op ≡ true
    → (constraint_grants (constraint_for_operation op) op ≡ true)
      × (size (constraint_for_operation op) ≤ size klass)
unfolding constraint_grants constraint_for_operation
constraint_for_operation_least op klass h = ground (arith, suits_each op klass)

-- The class that `constraintForConstant` names has the constant, and a class that has it too grants
-- no fewer operations.
pub constraint_for_constant_least :
    (c : TypeConstant) (klass : ConstraintClass)
    → constraint_grants_constant klass c ≡ true
    → (constraint_grants_constant (constraint_for_constant c) c ≡ true)
      × (size (constraint_for_constant c) ≤ size klass)
unfolding constraint_grants_constant constraint_for_constant
constraint_for_constant_least c any h = ground arith
constraint_for_constant_least c eq h = ground arith
constraint_for_constant_least c ordered h = ground arith
constraint_for_constant_least c number h = ground arith
constraint_for_constant_least c integer h = ground arith
constraint_for_constant_least c float h = ground arith
constraint_for_constant_least c pointer h = ground arith
