-- ===== src/Sema/Classes.antt =====
-- The types of a constraint class and the constants of a type: `satisfies` and `hasConstant` of
-- src/sema/type_store.cc, on types that are known.
use mincplus.Prelude.{◌≡◌, ◌↔◌, refl, Bool, true, false, not, ◌||◌, if◌then◌else◌, arith}
use mincplus.Support.Constraint
use mincplus.Support.Constraint.{
  any, eq, ordered, number, integer, constant_zero, constant_one, constant_min, constant_max,
  constant_epsilon, constant_infinity, constant_nan, ConstraintClass, TypeConstant, is_float_only,
  constraint_grants_constant,
}
use mincplus.Sema.Types.{
  Ty, error, bool, char, int_literal, float_literal, int, float, pointer, param, is_error, is_param,
  is_scalar, is_arithmetic, is_integer, is_float, is_pointer, is_deferred,
}

abbrev pub is_member : ConstraintClass → Ty → Bool
is_member any t = true
is_member eq t = is_scalar t
is_member ordered t = is_arithmetic t
is_member number t = is_arithmetic t
is_member integer t = is_integer t
is_member Constraint.float t = is_float t
is_member Constraint.pointer t = is_pointer t

unfoldable pub satisfies : ConstraintClass → Ty → Bool
satisfies klass t = if is_error t || is_param t then true else is_member klass t

unfoldable pub has_constant : Ty → TypeConstant → Bool
has_constant char c = not (is_float_only c)
has_constant (int s b) c = not (is_float_only c)
has_constant (float b) c = true
has_constant _ c = false

-- A type as a program can write it for a type argument.
abbrev pub IsWritten : Ty → Type 0
IsWritten t = (is_error t ≡ false) × (is_param t ≡ false) × (is_deferred t ≡ false)

granted :
    (klass : ConstraintClass) (c : TypeConstant) (t : Ty)
    → constraint_grants_constant klass c ≡ true
    → IsWritten t
    → satisfies klass t ≡ true
    → has_constant t c ≡ true
unfolding constraint_grants_constant satisfies has_constant
granted klass c error h w s = cc
granted klass c (param u o b) h w s = cc
granted klass c int_literal h w s = cc
granted klass c float_literal h w s = cc
granted klass c (float b) h w s = refl
granted any c t h w s = ground arith
granted eq c t h w s = ground arith
granted ordered c t h w s = ground arith
granted number c t h w s = ground arith
granted integer c t h w s = ground arith
granted Constraint.float c t h w s = ground arith
granted Constraint.pointer c t h w s = ground arith

-- A class grants exactly the constants that all types have that satisfy it and are not the poison, a
-- type parameter or a deferred literal.
pub constraint_grants_constant_iff :
    (klass : ConstraintClass) (c : TypeConstant)
    → (constraint_grants_constant klass c ≡ true)
      ↔ ((t : Ty) → IsWritten t → satisfies klass t ≡ true → has_constant t c ≡ true)
unfolding constraint_grants_constant satisfies has_constant
constraint_grants_constant_iff klass c = ((λ h t w s. granted klass c t h w s), all_have klass c)
  where
    all_have :
        (klass : ConstraintClass) (c : TypeConstant)
        → ((t : Ty) → IsWritten t → satisfies klass t ≡ true → has_constant t c ≡ true)
        → constraint_grants_constant klass c ≡ true
    all_have any c f = let b = f bool (refl, refl, refl) refl in cc
    all_have eq c f = let b = f bool (refl, refl, refl) refl in cc
    all_have ordered c f = let b = f (int true 32) (refl, refl, refl) refl in ground arith
    all_have number c f = let b = f (int true 32) (refl, refl, refl) refl in ground arith
    all_have integer c f = let b = f (int true 32) (refl, refl, refl) refl in ground arith
    all_have Constraint.float c f = ground arith
    all_have Constraint.pointer c f = let b = f (pointer bool) (refl, refl, refl) refl in cc
