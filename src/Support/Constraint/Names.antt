-- ===== src/Support/Constraint/Names.antt =====
-- The names of the classes in src/support/constraint/constraint.cc.
use mincplus.Prelude.{
  same_bytes, same_bytes_iff, ℕ, ◌≡◌, ◌↔◌, some, List, [], ◌∷◌, refl, ap, sym, ◌∙◌, arith,
  Bool-cases, inl, inr,
}
use mincplus.Support.Constraint.{
  TypeConstant, constant_zero, constant_one, constant_min, constant_max, constant_epsilon,
  constant_infinity, constant_nan, type_constant_from_name, type_constant_name,
}
use mincplus.Support.Constraint.{
  ConstraintClass, any, eq, ordered, number, integer, float, pointer, Row, rows, class_in,
  constraint_class_from_name, constraint_class_name,
}

named :
    (klass : ConstraintClass)
    → constraint_class_from_name (constraint_class_name klass) ≡ some klass
unfolding constraint_class_from_name
named any = refl
named eq = refl
named ordered = refl
named number = refl
named integer = refl
named float = refl
named pointer = refl

-- Each row has the name of its class.
abbrev WellNamed : List Row → Type 0
WellNamed [] = Unit
WellNamed (r ∷ rs) = (constraint_class_name r.klass ≡ r.name) × WellNamed rs

found :
    (rs : List Row) (name : List ℕ) (klass : ConstraintClass)
    → WellNamed rs
    → class_in rs name ≡ some klass
    → constraint_class_name klass ≡ name
found [] name klass w h = cc
found (r ∷ rs) name klass w h = elim (Bool-cases (same_bytes r.name name)) [
  | inl e ↦
      let here : r.klass ≡ klass = ground (arith, h, e) in
      ap constraint_class_name (sym here) ∙ (w.0 ∙ (same_bytes_iff r.name name).0 e)
  | inr n ↦ found rs name klass w.1 (ground (arith, h, n))
]

-- `constraintClassFromName` finds a class by a name exactly when that is the name which
-- `constraintClassName` gives the class.
pub constraint_class_from_name_iff :
    (name : List ℕ) (klass : ConstraintClass)
    → (constraint_class_from_name name ≡ some klass) ↔ (constraint_class_name klass ≡ name)
unfolding constraint_class_from_name
constraint_class_from_name_iff name klass = (
  found rows name klass (refl, (refl, (refl, (refl, (refl, (refl, (refl, tt))))))),
  λ e. ap constraint_class_from_name (sym e) ∙ named klass,
)

-- `typeConstantFromName` finds every constant by the name that `typeConstantName` gives it.
pub type_constant_from_name-type_constant_name :
    (c : TypeConstant) → type_constant_from_name (type_constant_name c) ≡ some c
unfolding type_constant_from_name type_constant_name
type_constant_from_name-type_constant_name constant_zero = refl
type_constant_from_name-type_constant_name constant_one = refl
type_constant_from_name-type_constant_name constant_min = refl
type_constant_from_name-type_constant_name constant_max = refl
type_constant_from_name-type_constant_name constant_epsilon = refl
type_constant_from_name-type_constant_name constant_infinity = refl
type_constant_from_name-type_constant_name constant_nan = refl
