-- ===== src/Sema/Convert/Relation.antt =====
-- `convertible` of src/sema/convert.cc as a relation, and its tie to `narrows`.
use mincplus.Prelude.{◌≡◌, ◌↔◌, refl, Bool, true, false, ◌||◌, arith, inl, inr, Bool-cases}
use mincplus.Sema.Types.{
  Ty, error, void, never, char, int_literal, float_literal, int, float, pointer, same, is_void,
}
use mincplus.Sema.Types.Equality.{same_iff, same_refl}
use mincplus.Sema.Convert.{convertible, float_side, integer_side}

-- The implicit conversions as rules, independently of the order in which the code asks.
pub data Converts : Ty → Ty → Type 0 where
  from_error : {b : Ty} → Converts error b
  to_error : {a : Ty} → Converts a error
  here : {a : Ty} → Converts a a
  from_never : {b : Ty} → Converts never b
  forget : {a : Ty} → Converts (pointer a) (pointer void)
  recall : {b : Ty} → Converts (pointer void) (pointer b)
  integers : {a b : Ty} → integer_side a ≡ true → integer_side b ≡ true → Converts a b
  floats : {a b : Ty} → float_side a ≡ true → float_side b ≡ true → Converts a b

-- A `true` is never a `false`.
clash : {A : Type 0} {b : Bool} → b ≡ true → b ≡ false → A
clash h k = cc

pointers :
    (a b : Ty) → same a b || (is_void a || is_void b) ≡ true → Converts (pointer a) (pointer b)
pointers a b h = elim (Bool-cases (same a b)) [
  | inl e ↦ rw ((same_iff a b).0 e) here
  | inr n ↦ elim (Bool-cases (is_void a)) [
    | inl v ↦ rw (only_void a v) recall
    | inr w ↦ rw (only_void b (ground arith)) forget
  ]
]
  where
    only_void : (t : Ty) → is_void t ≡ true → t ≡ void
    only_void void h = refl
    only_void _ h = cc

distinct : (a b : Ty) → same a b ≡ false → convertible a b ≡ true → Converts a b
unfolding convertible
distinct error b n h = from_error
distinct never b n h = from_never
distinct a error n h = to_error
distinct (pointer a) (pointer b) n h = pointers a b (ground arith)
distinct (int s b) (int t c) n h = integers refl refl
distinct (float b) (float c) n h = floats refl refl
distinct (int s b) char n h = integers refl refl
distinct (int s b) int_literal n h = integers refl refl
distinct char (int t c) n h = integers refl refl
distinct char char n h = integers refl refl
distinct char int_literal n h = integers refl refl
distinct int_literal (int t c) n h = integers refl refl
distinct int_literal char n h = integers refl refl
distinct int_literal int_literal n h = integers refl refl
distinct (float b) float_literal n h = floats refl refl
distinct float_literal (float c) n h = floats refl refl
distinct float_literal float_literal n h = floats refl refl
distinct _ _ n h = absurd (ground arith)

numbers : (a b : Ty) → (integer_side a ≡ true) × (integer_side b ≡ true) → convertible a b ≡ true
unfolding convertible
numbers (int s b) (int t c) h = ground arith
numbers (int s b) char h = ground arith
numbers (int s b) int_literal h = ground arith
numbers char (int t c) h = ground arith
numbers char char h = ground arith
numbers char int_literal h = ground arith
numbers int_literal (int t c) h = ground arith
numbers int_literal char h = ground arith
numbers int_literal int_literal h = ground arith
numbers _ _ h = absurd (ground arith)

decimals : (a b : Ty) → (float_side a ≡ true) × (float_side b ≡ true) → convertible a b ≡ true
unfolding convertible
decimals (float b) (float c) h = ground arith
decimals (float b) float_literal h = ground arith
decimals float_literal (float c) h = ground arith
decimals float_literal float_literal h = ground arith
decimals _ _ h = absurd (ground arith)

complete : {a b : Ty} → Converts a b → convertible a b ≡ true
unfolding convertible
complete from_error = refl
complete (to_error {a}) = ground arith
complete (here {a}) = ground (arith, same_refl a)
complete (from_never {b}) = ground arith
complete (forget {a}) = ground arith
complete (recall {b}) = ground arith
complete (integers {a} {b} h k) = numbers a b (h, k)
complete (floats {a} {b} h k) = decimals a b (h, k)

-- `convertible` says yes exactly to: the poison on either side, a type to itself, `!` to anything,
-- a pointer to and from `*void`, one integer type to another and one float type to another (an
-- undecided literal counting with its class).
pub convertible_iff : (a b : Ty) → (convertible a b ≡ true) ↔ Converts a b
convertible_iff a b = (sound, complete)
  where
    sound : convertible a b ≡ true → Converts a b
    sound h = elim (Bool-cases (same a b)) [
      | inl e ↦ rw ((same_iff a b).0 e) here
      | inr n ↦ distinct a b n h
    ]
