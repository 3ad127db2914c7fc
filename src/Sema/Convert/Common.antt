-- ===== src/Sema/Convert/Common.antt =====
-- `usualArithmetic` of src/sema/convert.cc: the common type of two operands.
use mincplus.Prelude.{ℕ, ◌+◌, ◌*◌, ◌≡◌, ◌≢◌, ◌↔◌, refl, Bool, true, arith, ◌∙◌, if◌then◌else◌, leb}
use mincplus.Sema.Types.{
  Ty, error, void, never, bool, char, str, int_literal, float_literal, int, float, pointer, array,
  slice, tuple, function, param, is_arithmetic,
}
use mincplus.Sema.Types.Arithmetic.{
  Arith, an_int, a_char, a_float, an_int_literal, a_float_literal, Arith-view,
}
use mincplus.Sema.Convert.{
  promote, common_integer, usual_arithmetic, convertible, mixed_number_pair,
}

common_integer_comm :
    (s t : Bool) (b c : ℕ) → common_integer (int s b) (int t c) ≡ common_integer (int t c) (int s b)
unfolding common_integer
common_integer_comm s t b c = ground arith

-- Where an integer type stands: by its width, and above the signed type of that width if unsigned.
abbrev pub height : Ty → ℕ
height (int s b) = b * 2 + (if s then 0 else 1)
height t = 0

common_integer-height :
    (s t : Bool) (b c : ℕ)
    → common_integer (int s b) (int t c)
      ≡ (if leb (height (int t c)) (height (int s b)) then int s b else int t c)
unfolding common_integer
common_integer-height s t b c = ground arith

-- The operands may be swapped: the common type is the same, refusals included.
pub usual_arithmetic_comm : (a b : Ty) → usual_arithmetic a b ≡ usual_arithmetic b a
unfolding usual_arithmetic
usual_arithmetic_comm (int s b) (int t c) = ground arith
usual_arithmetic_comm (int s b) char = ground arith
usual_arithmetic_comm char (int s b) = ground arith
usual_arithmetic_comm (float b) (float c) = ground arith
usual_arithmetic_comm error error = refl
usual_arithmetic_comm void error = refl
usual_arithmetic_comm never error = refl
usual_arithmetic_comm bool error = refl
usual_arithmetic_comm str error = refl
usual_arithmetic_comm int_literal error = refl
usual_arithmetic_comm float_literal error = refl
usual_arithmetic_comm (pointer a) error = refl
usual_arithmetic_comm (array a n) error = refl
usual_arithmetic_comm (slice a) error = refl
usual_arithmetic_comm (tuple xs) error = refl
usual_arithmetic_comm (function xs r v) error = refl
usual_arithmetic_comm (param u o b) error = refl
usual_arithmetic_comm _ _ = refl

-- Where two integer types meet: the operands are promoted, and the common type is whichever stands
-- higher, the width counting first and an unsigned type standing above the signed one.
pub usual_arithmetic_highest :
    (s t : Bool) (b c : ℕ)
    → let left = promote (int s b) in
      let right = promote (int t c) in
      usual_arithmetic (int s b) (int t c)
      ≡ (if leb (height right) (height left) then left else right)
unfolding usual_arithmetic
usual_arithmetic_highest s t b c = ground arith

Arith-join :
    {a b : Ty}
    → Arith a
    → Arith b
    → usual_arithmetic a b ≢ error
    → (convertible a (usual_arithmetic a b) ≡ true) × (is_arithmetic (usual_arithmetic a b) ≡ true)
unfolding usual_arithmetic convertible
Arith-join (an_int s b) (an_int t c) h = ground arith
Arith-join (an_int s b) a_char h = ground arith
Arith-join a_char (an_int s b) h = ground arith
Arith-join (a_float b) (a_float c) h = ground arith
Arith-join (an_int s b) (a_float c) h = ground arith
Arith-join _ _ h = ground arith

-- Where two arithmetic types have a common type, both convert to it implicitly, and it is
-- arithmetic.
pub usual_arithmetic-convertible :
    (a b : Ty)
    → is_arithmetic a ≡ true
    → is_arithmetic b ≡ true
    → usual_arithmetic a b ≢ error
    → (convertible a (usual_arithmetic a b) ≡ true)
      × (convertible b (usual_arithmetic a b) ≡ true)
      × (is_arithmetic (usual_arithmetic a b) ≡ true)
usual_arithmetic-convertible a b ha hb h =
    let va = Arith-view a ha in
    let vb = Arith-view b hb in
    let swap = usual_arithmetic_comm a b in
    let (left, known) = Arith-join va vb h in
    let (right, _) = Arith-join vb va (λ e. h (swap ∙ e)) in (left, rw (← swap) at right, known)

Arith-error :
    {a b : Ty} → Arith a → Arith b → (usual_arithmetic a b ≡ error) ↔ (mixed_number_pair a b ≡ true)
unfolding usual_arithmetic mixed_number_pair
Arith-error (an_int s b) (an_int t c) = ground arith
Arith-error (an_int s b) a_char = ground arith
Arith-error a_char (an_int s b) = ground arith
Arith-error (a_float b) (a_float c) = ground arith
Arith-error an_int_literal an_int_literal = ground arith
Arith-error a_float_literal an_int_literal = ground arith
Arith-error _ _ = ground arith

-- Two arithmetic types have no common type exactly where one is an integer and the other a float.
pub usual_arithmetic-error_iff :
    (a b : Ty)
    → is_arithmetic a ≡ true
    → is_arithmetic b ≡ true
    → (usual_arithmetic a b ≡ error) ↔ (mixed_number_pair a b ≡ true)
usual_arithmetic-error_iff a b ha hb = Arith-error (Arith-view a ha) (Arith-view b hb)
