-- ===== src/Sema/Types/Arithmetic.antt =====
-- The arithmetic types as a family, to split on them.
use mincplus.Prelude.{ℕ, ◌≡◌, Bool, true}
use mincplus.Sema.Types.{Ty, char, int_literal, float_literal, int, float, is_arithmetic}

pub data Arith : Ty → Type 0 where
  an_int : (s : Bool) (b : ℕ) → Arith (int s b)
  a_char : Arith char
  a_float : (b : ℕ) → Arith (float b)
  an_int_literal : Arith int_literal
  a_float_literal : Arith float_literal

pub Arith-view : (t : Ty) → is_arithmetic t ≡ true → Arith t
Arith-view (int s b) h = an_int s b
Arith-view char h = a_char
Arith-view (float b) h = a_float b
Arith-view int_literal h = an_int_literal
Arith-view float_literal h = a_float_literal
Arith-view _ h = cc
