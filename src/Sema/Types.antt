-- ===== src/Sema/Types.antt =====
-- The types of include/sema/type.h and the predicates of src/sema/type_store.cc.
-- A `TypeId` stands for the type that it names (Sema/Store): two ids are equal exactly
-- when the types are, field by field, and `get` is the identity here. Every id is known.
pub mod Arithmetic
pub mod Equality
use mincplus.Prelude.{
  ℕ, ◌≡◌, ◌≢◌, ◌↔◌, refl, Bool, true, false, ◌&&◌, ◌||◌, not, ltb, ◌==◌, if◌then◌else◌, Option,
  none, some,
}

-- `isSigned` and `bits` stand in `int`, `count` in `array`. A function has its parameters, its
-- result and whether it is variadic; a type parameter is its unit, owner and binder.
mutual
  pub data Ty : Type 0 where
    error void never bool char str int_literal float_literal : Ty
    int : Bool → ℕ → Ty
    float : ℕ → Ty
    pointer : Ty → Ty
    array : Ty → ℕ → Ty
    slice : Ty → Ty
    tuple : Tys → Ty
    function : Tys → Ty → Bool → Ty
    param : ℕ → ℕ → ℕ → Ty

  pub data Tys : Type 0 where
    nil : Tys
    cons : Ty → Tys → Tys

unfoldable pub same_bool : Bool → Bool → Bool
same_bool true b = b
same_bool false b = not b

unfoldable mutual
  unfolding same_bool

  -- `operator==` of two ids.
  pub same : Ty → Ty → Bool
  same error error = true
  same void void = true
  same never never = true
  same bool bool = true
  same char char = true
  same str str = true
  same int_literal int_literal = true
  same float_literal float_literal = true
  same (int s b) (int t c) = same_bool s t && b == c
  same (float b) (float c) = b == c
  same (pointer a) (pointer b) = same a b
  same (array a m) (array b n) = same a b && m == n
  same (slice a) (slice b) = same a b
  same (tuple xs) (tuple ys) = same_all xs ys
  same (function xs r v) (function ys s w) = same_all xs ys && (same r s && same_bool v w)
  same (param u o b) (param v p c) = u == v && (o == p && b == c)
  same _ _ = false

  pub same_all : Tys → Tys → Bool
  same_all nil nil = true
  same_all (cons x xs) (cons y ys) = same x y && same_all xs ys
  same_all _ _ = false

-- The tests on `TypeKind`.
abbrev pub is_error : Ty → Bool
is_error error = true
is_error _ = false

abbrev pub is_void : Ty → Bool
is_void void = true
is_void _ = false

abbrev pub is_never : Ty → Bool
is_never never = true
is_never _ = false

abbrev pub is_bool : Ty → Bool
is_bool bool = true
is_bool _ = false

abbrev pub is_char : Ty → Bool
is_char char = true
is_char _ = false

abbrev pub is_int : Ty → Bool
is_int (int s b) = true
is_int _ = false

abbrev pub is_str : Ty → Bool
is_str str = true
is_str _ = false

abbrev pub is_function : Ty → Bool
is_function (function xs r v) = true
is_function _ = false

abbrev pub is_float_literal : Ty → Bool
is_float_literal float_literal = true
is_float_literal _ = false

abbrev pub is_int_literal : Ty → Bool
is_int_literal int_literal = true
is_int_literal _ = false

abbrev pub is_float : Ty → Bool
is_float (float b) = true
is_float _ = false

abbrev pub is_pointer : Ty → Bool
is_pointer (pointer a) = true
is_pointer _ = false

abbrev pub is_array : Ty → Bool
is_array (array a n) = true
is_array _ = false

abbrev pub is_slice : Ty → Bool
is_slice (slice a) = true
is_slice _ = false

abbrev pub is_tuple : Ty → Bool
is_tuple (tuple xs) = true
is_tuple _ = false

abbrev pub is_param : Ty → Bool
is_param (param u o b) = true
is_param _ = false

abbrev pub is_integer : Ty → Bool
is_integer t = is_int t || is_char t

abbrev pub is_small_integer : Ty → Bool
is_small_integer char = true
is_small_integer bool = true
is_small_integer (int s b) = ltb b 32
is_small_integer _ = false

abbrev pub is_deferred : Ty → Bool
is_deferred t = is_int_literal t || is_float_literal t

abbrev pub is_arithmetic : Ty → Bool
is_arithmetic t =
    is_int t || (is_float t || (is_char t || (is_int_literal t || is_float_literal t)))

abbrev pub is_scalar : Ty → Bool
is_scalar t = is_arithmetic t || (is_bool t || (is_str t || is_pointer t))

abbrev pub is_param_of : Ty → ℕ → ℕ → Bool
is_param_of (param u o b) unit owner = u == unit && o == owner
is_param_of _ unit owner = false

abbrev pub is_aggregate : Ty → Bool
is_aggregate t = is_array t || (is_slice t || is_tuple t)

abbrev pub is_object : Ty → Bool
is_object t =
    if is_array t || is_slice t
    then true
    else if is_tuple t
    then true
    else if is_param t
    then true
    else is_scalar t && not (is_deferred t)

-- `none` is `kInvalidType`.
abbrev pub element_of : Ty → Option Ty
element_of (array a n) = some a
element_of (slice a) = some a
element_of _ = none

abbrev pub count_of : Ty → ℕ
count_of (array a n) = n
count_of _ = 0

abbrev pub is_void_pointer : Ty → Bool
is_void_pointer (pointer a) = is_void a
is_void_pointer _ = false

abbrev pub pointee_of : Ty → Option Ty
pointee_of (pointer a) = some a
pointee_of _ = none

abbrev pub is_variadic : Ty → Bool
is_variadic (function xs r v) = v
is_variadic _ = false

-- `Type::bits`, which is 0 for all but integers and floats.
abbrev pub bits_of : Ty → ℕ
bits_of (int s b) = b
bits_of (float b) = b
bits_of _ = 0

-- `Type::isSigned`.
abbrev pub signed_of : Ty → Bool
signed_of (int s b) = s
signed_of _ = false
