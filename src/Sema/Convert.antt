-- ===== src/Sema/Convert.antt =====
-- The implicit conversions and operand types of src/sema/convert.cc.

pub mod Common
pub mod Relation
use mincplus.Prelude.{ℕ, Bool, true, false, ◌&&◌, ◌||◌, not, ltb, leb, if◌then◌else◌}
use mincplus.Sema.Types.{
  Ty, error, bool, char, int_literal, float_literal, int, float, pointer, same, same_bool, is_error,
  is_void, is_never, is_bool, is_char, is_int, is_str, is_int_literal, is_float_literal, is_float,
  is_pointer, is_integer, is_deferred, is_arithmetic, is_void_pointer, bits_of, signed_of,
}

-- `rank`; the literals' rows are never reached.
unfoldable pub rank : Ty → ℕ
rank int_literal = 32
rank float_literal = 64
rank t = bits_of t

unfoldable pub is_signed : Ty → Bool
is_signed char = false
is_signed t = signed_of t

unfoldable pub promote : Ty → Ty
promote bool = int true 32
promote char = int true 32
promote (int s b) = if ltb b 32 then int true 32 else int s b
promote t = t

-- The common type of two integers after promotion.
unfoldable pub common_integer : Ty → Ty → Ty
unfolding rank is_signed same same_bool
common_integer left right =
    if same left right
    then left
    else if same_bool (is_signed left) (is_signed right)
    then (if leb (rank right) (rank left) then left else right)
    else let unsigned_side = if is_signed left then right else left in
      let signed_side = if is_signed left then left else right in
      let unsigned_bits = if is_signed left then rank right else rank left in
      let signed_bits = if is_signed left then rank left else rank right in
      if leb signed_bits unsigned_bits then unsigned_side else signed_side

unfoldable pub usual_arithmetic : Ty → Ty → Ty
unfolding promote common_integer same_bool
usual_arithmetic left right =
    if is_error left || is_error right
    then error
    else if is_deferred left && is_deferred right
    then (if not (same_bool (is_float_literal left) (is_float_literal right))
        then error
        else if is_float_literal left
        then float_literal
        else int_literal)
    else if is_deferred left || is_deferred right
    then (let literal_side = if is_deferred left then left else right in
        let concrete = promote (if is_deferred left then right else left) in
        if is_float_literal literal_side
        then (if is_float concrete then concrete else error)
        else if is_integer concrete
        then concrete
        else error)
    else if not (is_arithmetic left) || not (is_arithmetic right)
    then error
    else if not (same_bool (is_float left) (is_float right))
    then error
    else if is_float left
    then float (if ltb (bits_of right) (bits_of left) then bits_of left else bits_of right)
    else common_integer (promote left) (promote right)

unfoldable pub operation_type : Bool → Ty → Ty → Ty
unfolding promote usual_arithmetic
operation_type shift left right = if shift then promote left else usual_arithmetic left right

abbrev pub float_side : Ty → Bool
float_side t = is_float t || is_float_literal t

abbrev pub integer_side : Ty → Bool
integer_side t = is_int t || (is_char t || is_int_literal t)

unfoldable pub mixed_number_pair : Ty → Ty → Bool
mixed_number_pair from to =
    if is_error from || is_error to
    then false
    else float_side from && integer_side to || integer_side from && float_side to

abbrev pub same_pointee : Ty → Ty → Bool
same_pointee (pointer a) (pointer b) = same a b
same_pointee _ _ = false

unfoldable pub convertible : Ty → Ty → Bool
unfolding mixed_number_pair same same_bool
convertible from to =
    if is_error from || is_error to
    then true
    else if same from to
    then true
    else if is_never from
    then true
    else if is_void from || is_void to
    then false
    else if is_pointer from || is_pointer to
    then (if not (is_pointer from) || not (is_pointer to)
        then false
        else same_pointee from to || (is_void_pointer from || is_void_pointer to))
    else if is_bool from || (is_bool to || (is_str from || is_str to))
    then false
    else if mixed_number_pair from to
    then false
    else is_arithmetic from && is_arithmetic to

unfoldable pub narrows : Ty → Ty → Bool
unfolding is_signed same same_bool
narrows from to =
    if is_error from || (is_error to || same from to)
    then false
    else if not (is_arithmetic from) || not (is_arithmetic to)
    then false
    else if float_side from
    then (if is_int to || is_char to then true else ltb (bits_of to) (bits_of from))
    else if float_side to
    then false
    else if is_int_literal from || is_int_literal to
    then false
    else let from_bits = if is_char from then 8 else bits_of from in
      let to_bits = if is_char to then 8 else bits_of to in
      if ltb to_bits from_bits
      then true
      else if ltb from_bits to_bits
      then false
      else is_signed from && not (is_signed to)
