-- ===== src/Sema/Cast.antt =====
-- Explicit casts of src/sema/convert.cc: `castResult`, `foldIntCast`, and the range test `fitsIn`.
-- A refusal is named by its sentence; `pointer_bits` is the target's.
pub mod Fold
pub mod Laws
use Prim.Native.Nat.{bit_and, bit_or}
use mincplus.Prelude.{
  ℕ, ◌+◌, ◌-◌, ◌%◌, ◌/◌, ◌^◌, Bool, true, false, ◌&&◌, ◌||◌, not, ltb, leb, ◌==◌, if◌then◌else◌,
  Option, none, some,
}
use mincplus.Prelude.Int.{ℤ, pos, negsuc, minus, leb_ℤ}
use mincplus.Support.ConstInt.{ConstInt, signed_value, negative}
use mincplus.Sema.Types.{
  Ty, bool, char, int, same, same_bool, is_error, is_void, is_never, is_bool, is_char, is_int,
  is_str, is_function, is_float, is_pointer, is_array, is_slice, bits_of,
}
use mincplus.Sema.Convert.{is_signed}

pub data CastKind : Type 0 where
  no_cast identity integer_extend integer_truncate bool_to_integer integer_to_bool : CastKind
  integer_to_float float_to_integer float_extend float_truncate : CastKind
  pointer_to_integer integer_to_pointer : CastKind

-- `CastLoss`: a set of bits.
abbrev pub loss_none : ℕ
loss_none = 0

abbrev pub loss_truncation : ℕ
loss_truncation = 1

abbrev pub loss_sign : ℕ
loss_sign = 2

abbrev pub loss_precision : ℕ
loss_precision = 4

abbrev pub loss_range : ℕ
loss_range = 8

unfoldable pub has_loss : ℕ → ℕ → Bool
has_loss set one = not (bit_and set one == 0)

pub data Refusal : Type 0 where
  into_never void_source void_target of_function array_source slice_source : Refusal
  aggregate_target bool_to_address float_to_bool address_to_bool float_to_address : Refusal
  no_conversion : Refusal

-- `message` is `none` for the empty string.
pub record CastResult : Type 0 where
  pub kind : CastKind
  pub ok : Bool
  pub loss : ℕ
  pub message : Option Refusal

abbrev pub refused : Refusal → CastResult
refused m = record { kind = no_cast; ok = false; loss = loss_none; message = some m }

abbrev pub accepted : CastKind → ℕ → CastResult
accepted k l = record { kind = k; ok = true; loss = l; message = none }

unfoldable pub integer_width : Ty → ℕ
integer_width bool = 1
integer_width char = 8
integer_width t = if bits_of t == 0 then 32 else bits_of t

unfoldable pub mantissa_bits : ℕ → ℕ
mantissa_bits b = if b == 32 then 24 else if b == 64 then 53 else if b == 80 then 64 else 113

abbrev pub is_whole : Ty → Bool
is_whole t = is_int t || is_char t

abbrev pub is_address : Ty → Bool
is_address t = is_pointer t || is_str t

-- The arms for an address on either side.
unfoldable pub cast_address : ℕ → Ty → Ty → CastResult
unfolding integer_width is_signed
cast_address pointer_bits from to =
    if is_address from && is_address to
    then accepted identity loss_none
    else if is_address from && is_whole to
    then accepted pointer_to_integer
        (if ltb (integer_width to) pointer_bits then loss_truncation else loss_none)
    else if is_whole from && is_address to
    then (if ltb pointer_bits (integer_width from)
        then accepted integer_to_pointer loss_truncation
        else if ltb (integer_width from) pointer_bits && is_signed from
        then accepted integer_to_pointer loss_sign
        else accepted integer_to_pointer loss_none)
    else if is_float from && is_address to
    then refused float_to_address
    else refused no_conversion

-- The arms for two numbers.
unfoldable pub cast_number : ℕ → Ty → Ty → CastResult
unfolding integer_width mantissa_bits is_signed same_bool cast_address
cast_number pointer_bits from to =
    if is_whole from && is_whole to
    then (if ltb (integer_width from) (integer_width to)
        then accepted integer_extend loss_none
        else if ltb (integer_width to) (integer_width from)
        then accepted integer_truncate loss_truncation
        else accepted identity
            (if not (same_bool (is_signed from) (is_signed to)) then loss_sign else loss_none))
    else if is_float from && is_float to
    then (if ltb (bits_of from) (bits_of to)
        then accepted float_extend loss_none
        else accepted float_truncate loss_precision)
    else if is_whole from && is_float to
    then accepted integer_to_float (
        if ltb (mantissa_bits (bits_of to)) (integer_width from) then loss_precision else loss_none)
    else if is_float from && is_whole to
    then accepted float_to_integer (bit_or loss_range loss_truncation)
    else cast_address pointer_bits from to

-- The arms for a `bool` on either side; a `bool` that no arm takes goes on.
unfoldable pub cast_scalar : ℕ → Ty → Ty → CastResult
unfolding cast_number
cast_scalar pointer_bits from to =
    if is_bool from && is_whole to
    then accepted bool_to_integer loss_none
    else if is_bool from && is_float to
    then accepted integer_to_float loss_none
    else if is_bool from && is_address to
    then refused bool_to_address
    else if is_bool to && is_whole from
    then accepted integer_to_bool loss_none
    else if is_bool to && is_float from
    then refused float_to_bool
    else if is_bool to && is_address from
    then refused address_to_bool
    else cast_number pointer_bits from to

-- The arms for functions, arrays and views.
unfoldable pub cast_object : ℕ → Ty → Ty → CastResult
unfolding cast_scalar
cast_object pointer_bits from to =
    if is_function from || is_function to
    then refused of_function
    else if is_array from
    then refused array_source
    else if is_slice from
    then refused slice_source
    else if is_array to || is_slice to
    then refused aggregate_target
    else cast_scalar pointer_bits from to

unfoldable pub cast_result : ℕ → Ty → Ty → CastResult
unfolding cast_object
cast_result pointer_bits from to =
    if is_error from || is_error to
    then record { kind = no_cast; ok = false; loss = loss_none; message = none }
    else if same from to
    then accepted identity loss_none
    else if is_never from
    then accepted identity loss_none
    else if is_never to
    then refused into_never
    else if is_void from
    then refused void_source
    else if is_void to
    then refused void_target
    else cast_object pointer_bits from to

abbrev pub width_of : Ty → ℕ
width_of bool = 1
width_of char = 8
width_of t = bits_of t

abbrev pub integer_shaped : Ty → Bool
integer_shaped t = is_int t || (is_char t || is_bool t)

-- The source's pattern at its own width, extended to 64 bits by its sign.
unfoldable pub extended_pattern : Bool → ℕ → ℕ → ℕ
extended_pattern signed bits value =
    let source = if ltb bits 64 then value % 2 ^ bits else value in
    if signed && ltb bits 64 && not (source / 2 ^ (bits - 1) == 0)
    then bit_or source (2 ^ 64 - 1 - (2 ^ bits - 1))
    else source

unfoldable pub fold_int_cast : Ty → Ty → ConstInt → Option ConstInt
unfolding is_signed extended_pattern
fold_int_cast from to value =
    if not (integer_shaped from) || not (integer_shaped to)
    then none
    else if is_bool to
    then some (record { bits = if value.bits == 0 then 0 else 1; is_unsigned = false })
    else let from_signed = if is_bool from then false else is_signed from in
      let to_signed = if is_bool to then false else is_signed to in
      let extended = extended_pattern from_signed (width_of from) value.bits in
      some (record {
        bits = if leb 64 (width_of to) then extended else extended % 2 ^ width_of to;
        is_unsigned = not to_signed;
      })

-- `magnitude` is 2 ^ (bits - 1).
unfoldable pub fits_int : Bool → ℕ → ConstInt → Bool
unfolding negative signed_value
fits_int signed bits value =
    if leb 64 bits
    then true
    else if signed
    then (if not value.is_unsigned
        then leb_ℤ (minus (2 ^ (bits - 1))) (signed_value value)
          && leb_ℤ (signed_value value) (pos (2 ^ (bits - 1) - 1))
        else if negative value
        then false
        else leb value.bits (2 ^ (bits - 1) - 1))
    else if negative value
    then false
    else leb value.bits (2 ^ bits - 1)

unfoldable pub fits_in : Ty → ConstInt → Bool
unfolding fits_int
fits_in char value = not (negative value) && leb value.bits 0xff
fits_in bool value = not (negative value) && leb value.bits 1
fits_in (int s b) value = fits_int s (if b == 0 then 32 else b) value
fits_in _ value = true
