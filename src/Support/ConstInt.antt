-- ===== src/Support/ConstInt.antt =====
-- `ConstInt` of include/support/consteval/const_int.h and src/support/consteval/const_int.cc: the
-- 64-bit constant arithmetic that `#if` and the type checker's constant folding share.
-- `bits` is the std::uint64_t, below 2 ^ 64; every operation writes its wrap-around out.
pub mod Arithmetic
pub mod Division
pub mod Order
pub mod Shift
use Prim.Native.Nat.{bit_and as and_bits, bit_or as or_bits, bit_xor as xor_bits}
use mincplus.Prelude.{
  ℕ, suc, ◌+◌, ◌-◌, ◌*◌, ◌/◌, ◌%◌, ◌^◌, ◌<◌, Bool, true, false, not, ◌&&◌, ◌||◌, Option, none, some,
  ltb, leb, ◌==◌, if◌then◌else◌,
}
use mincplus.Prelude.Int.{ℤ, pos, negsuc, ltb_ℤ, eq_ℤ, quot, rem}

abbrev pub width : ℕ
width = 64

abbrev pub modulus : ℕ
modulus = 2 ^ 64

pub record ConstInt : Type 0 where
  pub bits : ℕ
  pub is_unsigned : Bool

-- The range of the storage, which every operation keeps.
abbrev pub InRange : ConstInt → Type 0
InRange a = a.bits < modulus

abbrev pub int64_min : ℤ
int64_min = negsuc (2 ^ 63 - 1)

-- The std::int64_t with these bits.
abbrev pub to_signed : ℕ → ℤ
to_signed b = if ltb b (2 ^ 63) then pos b else negsuc (2 ^ 64 - b - 1)

-- static_cast<std::uint64_t> of a std::int64_t.
abbrev pub to_bits : ℤ → ℕ
to_bits (pos n) = n % 2 ^ 64
to_bits (negsuc n) = 2 ^ 64 - 1 - n % 2 ^ 64

unfoldable pub signed_value : ConstInt → ℤ
signed_value a = to_signed a.bits

unfoldable pub truthy : ConstInt → Bool
truthy a = not (a.bits == 0)

unfoldable pub negative : ConstInt → Bool
unfolding signed_value
negative a = not a.is_unsigned && ltb_ℤ (signed_value a) (pos 0)

unfoldable pub from_signed : ℤ → ConstInt
from_signed v = record { bits = to_bits v; is_unsigned = false }

unfoldable pub from_unsigned : ℕ → ConstInt
from_unsigned v = record { bits = v; is_unsigned = true }

unfoldable pub is_zero : ConstInt → Bool
is_zero a = a.bits == 0

unfoldable pub add : ConstInt → ConstInt → ConstInt
add a b = record {
  bits = (a.bits + b.bits) % modulus;
  is_unsigned = a.is_unsigned || b.is_unsigned;
}

unfoldable pub sub : ConstInt → ConstInt → ConstInt
sub a b = record {
  bits = (a.bits + modulus - b.bits) % modulus;
  is_unsigned = a.is_unsigned || b.is_unsigned;
}

unfoldable pub mul : ConstInt → ConstInt → ConstInt
mul a b = record {
  bits = (a.bits * b.bits) % modulus;
  is_unsigned = a.is_unsigned || b.is_unsigned;
}

unfoldable pub bit_and : ConstInt → ConstInt → ConstInt
bit_and a b = record { bits = and_bits a.bits b.bits; is_unsigned = a.is_unsigned || b.is_unsigned }

unfoldable pub bit_or : ConstInt → ConstInt → ConstInt
bit_or a b = record { bits = or_bits a.bits b.bits; is_unsigned = a.is_unsigned || b.is_unsigned }

unfoldable pub bit_xor : ConstInt → ConstInt → ConstInt
bit_xor a b = record { bits = xor_bits a.bits b.bits; is_unsigned = a.is_unsigned || b.is_unsigned }

unfoldable pub negate : ConstInt → ConstInt
negate a = record { bits = (modulus - a.bits) % modulus; is_unsigned = a.is_unsigned }

unfoldable pub bit_not : ConstInt → ConstInt
bit_not a = record { bits = modulus - 1 - a.bits; is_unsigned = a.is_unsigned }

unfoldable pub logical_not : ConstInt → ConstInt
unfolding truthy from_signed
logical_not a = from_signed (if truthy a then pos 0 else pos 1)

unfoldable pub divide : ConstInt → ConstInt → Option ConstInt
unfolding is_zero signed_value from_signed from_unsigned
divide a b =
    if is_zero b
    then none
    else if a.is_unsigned || b.is_unsigned
    then some (from_unsigned (a.bits / b.bits))
    else if eq_ℤ (signed_value a) int64_min && eq_ℤ (signed_value b) (negsuc 0)
    then some (from_signed int64_min)
    else some (from_signed (quot (signed_value a) (signed_value b)))

unfoldable pub remainder : ConstInt → ConstInt → Option ConstInt
unfolding is_zero signed_value from_signed from_unsigned
remainder a b =
    if is_zero b
    then none
    else if a.is_unsigned || b.is_unsigned
    then some (from_unsigned (a.bits % b.bits))
    else if eq_ℤ (signed_value a) int64_min && eq_ℤ (signed_value b) (negsuc 0)
    then some (from_signed (pos 0))
    else some (from_signed (rem (signed_value a) (signed_value b)))

unfoldable pub shift_left : ConstInt → ConstInt → Option ConstInt
shift_left a b =
    if leb width b.bits
    then none
    else some (record { bits = (a.bits * 2 ^ b.bits) % modulus; is_unsigned = a.is_unsigned })

-- `~std::uint64_t{0} << (kConstIntWidth - count)`
unfoldable pub sign_mask : ℕ → ℕ
sign_mask count = ((modulus - 1) * 2 ^ (width - count)) % modulus

unfoldable pub shift_right : ConstInt → ConstInt → Option ConstInt
unfolding negative sign_mask
shift_right a b =
    if leb width b.bits
    then none
    else if b.bits == 0
    then some (record { bits = a.bits; is_unsigned = a.is_unsigned })
    else if not (negative a)
    then some (record { bits = a.bits / 2 ^ b.bits; is_unsigned = a.is_unsigned })
    else some (record {
      bits = or_bits (a.bits / 2 ^ b.bits) (sign_mask b.bits);
      is_unsigned = a.is_unsigned;
    })

-- Bit equality, `equal`.
unfoldable pub equal : ConstInt → ConstInt → Bool
equal a b = a.bits == b.bits

-- -1, 0 or 1.
unfoldable pub compare : ConstInt → ConstInt → ℤ
unfolding signed_value
compare a b =
    if a.is_unsigned || b.is_unsigned
    then (if ltb a.bits b.bits then negsuc 0 else if ltb b.bits a.bits then pos 1 else pos 0)
    else if ltb_ℤ (signed_value a) (signed_value b)
    then negsuc 0
    else if ltb_ℤ (signed_value b) (signed_value a)
    then pos 1
    else pos 0
