-- ===== src/Sema/Cast/Fold.antt =====
-- `foldIntCast` and `fitsIn` of src/sema/convert.cc against the integers that the types hold.
use native.Mathlib.Nat.{mod-lt, div-lt_iff_lt-mul}
use mincplus.Prelude.{
  ℕ, ◌+◌, ◌-◌, ◌*◌, ◌/◌, ◌%◌, ◌^◌, ◌≤◌, ◌<◌, ◌≡◌, ◌↔◌, Bool, true, false, ◌&&◌, not, arith, some,
  ltb, ◌==◌, if◌then◌else◌, ap, subst, sym, ◌∙◌, lt→ltb, ltb→lt, Bool-cases, inl, inr,
}
use mincplus.Prelude.Int.{ℤ, pos, negsuc, ◌≤ℤ◌}
use mincplus.Prelude.Bits.{bit_or_high}
use mincplus.Prelude.Powers.{pow_split, two-pow-pos, two-pow_mono, mod-mod_pow, complement_mod}
use mincplus.Support.ConstInt.{ConstInt, InRange, signed_value}
use mincplus.Sema.Types.{int}
use mincplus.Sema.Cast.{extended_pattern, fold_int_cast, fits_int}

-- The integer that a value of `bits` bits stands for.
abbrev pub value_at : Bool → ℕ → ℕ → ℤ
value_at signed bits v =
    let source = v % 2 ^ bits in
    if signed && not (ltb source (2 ^ (bits - 1)))
    then negsuc (2 ^ bits - 1 - source)
    else pos source

-- An integer modulo 2 ^ bits.
abbrev pub low : ℤ → ℕ → ℕ
low (pos n) w = n % 2 ^ w
low (negsuc n) w = 2 ^ w - 1 - n % 2 ^ w

-- The integer that a constant stands for.
abbrev pub read : ConstInt → ℤ
read v = if v.is_unsigned then pos v.bits else signed_value v

-- A word fits a signed type of 1 to 63 bits exactly when the integer it stands for, read by its own
-- signedness, lies between -2 ^ (b - 1) and 2 ^ (b - 1) - 1.
pub fits_int_signed :
    (b : ℕ) (v : ConstInt)
    → InRange v
    → 0 < b
    → b < 64
    → (fits_int true b v ≡ true)
      ↔ ((negsuc (2 ^ (b - 1) - 1) ≤ℤ read v) × (read v ≤ℤ pos (2 ^ (b - 1) - 1)))
unfolding fits_int signed_value
fits_int_signed b v h p l = ground (arith, two-pow-pos (b - 1))

-- A word fits an unsigned type of fewer than 64 bits exactly when the integer it stands for lies
-- between 0 and 2 ^ b - 1.
pub fits_int_unsigned :
    (b : ℕ) (v : ConstInt)
    → InRange v
    → b < 64
    → (fits_int false b v ≡ true) ↔ ((pos 0 ≤ℤ read v) × (read v ≤ℤ pos (2 ^ b - 1)))
unfolding fits_int signed_value
fits_int_unsigned b v h l = ground (arith, two-pow-pos b)

-- 2 ^ 64 - 2 ^ b, the ones above a pattern of b bits.
upper_ones : (b : ℕ) → b ≤ 64 → 2 ^ 64 - 1 - (2 ^ b - 1) ≡ (2 ^ (64 - b) - 1) * 2 ^ b
upper_ones b h = arithmetic (2 ^ (64 - b) - 1) (2 ^ b) (two-pow-pos b) whole
  where
    whole : 2 ^ b * (2 ^ (64 - b) - 1 + 1) ≡ 2 ^ 64
    whole =
        let e : 2 ^ (64 - b) - 1 + 1 ≡ 2 ^ (64 - b) = omega (arith, two-pow-pos (64 - b)) in
        rw e (pow_split 64 b h)

    arithmetic : (r p : ℕ) → 0 < p → p * (r + 1) ≡ 2 ^ 64 → 2 ^ 64 - 1 - (p - 1) ≡ r * p
    arithmetic r p hp e = omega arith

-- Fewer bits of the 64-bit pattern of an integer are its pattern at that width.
low-low : (x : ℤ) (w : ℕ) → w ≤ 64 → low x 64 % 2 ^ w ≡ low x w
low-low (pos n) w h = mod-mod_pow 64 w n h
low-low (negsuc n) w h =
    complement (n % 2 ^ 64) (mod-lt n (two-pow-pos 64))
    ∙ ap (λ (m : ℕ). 2 ^ w - 1 - m) (mod-mod_pow 64 w n h)
  where
    complement : (m : ℕ) → m < 2 ^ 64 → (2 ^ 64 - 1 - m) % 2 ^ w ≡ 2 ^ w - 1 - m % 2 ^ w
    complement m l =
        subst (λ (t : ℕ). (t - 1 - m) % 2 ^ w ≡ 2 ^ w - 1 - m % 2 ^ w) (pow_split 64 w h)
          (complement_mod (2 ^ w) (2 ^ (64 - w)) m (two-pow-pos w)
            (omega (arith, pow_split 64 w h)))

high_bit : (q x : ℕ) → 0 < q → (x / q == 0) ≡ ltb x q
high_bit q x h =
    let (down, up) = div-lt_iff_lt-mul {k = q} {x = x} {y = 1} h in ground (arith, down, up)

extended-low_whole :
    (s : Bool) (v : ℕ) → v < 2 ^ 64 → extended_pattern s 64 v ≡ low (value_at s 64 v) 64
unfolding extended_pattern
extended-low_whole s v h = ground arith

extended-low_narrow :
    (s : Bool) (b v : ℕ) → b < 64 → extended_pattern s b v ≡ low (value_at s b v) 64
unfolding extended_pattern
extended-low_narrow s b v l =
    let below = mod-lt v (two-pow-pos b) in
    rw (lt→ltb b 64 l, high_bit (2 ^ (b - 1)) (v % 2 ^ b) (two-pow-pos (b - 1)))
      (ground (
        arith,
        lt→ltb b 64 l,
        upper_ones b (omega arith),
        bit_or_high b (v % 2 ^ b) (2 ^ (64 - b) - 1) below,
        two-pow_mono b 64 (omega arith),
        below,
      ))

extended-low :
    (s : Bool) (b v : ℕ) → v < 2 ^ 64 → b ≤ 64 → extended_pattern s b v ≡ low (value_at s b v) 64
extended-low s b v h l = elim (Bool-cases (ltb b 64)) [
  | inl narrow ↦ extended-low_narrow s b v (ltb→lt b 64 narrow)
  | inr whole ↦
      let e : b ≡ 64 = ground arith in
      subst (λ (k : ℕ). extended_pattern s k v ≡ low (value_at s k v) 64) (sym e)
        (extended-low_whole s v h)
]

-- The fold of a cast between integer types of at most 64 bits: the pattern is the integer that the
-- source holds, modulo 2 ^ c, and it is marked unsigned exactly for an unsigned target.
pub fold_int_cast_lem :
    (s t : Bool) (b c : ℕ) (v : ConstInt)
    → InRange v
    → b ≤ 64
    → c ≤ 64
    → fold_int_cast (int s b) (int t c) v
      ≡ some (record { bits = low (value_at s b v.bits) c; is_unsigned = not t })
unfolding fold_int_cast
fold_int_cast_lem s t b c v h l k =
    let wide = extended-low s b v.bits h l in
    ground (arith, wide, low-low (value_at s b v.bits) c k)

low-lt : (x : ℤ) (w : ℕ) → low x w < 2 ^ w
low-lt (pos n) w = mod-lt n (two-pow-pos w)
low-lt (negsuc n) w = omega (arith, two-pow-pos w)
