-- ===== src/Support/Constraint/Limits.antt =====
-- The integers that `integerConstantValue` of src/support/constraint/constraint.cc gives.
use mincplus.Prelude.{
  ℕ, ◌+◌, ◌-◌, ◌*◌, ◌/◌, ◌^◌, ◌≤◌, ◌<◌, ◌≡◌, ◌↔◌, Bool, true, false, not, ltb, leb, ◌==◌, ◌||◌,
  if◌then◌else◌, none, some, refl, arith, ap, Bool-cases, ==_iff, leb→le, inl, inr,
}
use mincplus.Prelude.Powers.{pow_split, two-pow-pos, two-pow_mono}
use mincplus.Support.Constraint.{
  IntConstant, TypeConstant, constant_zero, constant_one, constant_min, constant_max,
  constant_epsilon, constant_infinity, constant_nan, is_float_only, integer_constant_value,
  min_words, max_words, all_ones,
}

-- The pattern of the two words.
abbrev pub pattern : IntConstant → ℕ
pattern v = v.low + v.high * 2 ^ 64

-- The pattern that a constant has at a width: for the smallest signed value the sign bit alone.
abbrev pub expected : ℕ → Bool → TypeConstant → ℕ
expected bits signed constant_one = 1
expected bits signed constant_min = if signed then 2 ^ (bits - 1) else 0
expected bits signed constant_max = if signed then 2 ^ (bits - 1) - 1 else 2 ^ bits - 1
expected bits signed _ = 0

-- Two words that make up a number.
abbrev Makes : ℕ × ℕ → ℕ → Type 0
Makes w n = (w.0 + w.1 * 2 ^ 64 ≡ n) × (w.0 < 2 ^ 64) × (w.1 < 2 ^ 64)

-- The two counts that the code takes off a width, in either order.
swap : (b : ℕ) → b - 1 - 64 ≡ b - 64 - 1
swap b = omega arith

min_words-Makes :
    (b : ℕ) (s : Bool) → 1 ≤ b → b ≤ 128 → Makes (min_words b s) (if s then 2 ^ (b - 1) else 0)
min_words-Makes b false l h = ground arith
min_words-Makes b true l h = ground (
  arith,
  two-pow_mono (b - 1) 63,
  two-pow_mono (b - 65) 63,
  pow_split (b - 1) 64,
  ap (λ (k : ℕ). 2 ^ k) (minus_minus b),
)
  where
    minus_minus : (b : ℕ) → b - 1 - 64 ≡ b - 65
    minus_minus b = omega arith

-- k ones, one of them shifted out.
ones_half : (k : ℕ) → 1 ≤ k → (2 ^ k - 1) / 2 ≡ 2 ^ (k - 1) - 1
ones_half k h = omega (arith, pow_split k 1 h, two-pow-pos (k - 1))

-- k ones for a k up to 64, as the code makes them.
ones : (k : ℕ) → (if k == 64 then all_ones else 2 ^ k - 1) ≡ 2 ^ k - 1
ones k = elim (Bool-cases (k == 64)) [
  | inl e ↦ rw e (rw ((==_iff k 64).0 e) refl)
  | inr n ↦ rw n refl
]

-- Ones on top of 64 ones.
ones_on_top : (k : ℕ) → 2 ^ 64 - 1 + (2 ^ k - 1) * 2 ^ 64 ≡ 2 ^ k * 2 ^ 64 - 1
ones_on_top k = omega (arith, two-pow-pos k)

max_words-Makes :
    (b : ℕ) (s : Bool)
    → 1 ≤ b
    → b ≤ 128
    → Makes (max_words b s) (if s then 2 ^ (b - 1) - 1 else 2 ^ b - 1)
max_words-Makes b s l h = elim (Bool-cases (leb b 64)) [
  | inl narrow ↦ rw (narrow, ones b) (by_sign s (leb→le b 64 narrow))
  | inr wide ↦ rw (wide, ones_above) (above s (ground arith))
]
  where
    ones_above : (if b == 128 then all_ones else 2 ^ (b - 64) - 1) ≡ 2 ^ (b - 64) - 1
    ones_above = elim (Bool-cases (b == 128)) [
      | inl e ↦ rw e (rw ((==_iff b 128).0 e) refl)
      | inr n ↦ rw n refl
    ]

    by_sign :
        (s : Bool)
        → b ≤ 64
        → Makes
            (if s then (2 ^ b - 1) / 2 else 2 ^ b - 1, 0)
            (if s then 2 ^ (b - 1) - 1 else 2 ^ b - 1)
    by_sign false k = omega (arith, two-pow_mono b 64 k, two-pow-pos b)
    by_sign true k =
        rw (ones_half b l)
          (omega (arith, two-pow_mono (b - 1) 63 (omega arith), two-pow-pos (b - 1)))

    above :
        (s : Bool)
        → 64 < b
        → Makes
            (all_ones, if s then (2 ^ (b - 64) - 1) / 2 else 2 ^ (b - 64) - 1)
            (if s then 2 ^ (b - 1) - 1 else 2 ^ b - 1)
    above false k = omega (
      arith,
      ones_on_top (b - 64),
      pow_split b 64 (omega arith),
      two-pow_mono (b - 64) 64 (omega arith),
      two-pow-pos (b - 64),
    )
    above true k = rw (ones_half (b - 64) (omega arith)) (
        omega (
          arith,
          ones_on_top (b - 64 - 1),
          pow_split (b - 1) 64 (omega arith),
          ap (λ (k : ℕ). 2 ^ k) (swap b),
          two-pow_mono (b - 64 - 1) 63 (omega arith),
          two-pow-pos (b - 64 - 1),
        ))

-- At a width from 1 to 128 `integerConstantValue` gives each integer constant its pattern, in two
-- words and with the signedness asked for.
pub integer_constant_value_lem :
    (bits : ℕ) (signed : Bool) (c : TypeConstant) (v : IntConstant)
    → integer_constant_value bits signed c ≡ some v
    → (pattern v ≡ expected bits signed c)
      × (v.is_unsigned ≡ not signed)
      × (v.low < 2 ^ 64)
      × (v.high < 2 ^ 64)
unfolding integer_constant_value
integer_constant_value_lem bits signed constant_zero v h = ground arith
integer_constant_value_lem bits signed constant_one v h = ground arith
integer_constant_value_lem bits signed constant_min v h =
    ground (arith, min_words-Makes bits signed)
integer_constant_value_lem bits signed constant_max v h =
    ground (arith, max_words-Makes bits signed)
integer_constant_value_lem bits signed constant_epsilon v h = ground arith
integer_constant_value_lem bits signed constant_infinity v h = ground arith
integer_constant_value_lem bits signed constant_nan v h = ground arith

-- There is no value exactly for a width outside 1 to 128 and for the constants of floats.
pub integer_constant_value-none_iff :
    (bits : ℕ) (signed : Bool) (c : TypeConstant)
    → (integer_constant_value bits signed c ≡ none)
      ↔ (ltb bits 1 || ltb 128 bits || is_float_only c ≡ true)
unfolding integer_constant_value
integer_constant_value-none_iff bits signed constant_zero = ground arith
integer_constant_value-none_iff bits signed constant_one = ground arith
integer_constant_value-none_iff bits signed constant_min = ground arith
integer_constant_value-none_iff bits signed constant_max = ground arith
integer_constant_value-none_iff bits signed constant_epsilon = ground arith
integer_constant_value-none_iff bits signed constant_infinity = ground arith
integer_constant_value-none_iff bits signed constant_nan = ground arith
