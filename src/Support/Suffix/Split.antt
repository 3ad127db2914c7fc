-- ===== src/Support/Suffix/Split.antt =====
-- The splits of src/support/consteval/suffix.cc lose no byte.
use mathlib.Core.List.{append_assoc}
use mincplus.Prelude.{
  ℕ, ◌≡◌, ◌∙◌, ap, refl, Bool, true, false, ◌&&◌, ◌||◌, ◌==◌, if◌then◌else◌, List, [], ◌∷◌, ◌++◌,
  length, if_both,
}
use mincplus.Support.Suffix.{span}
use mincplus.Support.Suffix.Number.{
  takes_digit, split_prefix, base_of_prefix, split_fraction, split_sign, split_exponent,
  numeric_part_of_float, is_marker,
}

abbrev Joins : List ℕ → List ℕ × List ℕ → Type 0
Joins text parts = parts.0 ++ parts.1 ≡ text

pub span-Joins : (p : ℕ → Bool) (text : List ℕ) → Joins text (span p text)
span-Joins p [] = refl
span-Joins p (c ∷ cs) =
    if_both (Joins (c ∷ cs)) (p c) (ap (λ (t : List ℕ). c ∷ t) (span-Joins p cs)) refl

split_fraction-Joins : (base : ℕ) (text : List ℕ) → Joins text (split_fraction base text)
split_fraction-Joins base [] = refl
split_fraction-Joins base (c ∷ rest) =
    if_both (Joins (c ∷ rest)) (c == b'.')
      (ap (λ (t : List ℕ). c ∷ t) (span-Joins (takes_digit base) rest)) refl

split_sign-Joins : (text : List ℕ) → Joins text (split_sign text)
split_sign-Joins [] = refl
split_sign-Joins (c ∷ rest) = if_both (Joins (c ∷ rest)) (c == b'+' || c == b'-') refl refl

split_exponent-Joins : (base : ℕ) (text : List ℕ) → Joins text (split_exponent base text)
split_exponent-Joins base [] = refl
split_exponent-Joins base (c ∷ rest) =
    if_both (Joins (c ∷ rest)) (is_marker base c && (if length digits.0 == 0 then false else true))
      (ap (λ (t : List ℕ). c ∷ t)
        (append_assoc sign.0 digits.0 digits.1
          ∙ (ap (λ (t : List ℕ). sign.0 ++ t) (span-Joins (takes_digit base) sign.1)
              ∙ split_sign-Joins rest)))
      refl
  where
    sign : List ℕ × List ℕ
    sign = split_sign rest

    digits : List ℕ × List ℕ
    digits = span (takes_digit base) sign.1

split_prefix-Joins : (text : List ℕ) → Joins text ((split_prefix text).1, (split_prefix text).2)
split_prefix-Joins [] = refl
split_prefix-Joins (c ∷ []) = refl
split_prefix-Joins (z ∷ c ∷ rest) =
    if_both (λ (s : ℕ × List ℕ × List ℕ). Joins (z ∷ c ∷ rest) (s.1, s.2))
      (z == b'0' && (if base_of_prefix c == 10 then false else true)) refl refl

-- Two splits in a row.
then-Joins :
    (first : List ℕ) {middle text : List ℕ} (parts : List ℕ × List ℕ)
    → Joins middle parts
    → first ++ middle ≡ text
    → Joins text (first ++ parts.0, parts.1)
then-Joins first parts h e =
    append_assoc first parts.0 parts.1 ∙ (ap (λ (t : List ℕ). first ++ t) h ∙ e)

-- The number and what `numericPartOfFloat` leaves behind it make up the text.
pub numeric_part_of_float_joins :
    (text : List ℕ) → (numeric_part_of_float text).0 ++ (numeric_part_of_float text).1 ≡ text
unfolding numeric_part_of_float
numeric_part_of_float_joins text =
    then-Joins prefix (whole.0 ++ (fraction.0 ++ exponent.0), exponent.1)
      (then-Joins whole.0 (fraction.0 ++ exponent.0, exponent.1)
        (then-Joins fraction.0 exponent (split_exponent-Joins base fraction.1)
          (split_fraction-Joins base whole.1))
        (span-Joins (takes_digit base) body))
      (split_prefix-Joins text)
  where
    base : ℕ
    base = (split_prefix text).0

    prefix : List ℕ
    prefix = (split_prefix text).1

    body : List ℕ
    body = (split_prefix text).2

    whole : List ℕ × List ℕ
    whole = span (takes_digit base) body

    fraction : List ℕ × List ℕ
    fraction = split_fraction base whole.1

    exponent : List ℕ × List ℕ
    exponent = split_exponent base fraction.1
