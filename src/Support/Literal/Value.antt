-- ===== src/Support/Literal/Value.antt =====
-- The value of an integer literal (src/support/consteval/literal.cc) as its digits spell it.
use native.Mathlib.Nat.{le-div_iff_mul-le, le-mul_of_pos_right}
use mincplus.Prelude.{
  sym, take, if_both, ℕ, ◌+◌, ◌-◌, ◌*◌, ◌/◌, ◌%◌, ◌^◌, ◌≤◌, ◌<◌, ◌≡◌, ◌∙◌, ap, refl, Bool, true,
  false, ◌||◌, not, ltb, leb, ◌==◌, if◌then◌else◌, Option, none, some, List, [], ◌∷◌, length, arith,
  Bool-cases, Option-cases, inl, inr,
}
use mincplus.Support.Suffix.Number.{is_separator}
use mincplus.Support.Literal.{
  Scan, scan_digits, digit_of, take_digit, take_separator, no_digits, without_separators,
  parse_integer_literal, IntegerBaseRule, integer_base, uint64_max, hex_value, IntegerLiteral,
  implicit_octal, decimal_leading_zero, finish_integer, with_suffix, no_integer, unknown_suffix,
  suffix_refused,
}
use mincplus.Support.Suffix.{
  LiteralSuffix, SuffixStatus, no_suffix, refused, typed, classify_suffix, is_unsigned_suffix,
}

-- The digits at the front of a text, separators passed over.
abbrev pub digits : ℕ → List ℕ → List ℕ
digits base [] = []
digits base (c ∷ cs) = elim (is_separator c) [
  | true ↦ digits base cs
  | false ↦ elim (digit_of base c) [ some d ↦ d ∷ digits base cs | none ↦ [] ]
]

-- What digits stand for, behind a number.
abbrev pub positional : ℕ → ℕ → List ℕ → ℕ
positional base n [] = n
positional base n (d ∷ ds) = positional base (n * base + d) ds

-- The state that holds a number exactly, or modulo 2 ^ 64 with the mark of an overflow.
abbrev pub Holds : ℕ → Scan → Type 0
Holds n s = (s.value ≡ n % 2 ^ 64) × (s.overflowed ≡ leb (2 ^ 64) n)

wrap : (x k : ℕ) → (x + 2 ^ 64 * k) % 2 ^ 64 ≡ x % 2 ^ 64
wrap x k = omega arith

wrapped_digit : (base d n : ℕ) → (n % 2 ^ 64 * base + d) % 2 ^ 64 ≡ (n * base + d) % 2 ^ 64
wrapped_digit base d n =
    sym (ap (λ (m : ℕ). m % 2 ^ 64) whole ∙ wrap (n % 2 ^ 64 * base + d) (n / 2 ^ 64 * base))
  where
    product : n * base ≡ (2 ^ 64 * (n / 2 ^ 64) + n % 2 ^ 64) * base
    product = ap (λ (m : ℕ). m * base) (omega arith)

    whole : n * base + d ≡ n % 2 ^ 64 * base + d + 2 ^ 64 * (n / 2 ^ 64 * base)
    whole = omega (arith, product)

-- The room that is left decides an overflow exactly.
room :
    (base d n : ℕ)
    → 2 ≤ base
    → base ≤ 16
    → d < base
    → ltb ((uint64_max - d) / base) n ≡ leb (2 ^ 64) (n * base + d)
room base d n l h b =
    ground (arith, le-div_iff_mul-le {k = base} {x = n} {y = uint64_max - d} (omega arith))

grows : (base d n : ℕ) → 2 ≤ base → n ≤ n * base + d
grows base d n l = let h : n ≤ n * base = le-mul_of_pos_right n (omega arith) in omega (arith, h)

take_digit-Holds :
    (base d n : ℕ) (s : Scan)
    → 2 ≤ base
    → base ≤ 16
    → d < base
    → Holds n s
    → Holds (n * base + d) (take_digit base d s)
take_digit-Holds base d n s l h b (value, over) = (
  rw value (wrapped_digit base d n),
  elim (Bool-cases (leb (2 ^ 64) n)) [
    | inl big ↦ ground (arith, over, big, grows base d n l)
    | inr small ↦
        let exact : s.value ≡ n = ground (arith, value, small) in
        rw (exact, over, small) (room base d n l h b)
  ],
)

digit_of_below : (base c d : ℕ) → digit_of base c ≡ some d → d < base
digit_of_below base c d h = by_value (hex_value c) h
  where
    by_value :
        (v : Option ℕ)
        → (let o : Option ℕ = elim v [
          | some d ↦ if ltb d base then some d else none
          | none ↦ none
        ] in
            o)
          ≡ some d
        → d < base
    by_value (some e) k = ground arith
    by_value none k = cc

pub scan_digits-Holds :
    (base : ℕ) (text : List ℕ) (n : ℕ) (s : Scan)
    → 2 ≤ base
    → base ≤ 16
    → Holds n s
    → Holds (positional base n (digits base text)) (scan_digits base text s).0
unfolding scan_digits
scan_digits-Holds base [] n s l h k = k
scan_digits-Holds base (c ∷ cs) n s l h k = elim (Bool-cases (is_separator c)) [
  | inl e ↦ rw (e, scan_digits, digits) (scan_digits-Holds base cs n (take_separator s) l h k)
  | inr e ↦ elim (Option-cases (digit_of base c)) [
    | inl o ↦ rw (e, o, scan_digits, digits) k
    | inr (d, o) ↦
        rw (e, o, scan_digits, digits)
          (scan_digits-Holds base cs (n * base + d) (take_digit base d s) l h
            (take_digit-Holds base d n s l h (digit_of_below base c d o) k))
  ]
]

abbrev pub base_of : IntegerBaseRule → List ℕ → ℕ
base_of rule text = (integer_base rule text).0

-- The number that the digits of a literal spell.
abbrev pub spelled : IntegerBaseRule → List ℕ → ℕ
spelled rule text =
    let (base, body) = integer_base rule text in positional base 0 (digits base body)

integer_base_range :
    (rule : IntegerBaseRule) (text : List ℕ) → (2 ≤ base_of rule text) × (base_of rule text ≤ 16)
unfolding integer_base
integer_base_range rule [] = ground arith
integer_base_range rule (z ∷ []) = ground arith
integer_base_range implicit_octal (z ∷ c ∷ rest) = ground arith
integer_base_range decimal_leading_zero (z ∷ c ∷ rest) = ground arith

-- What the value fields of a result say of the number that the digits spell.
abbrev IsExact : ℕ → IntegerLiteral → Type 0
IsExact n r =
    (r.ok ≡ true → (r.value.bits ≡ n) × (n < 2 ^ 64))
    × (r.is_too_wide ≡ true → (r.value.bits ≡ n % 2 ^ 64) × (2 ^ 64 ≤ n))

finish_integer-IsExact :
    (n : ℕ) (s : Scan) (u : Bool) (number : List ℕ) (suffix : LiteralSuffix)
    → Holds n s
    → IsExact n (finish_integer s u number suffix)
finish_integer-IsExact n s u number suffix (value, over) = elim (Bool-cases s.overflowed) [
  | inl o ↦ rw o ((λ e. cc), (λ e. (value, ground arith)))
  | inr o ↦ rw o ((λ e. ground arith), (λ e. cc))
]

with_suffix-IsExact :
    (n : ℕ) (s : Scan) (number rest : List ℕ) → Holds n s → IsExact n (with_suffix s number rest)
with_suffix-IsExact n s number rest k = by_status suffix.status
  where
    suffix : LiteralSuffix
    suffix = classify_suffix rest false

    by_status :
        (status : SuffixStatus)
        → IsExact n (
            let r : IntegerLiteral = elim status [
              | no_suffix ↦
                  if not (length rest == 0)
                  then no_integer unknown_suffix number suffix
                  else finish_integer s false number suffix
              | refused ↦ no_integer (suffix_refused suffix.message) number suffix
              | typed ↦ finish_integer s (is_unsigned_suffix suffix.type) number suffix
            ] in
            r)
    by_status no_suffix =
        if_both (IsExact n) (not (length rest == 0)) ((λ e. cc), (λ e. cc))
          (finish_integer-IsExact n s false number suffix k)
    by_status refused = ((λ e. cc), (λ e. cc))
    by_status typed = finish_integer-IsExact n s (is_unsigned_suffix suffix.type) number suffix k

parse-IsExact :
    (text : List ℕ) (rule : IntegerBaseRule)
    → IsExact (spelled rule text) (parse_integer_literal text rule)
unfolding parse_integer_literal
parse-IsExact text rule =
    if_both (IsExact n) (length text == 0) ((λ e. cc), (λ e. cc))
      (if_both (IsExact n) (not s.0.any_digit) ((λ e. cc), (λ e. cc))
        (if_both (IsExact n) (s.0.misplaced || s.0.last_was_separator) ((λ e. cc), (λ e. cc))
          (with_suffix-IsExact n s.0 (take (length text - length s.1) text) s.1 held)))
  where
    n : ℕ
    n = spelled rule text

    s : Scan × List ℕ
    s = scan_digits (integer_base rule text).0 (integer_base rule text).1 no_digits

    held : Holds n s.0
    held =
        let (low, high) = integer_base_range rule text in
        scan_digits-Holds (integer_base rule text).0 (integer_base rule text).1 0 no_digits low high
          (refl, refl)

-- An integer literal that is `ok` has the value that its digits spell in its base, separators left
-- out, and that value is below 2 ^ 64.
pub parse_integer_literal_exact :
    (text : List ℕ) (rule : IntegerBaseRule)
    → (parse_integer_literal text rule).ok ≡ true
    → ((parse_integer_literal text rule).value.bits ≡ spelled rule text)
      × (spelled rule text < 2 ^ 64)
unfolding parse_integer_literal integer_base
parse_integer_literal_exact text rule h = (parse-IsExact text rule).0 h

-- An integer literal is called too wide only when its digits spell 2 ^ 64 or more; the value that is
-- handed over is the number modulo 2 ^ 64.
pub parse_integer_literal_wide :
    (text : List ℕ) (rule : IntegerBaseRule)
    → (parse_integer_literal text rule).is_too_wide ≡ true
    → ((parse_integer_literal text rule).value.bits ≡ spelled rule text % 2 ^ 64)
      × (2 ^ 64 ≤ spelled rule text)
unfolding parse_integer_literal integer_base
parse_integer_literal_wide text rule h = (parse-IsExact text rule).1 h

-- Taking the separators out of a text leaves the digits that are read from it.
pub digits-without_separators :
    (base : ℕ) (text : List ℕ) → digits base (without_separators text) ≡ digits base text
unfolding without_separators
digits-without_separators base [] = refl
digits-without_separators base (c ∷ cs) = elim (Bool-cases (is_separator c)) [
  | inl e ↦ rw (e, without_separators, digits) (digits-without_separators base cs)
  | inr e ↦ elim (Option-cases (digit_of base c)) [
    | inl o ↦ rw (e, without_separators) (rw (e, o, digits) refl)
    | inr (d, o) ↦
        rw (e, without_separators)
          (rw (e, o, digits) (ap (λ (ds : List ℕ). d ∷ ds) (digits-without_separators base cs)))
  ]
]
