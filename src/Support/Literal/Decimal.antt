-- ===== src/Support/Literal/Decimal.antt =====
-- Plain decimal literals (src/support/consteval/literal.cc) are accepted.
use mincplus.Prelude.{
  ℕ, ◌-◌, ◌%◌, ◌^◌, ◌≡◌, ◌≢◌, ◌∙◌, ap, refl, Bool, true, false, ◌&&◌, ◌||◌, not, ltb, leb, ◌==◌,
  if◌then◌else◌, some, List, [], ◌∷◌, length, arith, take, subst, sym, and_parts,
}
use mincplus.Support.Suffix.{is_decimal_digit, classify_suffix, absent}
use mincplus.Support.Suffix.Number.{is_separator}
use mincplus.Support.Literal.{
  Scan, scan_digits, digit_of, take_digit, no_digits, parse_integer_literal, IntegerBaseRule,
  integer_base, finish_integer, with_suffix, IntegerLiteral, no_integer, malformed_integer,
  misplaced_separator,
}
use mincplus.Support.Literal.Value.{digits, positional, scan_digits-Holds}

abbrev pub all_decimal : List ℕ → Bool
all_decimal [] = true
all_decimal (c ∷ cs) = is_decimal_digit c && all_decimal cs

decimal_digit :
    (c : ℕ)
    → is_decimal_digit c ≡ true
    → (is_separator c ≡ false) × (digit_of 10 c ≡ some (c - b'0'))
decimal_digit c h = ground arith

-- The scan goes to the end and finds no separator.
abbrev Clean : Scan → Type 0
Clean s = (s.misplaced ≡ false) × (s.last_was_separator ≡ false)

scan_digits-Clean :
    (text : List ℕ) (s : Scan)
    → all_decimal text ≡ true
    → Clean s
    → let r = scan_digits 10 text s in
      (r.1 ≡ []) × Clean r.0 × (s.any_digit ≡ true → r.0.any_digit ≡ true)
unfolding scan_digits
scan_digits-Clean [] s h k = (refl, k, λ e. e)
scan_digits-Clean (c ∷ cs) s h k =
    let (head, tail) = and_parts (is_decimal_digit c) (all_decimal cs) h in
    let (e, o) = decimal_digit c head in
    let (end, clean, any) = scan_digits-Clean cs (take_digit 10 (c - b'0') s) tail (k.0, refl) in
    rw (e, o, scan_digits) (end, clean, λ _. any refl)

first_digit :
    (c : ℕ) (cs : List ℕ) (s : Scan)
    → all_decimal (c ∷ cs) ≡ true
    → Clean s
    → let r = scan_digits 10 (c ∷ cs) s in (r.1 ≡ []) × Clean r.0 × (r.0.any_digit ≡ true)
unfolding scan_digits
first_digit c cs s h k =
    let (head, tail) = and_parts (is_decimal_digit c) (all_decimal cs) h in
    let (e, o) = decimal_digit c head in
    let (end, clean, any) = scan_digits-Clean cs (take_digit 10 (c - b'0') s) tail (k.0, refl) in
    rw (e, o, scan_digits) (end, clean, any refl)

decimal_base :
    (c : ℕ) (cs : List ℕ) (rule : IntegerBaseRule)
    → c ≢ b'0'
    → integer_base rule (c ∷ cs) ≡ (10, c ∷ cs)
unfolding integer_base
decimal_base c [] rule z = refl
decimal_base c (d ∷ cs) rule z = ground arith

-- What `parse_integer_literal` does after the scan.
abbrev conclude : List ℕ → Scan × List ℕ → IntegerLiteral
conclude text r =
    if not r.0.any_digit
    then no_integer malformed_integer [] absent
    else if r.0.misplaced || r.0.last_was_separator
    then no_integer misplaced_separator [] absent
    else with_suffix r.0 (take (length text - length r.1) text) r.1

conclude-Clean :
    (text : List ℕ) (s : Scan)
    → Clean s
    → s.any_digit ≡ true
    → conclude text (s, []) ≡ finish_integer s false (take (length text - 0) text) absent
unfolding classify_suffix
conclude-Clean text s clean any = rw (any, clean.0, clean.1) refl

-- A text of decimal digits that does not begin with `0` is an integer literal under both base rules:
-- it is `ok` exactly when its number is below 2 ^ 64, and then it is unsigned exactly from 2 ^ 63 on.
pub parse_integer_literal_decimal :
    (c : ℕ) (cs : List ℕ) (rule : IntegerBaseRule)
    → all_decimal (c ∷ cs) ≡ true
    → c ≢ b'0'
    → let r = parse_integer_literal (c ∷ cs) rule in
      let n = positional 10 0 (digits 10 (c ∷ cs)) in
      (r.ok ≡ ltb n (2 ^ 64))
      × (r.value.bits ≡ n % 2 ^ 64)
      × (r.value.is_unsigned ≡ r.ok && leb (2 ^ 63) n)
unfolding parse_integer_literal
parse_integer_literal_decimal c cs rule h z = subst Answer (sym result) (
    ground
      (arith, scan_digits-Holds 10 (c ∷ cs) 0 no_digits (omega arith) (omega arith) (refl, refl)))
  where
    n : ℕ
    n = positional 10 0 (digits 10 (c ∷ cs))

    Answer : IntegerLiteral → Type 0
    Answer r =
        (r.ok ≡ ltb n (2 ^ 64))
        × (r.value.bits ≡ n % 2 ^ 64)
        × (r.value.is_unsigned ≡ r.ok && leb (2 ^ 63) n)

    r : Scan × List ℕ
    r = scan_digits 10 (c ∷ cs) no_digits

    read : (r.1 ≡ []) × Clean r.0 × (r.0.any_digit ≡ true)
    read = first_digit c cs no_digits h (refl, refl)

    not_empty : (length (c ∷ cs) == 0) ≡ false
    not_empty = ground arith

    skip :
        parse_integer_literal (c ∷ cs) rule
        ≡ conclude
            (c ∷ cs)
            (scan_digits (integer_base rule (c ∷ cs)).0 (integer_base rule (c ∷ cs)).1 no_digits)
    skip = rw (not_empty, parse_integer_literal) refl

    result :
        parse_integer_literal (c ∷ cs) rule
        ≡ finish_integer r.0 false (take (length (c ∷ cs) - 0) (c ∷ cs)) absent
    result =
        skip
        ∙ (ap (λ (p : ℕ × List ℕ). conclude (c ∷ cs) (scan_digits p.0 p.1 no_digits))
              (decimal_base c cs rule z)
            ∙ ap (λ (rest : List ℕ). conclude (c ∷ cs) (r.0, rest)) read.0
            ∙ conclude-Clean (c ∷ cs) r.0 read.1 read.2)
