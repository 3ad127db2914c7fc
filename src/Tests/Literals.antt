-- ===== src/Tests/Literals.antt =====
-- The theorems on literals, on UTF-8 and on the interner at fixed inputs.
use mincplus.Prelude.{
  ℕ, ◌≤◌, ◌<◌, ◌^◌, ◌≡◌, ◌↔◌, refl, true, false, some, List, [], ◌∷◌, ◌++◌, length, arith, All,
  IsByte, codes,
}
use mincplus.Support.Span.{no_span}
use mincplus.Support.Utf8.{decode_one, append_utf8, is_valid}
use mincplus.Support.Utf8.Code.{decode_one-append_utf8, decoded}
use mincplus.Support.Utf8.Strict.{decode_one-Starts}
use mincplus.Support.Utf8.Valid.{is_valid_iff, Encodes}
use mincplus.Support.Literal.{parse_integer_literal, implicit_octal, decimal_leading_zero}
use mincplus.Support.Literal.Escape.{is_scalar_value}
use mincplus.Support.Literal.Decimal.{parse_integer_literal_decimal}
use mincplus.Support.Literal.Value.{parse_integer_literal_exact, spelled}
use mincplus.Support.Literal.Text.{
  parse_char_literal, parse_string_literal, CharLiteral, StringLiteral, body_of, read_string,
}
use mincplus.Support.Literal.Text.Elements.{CharOutcome, parse_char_literal_elements}
use mincplus.Support.Literal.Text.Bytes.{
  StringOutcome, IsPlain, in_quotes, parse_string_literal_elements, parse_string_literal-in_quotes,
}
use mincplus.Pp.ConstExpr.{char_literal, equal_equal, minus}
use mincplus.Tests.ConstExpr.{token}
use mincplus.Support.Interner.{clear, intern, lookup_symbol}
use mincplus.Support.Interner.Laws.{IsValid, lookup_symbol-intern}
use mincplus.Pp.ConstExpr.Grammar.{evaluate_const_expr}
use mincplus.Pp.ConstExpr.Literals.{literal, literal_readers, evaluate_decimal, max_nesting_depth}

-- The euro sign.
abbrev euro : ℕ
euro = 0x20ac

decode_one-append_utf8_example :
    decode_one (append_utf8 euro ++ (65 ∷ [])) ≡ some (decoded euro (length (append_utf8 euro)))
decode_one-append_utf8_example = decode_one-append_utf8 euro (65 ∷ []) refl

-- é and a letter.
abbrev cafe : List ℕ
cafe = 0xc3 ∷ 0xa9 ∷ 65 ∷ []

cafe_bytes : All IsByte cafe
cafe_bytes = (omega arith, (omega arith, (omega arith, tt)))

decode_one-Starts_example :
    (rest : List ℕ) × (cafe ≡ append_utf8 0xe9 ++ rest)
    × (is_scalar_value 0xe9 ≡ true)
    × (2 ≡ length (append_utf8 0xe9))
unfolding decode_one
decode_one-Starts_example = decode_one-Starts cafe (decoded 0xe9 2) cafe_bytes refl

is_valid_iff_example : (is_valid cafe ≡ true) ↔ Encodes cafe
is_valid_iff_example = is_valid_iff cafe cafe_bytes

-- 0x_1F would be refused; 0x1_F is 31.
abbrev hex : List ℕ
hex = codes "0x1_F"

parse_integer_literal_exact_example :
    ((parse_integer_literal hex implicit_octal).value.bits ≡ spelled implicit_octal hex)
    × (spelled implicit_octal hex < 2 ^ 64)
unfolding parse_integer_literal
parse_integer_literal_exact_example = parse_integer_literal_exact hex implicit_octal refl

abbrev quoted : List ℕ
quoted = codes "'a\\x41'"

parse_char_literal_elements_example :
    (r : CharLiteral) × (parse_char_literal quoted ≡ some r)
    × CharOutcome 0 0 (body_of quoted) r
    × (r.units ≤ length (body_of quoted))
parse_char_literal_elements_example = parse_char_literal_elements quoted (omega arith)

parse_string_literal_elements_example :
    (r : StringLiteral) × (parse_string_literal quoted ≡ some r)
    × StringOutcome [] (body_of quoted) r
    × All IsByte r.bytes
parse_string_literal_elements_example = parse_string_literal_elements quoted (omega arith)

plain : (c : ℕ) → c < 92 → IsPlain c
plain c h = record { is_byte = omega arith; no_escape = ground arith }

parse_string_literal-in_quotes_example :
    parse_string_literal (in_quotes (codes "A1")) ≡ some (read_string (codes "A1"))
parse_string_literal-in_quotes_example =
    parse_string_literal-in_quotes (codes "A1")
      (plain b'A' (omega arith), (plain b'1' (omega arith), tt))

-- #if 42
evaluate_decimal_example :
    let r =
      evaluate_const_expr literal_readers max_nesting_depth (literal (codes "42") no_span ∷ []) in
    (r.ok ≡ true) × (r.value.bits ≡ 42)
evaluate_decimal_example =
    evaluate_decimal b'4' (b'2' ∷ []) no_span refl (omega arith) (omega arith)

parse_integer_literal_decimal_example :
    let r = parse_integer_literal (codes "255") decimal_leading_zero in
    (r.ok ≡ true) × (r.value.bits ≡ 255) × (r.value.is_unsigned ≡ false)
unfolding parse_integer_literal
parse_integer_literal_decimal_example =
    parse_integer_literal_decimal b'2' (codes "55") decimal_leading_zero refl (omega arith)

-- #if 0x10 == 'a' - 81
reads_both :
    (evaluate_const_expr literal_readers max_nesting_depth (
      literal (codes "0x10") no_span
      ∷ token equal_equal
      ∷ record { kind = char_literal; span = no_span; text = codes "'a'" }
      ∷ token minus
      ∷ literal (codes "81") no_span
      ∷ [])).value.bits
    ≡ 1
unfolding evaluate_const_expr parse_integer_literal parse_char_literal
reads_both = refl

clear-IsValid : IsValid clear
clear-IsValid text i = ((λ h. cc), (λ h. cc))

lookup_symbol-intern_example :
    let next = (intern 9 clear (codes "main")).1 in
    (lookup_symbol next 0 ≡ codes "main") × (intern 9 next (codes "main") ≡ (some 0, next))
unfolding intern
lookup_symbol-intern_example = lookup_symbol-intern 9 clear (codes "main") 0 clear-IsValid refl
