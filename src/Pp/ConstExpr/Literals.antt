-- ===== src/Pp/ConstExpr/Literals.antt =====
-- The readers of literals that a `#if` expression uses: `parseIntegerLiteral` and
-- `parseCharLiteral` of src/pp/const_expr.cc, over those of src/support/consteval/literal.cc.
use mincplus.Prelude.{
  ℕ, suc, ◌^◌, ◌<◌, ◌≡◌, ◌≢◌, refl, true, false, ltb, if◌then◌else◌, Option, none, some, List, [],
  ◌∷◌, length, arith,
}
use mincplus.Support.ConstInt.{ConstInt}
use mincplus.Support.Span.{Span}
use mincplus.Support.Literal.{implicit_octal, parse_integer_literal}
use mincplus.Support.Literal.Decimal.{all_decimal, parse_integer_literal_decimal}
use mincplus.Support.Literal.Text.{parse_char_literal}
use mincplus.Support.Literal.Value.{digits, positional}
use mincplus.Pp.ConstExpr.{Readers, PpToken, integer_literal}
use mincplus.Pp.ConstExpr.Grammar.{evaluate_const_expr}

abbrev pub read_integer : List ℕ → Option ConstInt
read_integer text =
    let parsed = parse_integer_literal text implicit_octal in
    if parsed.ok then some parsed.value else none

abbrev pub read_character : List ℕ → Option ConstInt
read_character text = elim (parse_char_literal text) [
  | some parsed ↦ if parsed.ok then some parsed.value else none
  | none ↦ none
]

abbrev pub literal_readers : Readers
literal_readers = record { integer = read_integer; character = read_character }

-- `kMaxNestingDepth` of include/support/limits.h.
abbrev pub max_nesting_depth : ℕ
max_nesting_depth = 1024

abbrev pub literal : List ℕ → Span → PpToken
literal text span = record { kind = integer_literal; span = span; text = text }

evaluate_literal :
    (c : ℕ) (cs : List ℕ) (span : Span) (v : ConstInt)
    → read_integer (c ∷ cs) ≡ some v
    → (evaluate_const_expr literal_readers max_nesting_depth (literal (c ∷ cs) span ∷ []))
      ≡ record { ok = true; value = v; error = none; undefined_names = [] }
unfolding evaluate_const_expr
evaluate_literal c cs span v e =
    let long : ltb (suc (length cs)) 1 ≡ false = ground arith in rw (long, e) refl

-- A `#if` of one decimal number that does not begin with `0` and is below 2 ^ 64 is ok and has its
-- value.
pub evaluate_decimal :
    (c : ℕ) (cs : List ℕ) (span : Span)
    → all_decimal (c ∷ cs) ≡ true
    → c ≢ b'0'
    → positional 10 0 (digits 10 (c ∷ cs)) < 2 ^ 64
    → let r = evaluate_const_expr literal_readers max_nesting_depth (literal (c ∷ cs) span ∷ []) in
      (r.ok ≡ true) × (r.value.bits ≡ positional 10 0 (digits 10 (c ∷ cs)))
evaluate_decimal c cs span h z below =
    let (ok, bits, sign) = parse_integer_literal_decimal c cs implicit_octal h z in
    let accepted : (parse_integer_literal (c ∷ cs) implicit_octal).ok ≡ true = ground arith in
    let read : read_integer (c ∷ cs) ≡ some (parse_integer_literal (c ∷ cs) implicit_octal).value =
      rw accepted refl in
    rw (evaluate_literal c cs span (parse_integer_literal (c ∷ cs) implicit_octal).value read)
      (refl, omega (arith, bits))
