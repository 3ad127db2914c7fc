-- ===== src/Tests/ConstExpr.antt =====
-- Runs of the `#if` evaluator.
use mincplus.Prelude.{ℕ, ◌≡◌, refl, true, false, Option, none, some, List, [], ◌∷◌, ◌-◌}
use mincplus.Support.ConstInt.{ConstInt}
use mincplus.Support.Span.{no_span}
use mincplus.Pp.ConstExpr.{
  TokenKind, integer_literal, l_paren, r_paren, plus, star, slash, amp_amp, question, PpToken,
  Readers, unexpected_token,
}
use mincplus.Pp.ConstExpr.Grammar.{evaluate_const_expr}

-- A reader of one decimal digit.
abbrev pub digit : List ℕ → Option ConstInt
digit [] = none
digit (c ∷ cs) = some (record { bits = c - 48; is_unsigned = false })

abbrev pub digits_only : Readers
digits_only = record { integer = digit; character = digit }

abbrev pub token : TokenKind → PpToken
token k = record { kind = k; span = no_span; text = [] }

abbrev pub number : ℕ → PpToken
number c = record { kind = integer_literal; span = no_span; text = c ∷ [] }

-- 1 + 2 * 3
precedence :
    (evaluate_const_expr digits_only 9
      (number b'1' ∷ token plus ∷ number b'2' ∷ token star ∷ number b'3' ∷ [])).value
    ≡ record { bits = 7; is_unsigned = false }
unfolding evaluate_const_expr
precedence = refl

-- 0 && (1 / 0): the untaken side may divide by zero.
short_circuit :
    (evaluate_const_expr digits_only 9 (
      number b'0'
      ∷ token amp_amp
      ∷ token l_paren
      ∷ number b'1'
      ∷ token slash
      ∷ number b'0'
      ∷ token r_paren
      ∷ [])).ok
    ≡ true
unfolding evaluate_const_expr
short_circuit = refl

-- 0 && 1 / 0 * 2 is refused at the `*`, though the same side in parentheses is accepted.
unparenthesized :
    (evaluate_const_expr digits_only 9 (
      number b'0'
      ∷ token amp_amp
      ∷ number b'1'
      ∷ token slash
      ∷ number b'0'
      ∷ token star
      ∷ number b'2'
      ∷ [])).error
    ≡ some (record { span = no_span; message = unexpected_token })
unfolding evaluate_const_expr
unparenthesized = refl

-- 1 ? 1, with no `:`, is accepted with the value 0.
no_colon :
    evaluate_const_expr digits_only 9 (number b'1' ∷ token question ∷ number b'1' ∷ []) ≡ record {
      ok = true;
      value = record { bits = 0; is_unsigned = false };
      error = none;
      undefined_names = [];
    }
unfolding evaluate_const_expr
no_colon = refl

-- 0 && (((( is accepted, also where the parentheses nest deeper than the limit.
unclosed :
    (evaluate_const_expr digits_only 2 (
      number b'0'
      ∷ token amp_amp
      ∷ token l_paren
      ∷ token l_paren
      ∷ token l_paren
      ∷ token l_paren
      ∷ [])).ok
    ≡ true
unfolding evaluate_const_expr
unclosed = refl
