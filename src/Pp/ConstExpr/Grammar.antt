-- ===== src/Pp/ConstExpr/Grammar.antt =====
-- The recursive part of the grammar of src/pp/const_expr.cc: `DepthGuard`, `parsePrimary`,
-- `parseUnary`, `parseConditional`, and `evaluateConstExpr`.
use mincplus.Prelude.{
  ℕ, zero, suc, ◌+◌, ◌-◌, ◌*◌, Bool, false, ◌&&◌, not, ltb, ◌==◌, if◌then◌else◌, Option, none, some,
  List, [], ◌∷◌, ◌++◌, length,
}
use mincplus.Support.ConstInt
use mincplus.Support.ConstInt.{ConstInt, truthy}
use mincplus.Support.Span.{no_span}
use mincplus.Pp.ConstExpr.{
  TokenKind, identifier, integer_literal, char_literal, l_paren, r_paren, question, colon, plus,
  minus, bang, tilde, PpToken, Message, PpError, unexpected_token, expected_colon, expected_close,
  unterminated, expected_after_last, expected_primary, malformed_integer, malformed_char,
  nests_too_deeply, undefined_identifier, State, Parser, Readers, zero_int, peek, take, at_end,
  fail, suppressing,
}
use mincplus.Pp.ConstExpr.Levels.{parse_logical_or}

-- The body of a function that holds a `DepthGuard` and returns at once after a failure.
unfoldable pub guarded : ℕ → Parser → Parser
unfolding fail
guarded max_depth body s =
    let inside = record s { depth = s.depth + 1 } in
    let checked =
      if ltb max_depth inside.depth then fail no_span nests_too_deeply inside else inside in
    let done = if checked.failed then (zero_int, checked) else body checked in
    (done.0, record (done.1) { depth = done.1.depth - 1 })

-- `parseIntegerLiteral` and `parseCharLiteral` on a token that has been taken.
unfoldable pub parse_literal : (List ℕ → Option ConstInt) → ℕ → Message → PpToken → Parser
unfolding fail
parse_literal read shortest message token s =
    if ltb (length token.text) shortest
    then (zero_int, fail token.span message s)
    else elim (read token.text) [ some v ↦ (v, s) | none ↦ (zero_int, fail token.span message s) ]

unfoldable pub parse_identifier : Parser
parse_identifier s =
    let token = peek s in
    let s' = take s in
    let name : PpError = record { span = token.span; message = undefined_identifier } in
    (
      zero_int,
      if s'.suppressed == 0
          then record s' { undefined_names = s'.undefined_names ++ (name ∷ []) }
          else s',
    )

unfoldable pub parse_parenthesized : Parser → Parser
unfolding fail
parse_parenthesized conditional s =
    let token = peek s in
    let (inner, s') = conditional (take s) in
    if s'.failed then (inner, s') else elim (peek s').kind [
      | r_paren ↦ (inner, take s')
      | _ ↦ (
        zero_int,
        if not (at_end s')
            then fail (peek s').span expected_close s'
            else fail token.span unterminated s',
      )
    ]

unfoldable pub parse_primary : Readers → Parser → Parser
unfolding parse_literal parse_identifier parse_parenthesized fail
parse_primary readers conditional s = if s.failed then (zero_int, s) else elim (peek s).kind [
  | identifier ↦ parse_identifier s
  | integer_literal ↦ parse_literal readers.integer 1 malformed_integer (peek s) (take s)
  | char_literal ↦ parse_literal readers.character 2 malformed_char (peek s) (take s)
  | l_paren ↦ parse_parenthesized conditional s
  | _ ↦ (
    zero_int,
    if at_end s
        then fail (peek s).span expected_after_last s
        else fail (peek s).span expected_primary s,
  )
]

-- The prefix operator that a kind of token is.
abbrev pub unary_operator : TokenKind → Option (ConstInt → ConstInt)
unary_operator minus = some ConstInt.negate
unary_operator plus = some (λ v. v)
unary_operator bang = some ConstInt.logical_not
unary_operator tilde = some ConstInt.bit_not
unary_operator _ = none

unfoldable pub parse_unary : ℕ → Parser → Parser → Parser
unfolding guarded
parse_unary max_depth unary primary = guarded max_depth λ s. elim (unary_operator (peek s).kind) [
  | some f ↦ let (v, s') = unary (take s) in (f v, s')
  | none ↦ primary s
]

-- What follows a condition.
unfoldable pub parse_branches : Parser → ConstInt → Parser
unfolding fail suppressing truthy
parse_branches conditional condition s = elim (peek s).kind [
  | question ↦
      let taken = truthy condition in
      let (left, s') = suppressing (not taken) conditional (take s) in
      elim (peek s').kind [
        | colon ↦
            let (right, s'') = suppressing taken conditional (take s') in
            (if taken then left else right, s'')
        | _ ↦ (
          zero_int,
          if not s'.failed && not (at_end s') then fail (peek s').span expected_colon s' else s',
        )
      ]
  | _ ↦ (condition, s)
]

unfoldable pub parse_conditional : ℕ → Parser → Parser → Parser
unfolding guarded parse_branches
parse_conditional max_depth conditional logical_or =
    guarded max_depth
      λ s. let (condition, s') = logical_or s in parse_branches conditional condition s'

pub data Production : Type 0 where
  conditional unary : Production

-- The two recursive productions, with fuel for the nesting of calls.
unfoldable pub parse : Readers → ℕ → ℕ → Production → Parser
unfolding parse_conditional parse_unary parse_primary parse_logical_or
parse readers max_depth zero p s = (zero_int, s)
parse readers max_depth (suc fuel) p s = elim p [
  | conditional ↦
      parse_conditional max_depth (parse readers max_depth fuel conditional)
        (parse_logical_or (parse readers max_depth fuel unary)) s
  | unary ↦
      parse_unary max_depth (parse readers max_depth fuel unary)
        (parse_primary readers (parse readers max_depth fuel conditional)) s
]

pub record ConstExprResult : Type 0 where
  pub ok : Bool
  pub value : ConstInt
  pub error : Option PpError
  pub undefined_names : List PpError

abbrev pub start : List PpToken → State
start tokens = record {
  tokens = tokens;
  depth = 0;
  suppressed = 0;
  failed = false;
  error = none;
  undefined_names = [];
}

-- Two calls for each token and two to begin with.
abbrev pub enough_fuel : List PpToken → ℕ
enough_fuel tokens = 2 * length tokens + 2

-- `run`, on the outcome of the outermost call.
unfoldable pub finish : ConstInt → State → ConstExprResult
unfolding fail
finish value s =
    let s' = if not s.failed && not (at_end s) then fail (peek s).span unexpected_token s else s in
    record {
      ok = not s'.failed;
      value = if s'.failed then zero_int else value;
      error = s'.error;
      undefined_names = s'.undefined_names;
    }

unfoldable pub evaluate_const_expr : Readers → ℕ → List PpToken → ConstExprResult
unfolding finish parse
evaluate_const_expr readers max_depth tokens =
    let (value, s) = parse readers max_depth (enough_fuel tokens) conditional (start tokens) in
    finish value s
