-- ===== src/Pp/ConstExpr.antt =====
-- The `#if` evaluator of src/pp/const_expr.cc over macro-expanded tokens. `tokens_` and `index_`
-- are the list of the tokens that are not taken yet; a parse function takes the parser's state and
-- returns its value and the new state.
-- The readers of literal spellings (support/consteval/literal.cc) are the record `Readers`.
pub mod Levels
pub mod Grammar
pub mod Effects
pub mod Run
pub mod Result
pub mod Fuel
pub mod Enough
pub mod Literals
use mincplus.Prelude.{
  ℕ, zero, suc, ◌+◌, ◌-◌, ◌*◌, Bool, true, false, ◌&&◌, ◌||◌, not, ltb, ◌==◌, if◌then◌else◌, Option,
  none, some, List, [], ◌∷◌, ◌++◌, length,
}
use mincplus.Support.ConstInt.{ConstInt}
use mincplus.Support.Span.{Span, no_span}

-- The kinds of token that the grammar tells apart; `identifier` is every kind that
-- `isIdentifierLike` accepts, the keywords among them, and `other` is any kind it gives no meaning.
pub data TokenKind : Type 0 where
  identifier integer_literal char_literal l_paren r_paren question colon : TokenKind
  pipe_pipe amp_amp pipe caret amp equal_equal bang_equal less greater : TokenKind
  less_equal greater_equal less_less greater_greater plus minus star slash : TokenKind
  percent bang tilde end_of_input other : TokenKind

pub record PpToken : Type 0 where
  pub kind : TokenKind
  pub span : Span
  pub text : List ℕ

-- The static token that `peek` returns at the end.
abbrev pub end_token : PpToken
end_token = record { kind = end_of_input; span = no_span; text = [] }

pub data Message : Type 0 where
  unexpected_token expected_colon shift_out_of_range division_by_zero remainder_by_zero : Message
  expected_close unterminated expected_after_last expected_primary : Message
  malformed_integer malformed_char nests_too_deeply undefined_identifier : Message

pub record PpError : Type 0 where
  pub span : Span
  pub message : Message

-- The members of `Parser`; `error` and `undefined_names` are those of its result.
pub record State : Type 0 where
  pub tokens : List PpToken
  pub depth : ℕ
  pub suppressed : ℕ
  pub failed : Bool
  pub error : Option PpError
  pub undefined_names : List PpError

abbrev pub Parser : Type 0
Parser = State → ConstInt × State

-- `support::parseIntegerLiteral` in the base rule of C, and `support::parseCharLiteral`; `none` is a
-- literal that is not `ok`.
pub record Readers : Type 0 where
  pub integer : List ℕ → Option ConstInt
  pub character : List ℕ → Option ConstInt

-- `ConstInt{}`.
abbrev pub zero_int : ConstInt
zero_int = record { bits = 0; is_unsigned = false }

abbrev pub bool_int : Bool → ConstInt
bool_int b = record { bits = if b then 1 else 0; is_unsigned = false }

abbrev pub first : List PpToken → PpToken
first [] = end_token
first (t ∷ ts) = t

abbrev pub rest : List PpToken → List PpToken
rest [] = []
rest (t ∷ ts) = ts

abbrev pub peek : State → PpToken
peek s = first s.tokens

abbrev pub take : State → State
take s = record s { tokens = rest s.tokens }

abbrev pub at_end : State → Bool
at_end s = length s.tokens == 0

unfoldable pub fail : Span → Message → State → State
fail span message s =
    if ltb 0 s.suppressed || s.failed
    then s
    else record s { failed = true; error = some (record { span = span; message = message }) }

-- `suppressed`: the parse with its errors switched off.
unfoldable pub suppressing : Bool → Parser → Parser
suppressing skip parse s =
    if skip
    then (let (v, s') = parse (record s { suppressed = s.suppressed + 1 }) in
        (v, record s' { suppressed = s'.suppressed - 1 }))
    else parse s
