-- ===== src/Lex/Lexer.antt =====
-- The raw lexer: src/lex/lexer.cc.
pub mod Progress
use mincplus.Prelude.{
  ℕ, ◌+◌, Bool, true, false, ◌&&◌, ◌||◌, leb, ◌==◌, if◌then◌else◌, Option, none, some, List, [],
  ◌∷◌, drop,
}
use mincplus.Support.Suffix.{span}
use mincplus.Lex.TokenKind
use mincplus.Lex.TokenKind.{TokenKind, keyword_from_text}
use mincplus.Lex.Token.{
  TokenFlags, Token, unterminated_block_comment, make_token, is_ascii_digit, is_identifier_start,
  is_identifier_continue, is_continuation_byte, ends_line, after_newline, peek_byte,
}
use mincplus.Lex.Number.{scan_number_parts}
use mincplus.Lex.Text.{scan_string, scan_char, double_quote, single_quote}

-- What a scanner finds from an offset on: the index behind the token, its kind and its flags.
pub record Lexeme : Type 0 where
  pub rest : List ℕ
  pub kind : TokenKind
  pub flags : TokenFlags

abbrev pub lexeme : List ℕ → TokenKind → Lexeme
lexeme rest kind = record { rest = rest; kind = kind; flags = [] }

-- A punctuator: its kind and its length.
abbrev pub punct : ℕ → TokenKind → Option (ℕ × TokenKind)
punct n kind = some (n, kind)

-- A punctuator that a `=` behind it turns into another.
abbrev pub with_equal : ℕ → TokenKind → TokenKind → Option (ℕ × TokenKind)
with_equal c1 long short = if c1 == b'=' then punct 2 long else punct 1 short

unfoldable pub scan_punctuator : ℕ → ℕ → ℕ → Option (ℕ × TokenKind)
scan_punctuator c0 c1 c2 =
    if c0 == b'<'
    then (if c1 == b'<'
        then (if c2 == b'=' then punct 3 TokenKind.less_less_equal else punct 2 TokenKind.less_less)
        else with_equal c1 TokenKind.less_equal TokenKind.less)
    else if c0 == b'>'
    then (if c1 == b'>'
        then (if c2 == b'='
            then punct 3 TokenKind.greater_greater_equal
            else punct 2 TokenKind.greater_greater)
        else with_equal c1 TokenKind.greater_equal TokenKind.greater)
    else if c0 == b'='
    then with_equal c1 TokenKind.equal_equal TokenKind.equal
    else if c0 == b'!'
    then with_equal c1 TokenKind.bang_equal TokenKind.bang
    else if c0 == b'&'
    then (if c1 == b'&'
        then punct 2 TokenKind.amp_amp
        else with_equal c1 TokenKind.amp_equal TokenKind.amp)
    else if c0 == b'|'
    then (if c1 == b'|'
        then punct 2 TokenKind.pipe_pipe
        else with_equal c1 TokenKind.pipe_equal TokenKind.pipe)
    else if c0 == b'^'
    then with_equal c1 TokenKind.caret_equal TokenKind.caret
    else if c0 == b'+'
    then (if c1 == b'+'
        then punct 2 TokenKind.plus_plus
        else with_equal c1 TokenKind.plus_equal TokenKind.plus)
    else if c0 == b'-'
    then (if c1 == b'-'
        then punct 2 TokenKind.minus_minus
        else if c1 == b'>'
        then punct 2 TokenKind.arrow
        else with_equal c1 TokenKind.minus_equal TokenKind.minus)
    else if c0 == b'*'
    then with_equal c1 TokenKind.star_equal TokenKind.star
    else if c0 == b'/'
    then with_equal c1 TokenKind.slash_equal TokenKind.slash
    else if c0 == b'%'
    then with_equal c1 TokenKind.percent_equal TokenKind.percent
    else if c0 == b'~'
    then punct 1 TokenKind.tilde
    else if c0 == b'('
    then punct 1 TokenKind.l_paren
    else if c0 == b')'
    then punct 1 TokenKind.r_paren
    else if c0 == 123
    then punct 1 TokenKind.l_brace
    else if c0 == 125
    then punct 1 TokenKind.r_brace
    else if c0 == b'['
    then punct 1 TokenKind.l_bracket
    else if c0 == b']'
    then punct 1 TokenKind.r_bracket
    else if c0 == b';'
    then punct 1 TokenKind.semicolon
    else if c0 == b','
    then punct 1 TokenKind.comma
    else if c0 == b':'
    then (if c1 == b':' then punct 2 TokenKind.colon_colon else punct 1 TokenKind.colon)
    else if c0 == 63
    then punct 1 TokenKind.question
    else if c0 == b'.'
    then (if c1 == b'.' && c2 == b'.' then punct 3 TokenKind.ellipsis else punct 1 TokenKind.dot)
    else if c0 == b'#'
    then (if c1 == b'#' then punct 2 TokenKind.hash_hash else punct 1 TokenKind.hash)
    else none

-- Space, tab, vertical tab and form feed.
abbrev pub is_blank : ℕ → Bool
is_blank c = c == b' ' || (c == 9 || (c == 11 || c == 12))

-- The bytes from the first on that fails a test.
abbrev pub skip_while : (ℕ → Bool) → List ℕ → List ℕ
skip_while p text = (span p text).1

abbrev pub not_line_end : ℕ → Bool
not_line_end c = if ends_line c then false else true

-- One turn of the comment's loop, with what the turns behind it find.
abbrev pub comment_step : ℕ → List ℕ → List ℕ × Bool → List ℕ × Bool
comment_step c [] found = found
comment_step c (d ∷ rest) found = if c == b'*' && d == b'/' then (rest, true) else found

-- Behind the `*/` that closes a comment, and whether there is one.
unfoldable pub comment_end : List ℕ → List ℕ × Bool
comment_end [] = ([], false)
comment_end (c ∷ cs) = let found = comment_end cs in comment_step c cs found

unfoldable pub scan_block_comment : List ℕ → Lexeme
scan_block_comment body =
    let (rest, closed) = comment_end body in
    record {
      rest = rest;
      kind = TokenKind.block_comment;
      flags = if closed then [] else unterminated_block_comment ∷ [];
    }

-- A word, with its first byte and the bytes from it on.
unfoldable pub scan_identifier : ℕ → List ℕ → Lexeme
scan_identifier c rest =
    let (run, after) = span is_identifier_continue rest in
    lexeme after (elim (keyword_from_text (c ∷ run)) [ some k ↦ k | none ↦ TokenKind.identifier ])

-- The last of the tests of `lexOne`: a punctuator, or bytes that are no token.
unfoldable pub scan_other : ℕ → List ℕ → Lexeme
scan_other c rest = elim (scan_punctuator c (peek_byte rest) (peek_byte (drop 1 rest))) [
  | some (n, kind) ↦ lexeme (drop n (c ∷ rest)) kind
  | none ↦
      lexeme (if leb 0x80 c then skip_while is_continuation_byte rest else rest) TokenKind.invalid
]

unfoldable pub scan_token : ℕ → List ℕ → Lexeme
scan_token c rest =
    if ends_line c
    then lexeme (after_newline c rest) TokenKind.newline
    else if is_blank c
    then lexeme (skip_while is_blank rest) TokenKind.whitespace
    else if c == b'/' && peek_byte rest == b'/'
    then lexeme (skip_while not_line_end (drop 1 rest)) TokenKind.line_comment
    else if c == b'/' && peek_byte rest == b'*'
    then scan_block_comment (drop 1 rest)
    else if c == double_quote
    then (let (after, flags) = scan_string rest in
        record { rest = after; kind = TokenKind.string_literal; flags = flags })
    else if c == single_quote
    then (let (after, flags) = scan_char rest in
        record { rest = after; kind = TokenKind.char_literal; flags = flags })
    else if is_ascii_digit c
    then (let parts = scan_number_parts (c ∷ rest) in
        record {
          rest = parts.rest;
          kind = if parts.is_float then TokenKind.float_literal else TokenKind.integer_literal;
          flags = parts.flags;
        })
    else if is_identifier_start c
    then scan_identifier c rest
    else scan_other c rest

-- The token of the bytes from an offset on.
abbrev pub lex_suffix : ℕ → List ℕ → Token
lex_suffix offset [] = record {
  offset = offset;
  length = 0;
  kind = TokenKind.end_of_file;
  flags = [];
}
lex_suffix offset (c ∷ rest) =
    let l = scan_token c rest in make_token offset (c ∷ rest) l.rest l.kind l.flags

unfoldable pub lex_one : List ℕ → ℕ → Token
lex_one text offset = lex_suffix offset (drop offset text)
