-- ===== src/Lex/TokenKind.antt =====
-- The kinds of tokens and the keyword table: include/lex/token_kind.h and src/lex/token_kind.cc.
use mincplus.Prelude.{
  ℕ, Bool, true, false, ◌&&◌, ◌==◌, if◌then◌else◌, Option, none, some, List, [], ◌∷◌, length, codes,
  same_bytes,
}

pub data TokenKind : Type 0 where
  end_of_file invalid : TokenKind
  whitespace newline line_comment block_comment : TokenKind
  integer_literal float_literal char_literal string_literal : TokenKind
  identifier header_name : TokenKind
  kw_fn kw_extern kw_static kw_type kw_as kw_let kw_const kw_return : TokenKind
  kw_if kw_else kw_while kw_for kw_break kw_continue : TokenKind
  l_paren r_paren l_brace r_brace l_bracket r_bracket semicolon comma : TokenKind
  colon colon_colon question dot arrow ellipsis hash hash_hash : TokenKind
  plus minus star slash percent plus_plus minus_minus : TokenKind
  amp pipe caret tilde less_less greater_greater amp_amp pipe_pipe bang : TokenKind
  equal_equal bang_equal less less_equal greater greater_equal : TokenKind
  equal plus_equal minus_equal star_equal slash_equal percent_equal : TokenKind
  amp_equal pipe_equal caret_equal less_less_equal greater_greater_equal : TokenKind

abbrev pub is_trivia : TokenKind → Bool
is_trivia whitespace = true
is_trivia newline = true
is_trivia line_comment = true
is_trivia block_comment = true
is_trivia _ = false

abbrev pub is_end_of_file : TokenKind → Bool
is_end_of_file end_of_file = true
is_end_of_file _ = false

-- As in the source, with no row for `kw_type`.
abbrev pub is_keyword : TokenKind → Bool
is_keyword kw_fn = true
is_keyword kw_extern = true
is_keyword kw_static = true
is_keyword kw_as = true
is_keyword kw_let = true
is_keyword kw_const = true
is_keyword kw_return = true
is_keyword kw_if = true
is_keyword kw_else = true
is_keyword kw_while = true
is_keyword kw_for = true
is_keyword kw_break = true
is_keyword kw_continue = true
is_keyword _ = false

abbrev pub is_identifier_like : TokenKind → Bool
is_identifier_like identifier = true
is_identifier_like k = is_keyword k

pub record Keyword : Type 0 where
  pub text : List ℕ
  pub kind : TokenKind

abbrev word : List ℕ → TokenKind → Keyword
word t k = record { text = t; kind = k }

abbrev pub keywords : List Keyword
keywords =
    word (codes "as") kw_as
    ∷ word (codes "break") kw_break
    ∷ word (codes "const") kw_const
    ∷ word (codes "continue") kw_continue
    ∷ word (codes "else") kw_else
    ∷ word (codes "extern") kw_extern
    ∷ word (codes "fn") kw_fn
    ∷ word (codes "for") kw_for
    ∷ word (codes "if") kw_if
    ∷ word (codes "let") kw_let
    ∷ word (codes "return") kw_return
    ∷ word (codes "static") kw_static
    ∷ word (codes "type") kw_type
    ∷ word (codes "while") kw_while
    ∷ []

unfoldable pub search_keyword : List ℕ → List Keyword → Option TokenKind
search_keyword text [] = none
search_keyword text (k ∷ rest) =
    if length k.text == length text && same_bytes k.text text
    then some k.kind
    else search_keyword text rest

unfoldable pub keyword_from_text : List ℕ → Option TokenKind
unfolding search_keyword
keyword_from_text text = search_keyword text keywords
