-- ===== src/Lex/Token.antt =====
-- Tokens and the classes of bytes: include/lex/token.h and src/lex/byte_class.h. A text is its bytes,
-- and an index into it is the list of the bytes from it on.
use Prim.Native.Nat.{bit_and}
use mincplus.Prelude.{
  ℕ, ◌+◌, ◌-◌, ◌%◌, ◌^◌, Bool, false, ◌&&◌, ◌||◌, not, ltb, leb, ◌==◌, if◌then◌else◌, List, [], ◌∷◌,
  length,
}
use mincplus.Lex.TokenKind.{TokenKind}

pub data TokenFlag : Type 0 where
  unterminated_string unterminated_char unterminated_block_comment unknown_escape : TokenFlag
  invalid_escape_value empty_char_literal missing_digits misplaced_separator : TokenFlag
  escape_digits escape_too_wide named_escape : TokenFlag

-- The bits that are set, and `|=` of one bit.
abbrev pub TokenFlags : Type 0
TokenFlags = List TokenFlag

abbrev pub set_flag : Bool → TokenFlag → TokenFlags → TokenFlags
set_flag test f flags = if test then f ∷ flags else flags

pub record Token : Type 0 where
  pub offset : ℕ
  pub length : ℕ
  pub kind : TokenKind
  pub flags : TokenFlags

unfoldable pub token_end : Token → ℕ
token_end t = (t.offset + t.length) % 2 ^ 32

-- The token at an offset whose text, from there on, it takes up to a rest.
unfoldable pub make_token : ℕ → List ℕ → List ℕ → TokenKind → TokenFlags → Token
make_token offset text rest kind flags = record {
  offset = offset;
  length = (length text - length rest) % 2 ^ 32;
  kind = kind;
  flags = flags;
}

abbrev pub is_ascii_digit : ℕ → Bool
is_ascii_digit c = leb b'0' c && leb c b'9'

abbrev pub not_hex : ℕ
not_hex = 0xff

unfoldable pub hex_value : ℕ → ℕ
hex_value c =
    if leb b'0' c && leb c b'9'
    then c - b'0'
    else if leb b'a' c && leb c b'f'
    then c - b'a' + 10
    else if leb b'A' c && leb c b'F'
    then c - b'A' + 10
    else not_hex

abbrev pub is_hex_digit : ℕ → Bool
is_hex_digit c = not (hex_value c == not_hex)

abbrev pub is_octal_digit : ℕ → Bool
is_octal_digit c = leb b'0' c && leb c b'7'

abbrev pub is_digit_in_base : ℕ → ℕ → Bool
is_digit_in_base c base = if base == 16 then is_hex_digit c else leb b'0' c && ltb (c - b'0') base

abbrev pub is_identifier_start : ℕ → Bool
is_identifier_start c = leb b'a' c && leb c b'z' || (leb b'A' c && leb c b'Z' || c == b'_')

abbrev pub is_identifier_continue : ℕ → Bool
is_identifier_continue c = is_identifier_start c || is_ascii_digit c

unfoldable pub is_continuation_byte : ℕ → Bool
is_continuation_byte c = bit_and c 0xc0 == 0x80

abbrev pub line_feed : ℕ
line_feed = 10

abbrev pub carriage_return : ℕ
carriage_return = 13

abbrev pub ends_line : ℕ → Bool
ends_line c = c == line_feed || c == carriage_return

-- What is behind the line terminator at the front; a CR and an LF are one.
abbrev pub after_newline : ℕ → List ℕ → List ℕ
after_newline c [] = []
after_newline c (d ∷ rest) = if c == carriage_return && d == line_feed then rest else d ∷ rest

-- `text[i]`, and 0 at the end.
abbrev pub peek_byte : List ℕ → ℕ
peek_byte [] = 0
peek_byte (c ∷ _) = c

abbrev pub next_is : (ℕ → Bool) → List ℕ → Bool
next_is p [] = false
next_is p (c ∷ _) = p c
