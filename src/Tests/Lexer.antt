-- ===== src/Tests/Lexer.antt =====
-- Runs of the lexer of src/lex at fixed inputs.
use mincplus.Prelude.{
  ℕ, ◌≤◌, ◌<◌, ◌≡◌, refl, true, false, ◌↔◌, some, none, List, [], ◌∷◌, length, codes, arith,
}
use mincplus.Support.Suffix.{classify_suffix, suffix_length_at}
use mincplus.Support.Literal.Escape.{DecodedElement, good, decode_element}
use mincplus.Lex.TokenKind.{TokenKind, keyword_from_text}
use mincplus.Lex.Token.{TokenFlags, Token, token_end, make_token, hex_value, unterminated_string}
use mincplus.Lex.Number.{
  scan_run_from, scan_digit_run, exponent_tail, suffix_tail, scan_fraction, scan_number_parts,
}
use mincplus.Lex.Escape.{scan_escape, backslash}
use mincplus.Lex.Escape.Agree.{accepted}
use mincplus.Lex.Escape.Accepts.{scan_escape-decode_element}
use mincplus.Lex.Text.{scan_body, scan_string}
use mincplus.Lex.Lexer.{scan_punctuator, scan_identifier, scan_other, scan_token, lex_one}
use mincplus.Lex.Lexer.Progress.{lex_one_progress}
use mincplus.Lex.HeaderName.{HeaderName, Spells, scan_until, scan_header_name, scan_header_name_iff}
use mincplus.Lex.Stream.{
  TokenStream, add_token, lex_from, ends_at_end_of_file, lex_stream, from_preprocessed,
}
use mincplus.Lex.Stream.Tiling.{spellings, Tiles, lex_stream_lossless, from_preprocessed-lex_stream}

abbrev token : ℕ → ℕ → TokenKind → TokenFlags → Token
token offset n kind flags = record { offset = offset; length = n; kind = kind; flags = flags }

abbrev two_words : List ℕ
two_words = codes "if x"

abbrev two_words_stream : TokenStream
two_words_stream = record {
  file = 7;
  text = two_words;
  tokens =
      token 0 2 TokenKind.kw_if []
      ∷ token 2 1 TokenKind.whitespace []
      ∷ token 3 1 TokenKind.identifier []
      ∷ token 4 0 TokenKind.end_of_file []
      ∷ [];
  significant = 0 ∷ 2 ∷ 3 ∷ [];
  origins = [];
  trivia_count = 1;
  lossless = true;
}

two_words_lexed : lex_stream 7 two_words ≡ some two_words_stream
unfolding lex_stream lex_from add_token ends_at_end_of_file lex_one make_token token_end scan_token
    scan_identifier keyword_from_text scan_other scan_punctuator
two_words_lexed = refl

shift_assign : lex_one (codes "x <<= 1") 2 ≡ token 2 3 TokenKind.less_less_equal []
unfolding lex_one make_token scan_token scan_other scan_punctuator
shift_assign = refl

suffixed : lex_one (codes "10u8;") 0 ≡ token 0 4 TokenKind.integer_literal []
unfolding lex_one make_token scan_token scan_number_parts scan_digit_run scan_run_from scan_fraction
    exponent_tail suffix_tail suffix_length_at classify_suffix hex_value
suffixed = refl

-- The suffix behind binary digits is a token of its own.
binary_suffix : lex_one (codes "0b1u8") 0 ≡ token 0 3 TokenKind.integer_literal []
unfolding lex_one make_token scan_token scan_number_parts scan_digit_run scan_run_from scan_fraction
    exponent_tail suffix_tail suffix_length_at classify_suffix hex_value
binary_suffix = refl

open_string :
    lex_one (codes "\"ab") 0 ≡ token 0 3 TokenKind.string_literal (unterminated_string ∷ [])
unfolding lex_one make_token scan_token scan_string scan_body scan_escape
open_string = refl

lex_stream_lossless_example :
    (s : TokenStream) × (lex_stream 7 two_words ≡ some s)
    × (s.lossless ≡ true)
    × (spellings two_words s.tokens ≡ two_words)
    × Tiles two_words 0 s.tokens
lex_stream_lossless_example = lex_stream_lossless 7 two_words (omega arith)

from_preprocessed-lex_stream_example :
    from_preprocessed 7 two_words two_words_stream.tokens [] ≡ two_words_stream
from_preprocessed-lex_stream_example =
    from_preprocessed-lex_stream 7 two_words two_words_stream (omega arith) two_words_lexed

lex_one_progress_example :
    ((lex_one two_words 2).offset ≡ 2)
    × (2 < token_end (lex_one two_words 2))
    × (token_end (lex_one two_words 2) ≤ length two_words)
lex_one_progress_example = lex_one_progress two_words 2 (omega arith) (omega arith)

abbrev wide_element : DecodedElement
wide_element = good 0x1ff false []

wide_read : decode_element (backslash ∷ codes "x1FF") ≡ some wide_element
unfolding decode_element
wide_read = refl

scan_escape-decode_element_example :
    (((scan_escape false (codes "x1FF") []).flags ≡ []) ↔ (accepted wide_element ≡ true))
    × ((scan_escape false (codes "x1FF") []).flags ≡ []
        → (scan_escape false (codes "x1FF") []).rest ≡ wide_element.next)
scan_escape-decode_element_example =
    scan_escape-decode_element b'x' (codes "1FF") wide_element wide_read

abbrev header : HeaderName
header = record { offset = 9; length = 8; angle = true; text = codes "a//b.h" }

-- What looks like a comment is part of a header name.
header_with_slashes : scan_header_name (codes "#include <a//b.h>") 9 ≡ some header
unfolding scan_header_name scan_until
header_with_slashes = refl

unclosed_header : scan_header_name (codes "<a.h") 0 ≡ none
unfolding scan_header_name scan_until
unclosed_header = refl

scan_header_name_iff_example :
    (scan_header_name (codes "#include <a//b.h>") 9 ≡ some header)
    ↔ Spells (codes "<a//b.h>") 9 header
scan_header_name_iff_example = scan_header_name_iff (codes "#include <a//b.h>") 9 header
