-- ===== src/Lex/Stream.antt =====
-- The tokens of a whole file: include/lex/token_stream.h and src/lex/token_stream.cc.
pub mod Tiling
use mincplus.Prelude.{
  ℕ, zero, suc, ◌+◌, ◌%◌, ◌^◌, Bool, true, false, ◌&&◌, not, ltb, leb, ◌==◌, if◌then◌else◌, Option,
  none, some, List, [], ◌∷◌, ◌++◌, length, get_elem?,
}
use mincplus.Support.Span.{Span}
use mincplus.Lex.TokenKind.{TokenKind, is_trivia, is_end_of_file}
use mincplus.Lex.Token.{Token, token_end}
use mincplus.Lex.Lexer.{lex_one}

pub record TokenStream : Type 0 where
  pub file : ℕ
  pub text : List ℕ
  pub tokens : List Token
  pub significant : List ℕ
  pub origins : List Span
  pub trivia_count : ℕ
  pub lossless : Bool

-- What the loops over the tokens build.
pub record Build : Type 0 where
  pub tokens : List Token
  pub significant : List ℕ
  pub trivia_count : ℕ
  pub contiguous : Bool

abbrev pub no_tokens : Build
no_tokens = record { tokens = []; significant = []; trivia_count = 0; contiguous = true }

-- The token of one turn, which should begin at the offset.
unfoldable pub add_token : ℕ → Token → Build → Build
add_token offset t b = record {
  tokens = b.tokens ++ (t ∷ []);
  significant =
      if is_trivia t.kind then b.significant else b.significant ++ (length b.tokens % 2 ^ 32 ∷ []);
  trivia_count = if is_trivia t.kind then b.trivia_count + 1 else b.trivia_count;
  contiguous = b.contiguous && t.offset == offset;
}

-- The loop of `TokenStream::lex`; `none` is a run that is out of fuel.
unfoldable pub lex_from : ℕ → List ℕ → ℕ → Build → Option Build
lex_from zero text offset b = none
lex_from (suc fuel) text offset b =
    let t = lex_one text offset in
    let next = add_token offset t b in
    let rest = lex_from fuel text (token_end t) next in
    if is_end_of_file t.kind
    then some next
    else if leb (token_end t) offset
    then some (record next { contiguous = false })
    else rest

-- `tokens_.back()` is the end of file at the end of the text.
unfoldable pub ends_at_end_of_file : List ℕ → List Token → Bool
ends_at_end_of_file text [] = false
ends_at_end_of_file text (t ∷ []) = is_end_of_file t.kind && t.offset == length text % 2 ^ 32
ends_at_end_of_file text (t ∷ u ∷ ts) = ends_at_end_of_file text (u ∷ ts)

abbrev pub stream_of : ℕ → List ℕ → Build → TokenStream
stream_of file text b = record {
  file = file;
  text = text;
  tokens = b.tokens;
  significant = b.significant;
  origins = [];
  trivia_count = b.trivia_count;
  lossless = b.contiguous && ends_at_end_of_file text b.tokens;
}

abbrev pub finish_stream : ℕ → List ℕ → Option Build → Option TokenStream
finish_stream file text none = none
finish_stream file text (some b) = some (stream_of file text b)

unfoldable pub lex_stream : ℕ → List ℕ → Option TokenStream
lex_stream file text = finish_stream file text (lex_from (length text + 1) text 0 no_tokens)

-- The loop of `fromPreprocessed`, and how far the tokens reach.
unfoldable pub add_tokens : ℕ → List Token → Build → ℕ × Build
add_tokens covered [] b = (covered, b)
add_tokens covered (t ∷ ts) b = add_tokens (token_end t) ts (add_token covered t b)

unfoldable pub from_preprocessed : ℕ → List ℕ → List Token → List Span → TokenStream
from_preprocessed file text tokens origins =
    let (covered, b) = add_tokens 0 tokens no_tokens in
    record {
      file = file;
      text = text;
      tokens = tokens;
      significant = b.significant;
      origins = if length origins == length tokens then origins else [];
      trivia_count = b.trivia_count;
      lossless = b.contiguous && covered == length text % 2 ^ 32;
    }

unfoldable pub span_of : TokenStream → Token → Span
span_of s t = record { file = s.file; begin = t.offset; end = token_end t }

unfoldable pub span_of_at : TokenStream → ℕ → Span
span_of_at s index = elim (get_elem? s.origins index) [
  | some origin ↦ origin
  | none ↦ elim (get_elem? s.tokens index) [
    | some t ↦ span_of s t
    | none ↦ record { file = s.file; begin = length s.text % 2 ^ 32; end = length s.text % 2 ^ 32 }
  ]
]
