-- ===== src/Lex/Lexer/Progress.antt =====
-- Every token takes a byte and stays inside the text (src/lex/lexer.cc).
use mincplus.Prelude.{
  subst, same_bytes, All, ℕ, suc, ◌+◌, ◌-◌, ◌^◌, ◌≤◌, ◌<◌, ◌≡◌, refl, Bool, true, false, ◌&&◌, leb,
  ◌==◌, if◌then◌else◌, Option, none, some, List, [], ◌∷◌, length, drop, length-drop, arith, if_both,
  if_cases,
}
use mincplus.Support.Suffix.{span}
use mincplus.Lex.TokenKind.{
  TokenKind, Keyword, search_keyword, keyword_from_text, keywords, is_end_of_file,
}
use mincplus.Lex.Token.{
  make_token, token_end, is_ascii_digit, is_identifier_start, is_identifier_continue,
  is_continuation_byte, ends_line, peek_byte,
}
use mincplus.Lex.Number.{scan_number_parts}
use mincplus.Lex.Number.Progress.{scan_number_parts_shorter}
use mincplus.Lex.Escape.Progress.{after_newline_shorter}
use mincplus.Lex.Text.{double_quote, single_quote}
use mincplus.Lex.Text.Progress.{scan_string_shorter, scan_char_shorter}
use mincplus.Lex.Lexer.{
  Lexeme, lexeme, scan_punctuator, is_blank, skip_while, not_line_end, comment_step, comment_end,
  scan_block_comment, scan_identifier, scan_other, scan_token, lex_suffix, lex_one,
}

pub drop_length : (text : List ℕ) → drop (length text) text ≡ []
drop_length [] = refl
drop_length (c ∷ cs) = drop_length cs

span_shorter : (p : ℕ → Bool) (text : List ℕ) → length (span p text).1 ≤ length text
span_shorter p [] = omega arith
span_shorter p (c ∷ cs) =
    let rec = span_shorter p cs in
    if_both (λ (r : List ℕ × List ℕ). length r.1 ≤ suc (length cs)) (p c) (omega (arith, rec))
      (omega arith)

comment_step_shorter :
    (c : ℕ) (cs : List ℕ) (found : List ℕ × Bool)
    → length found.0 ≤ length cs
    → length (comment_step c cs found).0 ≤ suc (length cs)
comment_step_shorter c [] found h = omega arith
comment_step_shorter c (d ∷ rest) found h =
    if_both (λ (r : List ℕ × Bool). length r.0 ≤ suc (suc (length rest))) (c == b'*' && d == b'/')
      (omega arith) (omega arith)

comment_end_shorter : (text : List ℕ) → length (comment_end text).0 ≤ length text
unfolding comment_end
comment_end_shorter [] = omega arith
comment_end_shorter (c ∷ cs) = comment_step_shorter c cs (comment_end cs) (comment_end_shorter cs)

scan_punctuator_positive :
    (c0 c1 c2 n : ℕ) (kind : TokenKind) → scan_punctuator c0 c1 c2 ≡ some (n, kind) → 1 ≤ n
unfolding scan_punctuator
scan_punctuator_positive c0 c1 c2 n kind h = ground arith

scan_other_shorter : (c : ℕ) (rest : List ℕ) → length (scan_other c rest).rest ≤ length rest
unfolding scan_other
scan_other_shorter c rest =
    by_punctuator (scan_punctuator c (peek_byte rest) (peek_byte (drop 1 rest))) refl
  where
    by_punctuator :
        (o : Option (ℕ × TokenKind))
        → scan_punctuator c (peek_byte rest) (peek_byte (drop 1 rest)) ≡ o
        → length (
            let l : Lexeme = elim o [
              | some (n, kind) ↦ lexeme (drop n (c ∷ rest)) kind
              | none ↦
                  lexeme
                    (if leb 0x80 c then skip_while is_continuation_byte rest else rest)
                    TokenKind.invalid
            ] in
            l.rest)
          ≤ length rest
    by_punctuator none e =
        if_both (λ (t : List ℕ). length t ≤ length rest) (leb 0x80 c)
          (span_shorter is_continuation_byte rest) (omega arith)
    by_punctuator (some (n, kind)) e = omega (
      arith,
      length-drop n (c ∷ rest),
      scan_punctuator_positive c (peek_byte rest) (peek_byte (drop 1 rest)) n kind e,
    )

pub scan_token_shorter : (c : ℕ) (rest : List ℕ) → length (scan_token c rest).rest ≤ length rest
unfolding scan_token scan_block_comment scan_identifier
scan_token_shorter c rest =
    let Kept : Lexeme → Type 0 = λ l. length l.rest ≤ length rest in
    let behind = length-drop 1 rest in
    if_both Kept (ends_line c) (after_newline_shorter c rest) (
      if_both Kept (is_blank c) (span_shorter is_blank rest) (
        if_both Kept (c == b'/' && peek_byte rest == b'/')
          (omega (arith, span_shorter not_line_end (drop 1 rest), behind))
          (if_both Kept (c == b'/' && peek_byte rest == b'*')
            (omega (arith, comment_end_shorter (drop 1 rest), behind))
            (if_both Kept (c == double_quote) (scan_string_shorter rest) (
              if_both Kept (c == single_quote) (scan_char_shorter rest) (
                if_cases Kept (is_ascii_digit c) (λ h. scan_number_parts_shorter c rest h)
                  (λ h.
                    if_both Kept (is_identifier_start c) (span_shorter is_identifier_continue rest)
                      (scan_other_shorter c rest))))))))

lex_suffix_progress :
    (text : List ℕ) (offset : ℕ)
    → offset + length text < 2 ^ 32
    → 0 < length text
    → ((lex_suffix offset text).offset ≡ offset)
      × (offset < token_end (lex_suffix offset text))
      × (token_end (lex_suffix offset text) ≤ offset + length text)
unfolding make_token token_end
lex_suffix_progress [] offset small inside = absurd (omega arith)
lex_suffix_progress (c ∷ rest) offset small inside =
    let h = scan_token_shorter c rest in (refl, ground arith, ground arith)

pub lex_one_end :
    (text : List ℕ) (offset : ℕ)
    → length text < 2 ^ 32
    → offset < length text
    → token_end (lex_one text offset) ≡ offset + (lex_one text offset).length
unfolding lex_one make_token token_end
lex_one_end text offset small inside = by_rest (drop offset text) (length-drop offset text)
  where
    by_rest :
        (rest : List ℕ)
        → length rest ≡ length text - offset
        → token_end (lex_suffix offset rest) ≡ offset + (lex_suffix offset rest).length
    by_rest [] e = absurd (omega arith)
    by_rest (c ∷ rest) e = let h = scan_token_shorter c rest in ground arith

-- In a text of fewer than 2^32 bytes the token at an offset inside it begins there, takes at least
-- one byte, and ends inside the text.
pub lex_one_progress :
    (text : List ℕ) (offset : ℕ)
    → length text < 2 ^ 32
    → offset < length text
    → ((lex_one text offset).offset ≡ offset)
      × (offset < token_end (lex_one text offset))
      × (token_end (lex_one text offset) ≤ length text)
unfolding lex_one
lex_one_progress text offset small inside =
    let rest = drop offset text in
    let behind = length-drop offset text in
    let (starts, takes, ends) = lex_suffix_progress rest offset (omega arith) (omega arith) in
    (starts, takes, omega (arith, ends))

-- No word of the table is the end of file.
keywords_kind : All (λ (k : Keyword). is_end_of_file k.kind ≡ false) keywords
keywords_kind = (
  refl,
  (
    refl,
    (
      refl,
      (refl, (refl, (refl, (refl, (refl, (refl, (refl, (refl, (refl, (refl, (refl, tt))))))))))),
    ),
  ),
)

search_keyword_kind :
    (text : List ℕ) (ks : List Keyword) {kind : TokenKind}
    → All (λ (k : Keyword). is_end_of_file k.kind ≡ false) ks
    → search_keyword text ks ≡ some kind
    → is_end_of_file kind ≡ false
unfolding search_keyword
search_keyword_kind text [] none_ends found = cc
search_keyword_kind text (k ∷ ks) {kind} none_ends found =
    by_test (length k.text == length text && same_bytes k.text text)
      (search_keyword_kind text ks (none_ends.1)) found
  where
    by_test :
        (b : Bool)
        → (search_keyword text ks ≡ some kind → is_end_of_file kind ≡ false)
        → (if b then some k.kind else search_keyword text ks) ≡ some kind
        → is_end_of_file kind ≡ false
    by_test true rest e =
        let same : k.kind ≡ kind = cc in subst (λ x. is_end_of_file x ≡ false) same (none_ends.0)
    by_test false rest e = rest e

scan_punctuator_kind :
    (c0 c1 c2 n : ℕ) (kind : TokenKind)
    → scan_punctuator c0 c1 c2 ≡ some (n, kind)
    → is_end_of_file kind ≡ false
unfolding scan_punctuator
scan_punctuator_kind c0 c1 c2 n kind h = ground arith

abbrev NotEnd : Lexeme → Type 0
NotEnd l = is_end_of_file l.kind ≡ false

scan_identifier_kind : (c : ℕ) (rest : List ℕ) → NotEnd (scan_identifier c rest)
unfolding scan_identifier keyword_from_text
scan_identifier_kind c rest =
    let run = (span is_identifier_continue rest).0 in by_word (keyword_from_text (c ∷ run)) refl
  where
    by_word :
        (o : Option TokenKind)
        → keyword_from_text (c ∷ (span is_identifier_continue rest).0) ≡ o
        → is_end_of_file (elim o [ some k ↦ k | none ↦ TokenKind.identifier ]) ≡ false
    by_word none e = refl
    by_word (some k) e =
        search_keyword_kind (c ∷ (span is_identifier_continue rest).0) keywords keywords_kind e

scan_other_kind : (c : ℕ) (rest : List ℕ) → NotEnd (scan_other c rest)
unfolding scan_other
scan_other_kind c rest =
    by_punctuator (scan_punctuator c (peek_byte rest) (peek_byte (drop 1 rest))) refl
  where
    by_punctuator :
        (o : Option (ℕ × TokenKind))
        → scan_punctuator c (peek_byte rest) (peek_byte (drop 1 rest)) ≡ o
        → NotEnd (elim o [
          | some (n, kind) ↦ lexeme (drop n (c ∷ rest)) kind
          | none ↦
              lexeme
                (if leb 0x80 c then skip_while is_continuation_byte rest else rest)
                TokenKind.invalid
        ])
    by_punctuator none e = refl
    by_punctuator (some (n, kind)) e =
        scan_punctuator_kind c (peek_byte rest) (peek_byte (drop 1 rest)) n kind e

scan_token_kind : (c : ℕ) (rest : List ℕ) → NotEnd (scan_token c rest)
unfolding scan_token scan_block_comment
scan_token_kind c rest = if_both NotEnd (ends_line c) refl (
    if_both NotEnd (is_blank c) refl (
      if_both NotEnd (c == b'/' && peek_byte rest == b'/') refl (
        if_both NotEnd (c == b'/' && peek_byte rest == b'*') refl (
          if_both NotEnd (c == double_quote) refl (
            if_both NotEnd (c == single_quote) refl (
              if_both NotEnd (is_ascii_digit c)
                (if_both (λ k. is_end_of_file k ≡ false) (scan_number_parts (c ∷ rest)).is_float
                  refl refl)
                (if_both NotEnd (is_identifier_start c) (scan_identifier_kind c rest)
                  (scan_other_kind c rest))))))))

pub lex_one_kind :
    (text : List ℕ) (offset : ℕ)
    → offset < length text
    → is_end_of_file (lex_one text offset).kind ≡ false
unfolding lex_one make_token
lex_one_kind text offset inside = by_rest (drop offset text) (length-drop offset text)
  where
    by_rest :
        (rest : List ℕ)
        → length rest ≡ length text - offset
        → is_end_of_file (lex_suffix offset rest).kind ≡ false
    by_rest [] e = absurd (omega arith)
    by_rest (c ∷ rest) e = scan_token_kind c rest

pub lex_one_end_of_file :
    (text : List ℕ)
    → lex_one text (length text)
      ≡ record { offset = length text; length = 0; kind = TokenKind.end_of_file; flags = [] }
unfolding lex_one
lex_one_end_of_file text = rw (drop_length text) refl
