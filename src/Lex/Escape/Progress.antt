-- ===== src/Lex/Escape/Progress.antt =====
-- The index behind an escape does not come back in front of the backslash
-- (src/lex/literal_scanner.cc).
use mincplus.Prelude.{
  ℕ, zero, suc, ◌+◌, ◌*◌, ◌%◌, ◌^◌, ◌≤◌, Bool, ◌&&◌, ◌||◌, not, ltb, ◌==◌, Option, none, some, List,
  [], ◌∷◌, length, arith, elim_both, if_both,
}
use mincplus.Lex.Token.{
  TokenFlags, is_hex_digit, is_octal_digit, hex_value, ends_line, after_newline, line_feed,
  carriage_return,
}
use mincplus.Lex.Escape.{
  EscapeResult, EscapeDigitsRun, is_escape_digit, escape_digit, scan_escape_digits, in_braces,
  byte_escape, scan_wanted, wanted_result, code_escape, skip_name, name_end, letter_escape,
  scan_escape, simple_escape, no_digits, unit_at, backslash, open_brace, close_brace, flag_wide,
  flag_scalar,
}

scan_escape_digits_shorter :
    (base most : ℕ) (run : EscapeDigitsRun) (text : List ℕ)
    → length (scan_escape_digits base most run text).1 ≤ length text
unfolding scan_escape_digits
scan_escape_digits_shorter base most run [] = omega arith
scan_escape_digits_shorter base most run (c ∷ cs) =
    let rec = scan_escape_digits_shorter base most (escape_digit base c run) cs in
    elim_both (λ (r : EscapeDigitsRun × List ℕ). length r.1 ≤ suc (length cs))
      ((most == 0 || ltb run.digits most) && is_escape_digit base c) (omega (arith, rec))
      (omega arith)

in_braces_shorter :
    (test : ℕ → TokenFlags → TokenFlags) (flags : TokenFlags) (r : EscapeDigitsRun × List ℕ)
    → length (in_braces test flags r).rest ≤ length r.1
in_braces_shorter test flags (run, []) = omega arith
in_braces_shorter test flags (run, c ∷ after) =
    if_both (λ (e : EscapeResult). length e.rest ≤ suc (length after))
      (run.digits == 0 || not (c == close_brace)) (omega arith) (omega arith)

byte_escape_shorter :
    (char_literal : Bool) (base : ℕ) (text : List ℕ) (flags : TokenFlags)
    → length (byte_escape char_literal base text flags).rest ≤ length text
unfolding byte_escape
byte_escape_shorter char_literal base [] flags = omega arith
byte_escape_shorter char_literal base (c ∷ rest) flags =
    let braced =
      in_braces_shorter (flag_wide char_literal) flags (scan_escape_digits base 0 no_digits rest) in
    let inner = scan_escape_digits_shorter base 0 no_digits rest in
    let run = scan_escape_digits_shorter base 0 no_digits (c ∷ rest) in
    let Kept : EscapeResult → Type 0 = λ e. length e.rest ≤ suc (length rest) in
    if_both Kept (c == open_brace) (omega (arith, braced, inner)) (
      if_both Kept ((scan_escape_digits base 0 no_digits (c ∷ rest)).0.digits == 0) (omega arith)
        run)

scan_wanted_shorter :
    (want value : ℕ) (text : List ℕ) → length (scan_wanted want value text).2 ≤ length text
unfolding scan_wanted
scan_wanted_shorter zero value text = omega arith
scan_wanted_shorter (suc want) value [] = omega arith
scan_wanted_shorter (suc want) value (c ∷ cs) =
    let rec = scan_wanted_shorter want ((value * 16 + hex_value c) % 2 ^ 32) cs in
    elim_both (λ (r : ℕ × ℕ × List ℕ). length r.2 ≤ suc (length cs)) (is_hex_digit c)
      (omega (arith, rec)) (omega arith)

wanted_result_shorter :
    (flags : TokenFlags) (r : ℕ × ℕ × List ℕ) → length (wanted_result flags r).rest ≤ length r.2
wanted_result_shorter flags (missing, value, next) =
    if_both (λ (e : EscapeResult). length e.rest ≤ length next) (not (missing == 0)) (omega arith)
      (omega arith)

code_escape_shorter :
    (want : ℕ) (text : List ℕ) (flags : TokenFlags)
    → length (code_escape want text flags).rest ≤ length text
unfolding code_escape
code_escape_shorter want [] flags =
    omega
      (arith, wanted_result_shorter flags (scan_wanted want 0 []), scan_wanted_shorter want 0 [])
code_escape_shorter want (c ∷ rest) flags =
    if_both (λ (e : EscapeResult). length e.rest ≤ suc (length rest)) (c == open_brace)
      (omega (
        arith,
        in_braces_shorter flag_scalar flags (scan_escape_digits 16 0 no_digits rest),
        scan_escape_digits_shorter 16 0 no_digits rest,
      ))
      (omega (
        arith,
        wanted_result_shorter flags (scan_wanted want 0 (c ∷ rest)),
        scan_wanted_shorter want 0 (c ∷ rest),
      ))

skip_name_shorter : (text : List ℕ) → length (skip_name text) ≤ length text
skip_name_shorter [] = omega arith
skip_name_shorter (c ∷ cs) =
    let rec = skip_name_shorter cs in
    let Kept : List ℕ → Type 0 = λ t. length t ≤ suc (length cs) in
    if_both Kept (c == close_brace) (omega arith)
      (if_both Kept (ends_line c) (omega arith) (omega (arith, rec)))

name_end_shorter : (text : List ℕ) → length (name_end text) ≤ length text
name_end_shorter [] = omega arith
name_end_shorter (c ∷ rest) =
    if_both (λ (t : List ℕ). length t ≤ suc (length rest)) (c == open_brace)
      (omega (arith, skip_name_shorter rest)) (omega arith)

letter_escape_shorter :
    (char_literal : Bool) (c : ℕ) (rest : List ℕ) (flags : TokenFlags)
    → length (letter_escape char_literal c rest flags).rest ≤ suc (length rest)
unfolding letter_escape
letter_escape_shorter char_literal c rest flags =
    let Kept : EscapeResult → Type 0 = λ e. length e.rest ≤ suc (length rest) in
    if_both Kept (c == 63 || (c == 34 || (c == 39 || c == backslash))) (omega arith) (
      if_both Kept (c == b'x') (omega (arith, byte_escape_shorter char_literal 16 rest flags)) (
        if_both Kept (c == b'o') (omega (arith, byte_escape_shorter char_literal 8 rest flags)) (
          if_both Kept (c == b'u') (omega (arith, code_escape_shorter 4 rest flags)) (
            if_both Kept (c == b'U') (omega (arith, code_escape_shorter 8 rest flags)) (
              if_both Kept (c == b'N') (omega (arith, name_end_shorter rest)) (
                if_both Kept (is_octal_digit c)
                  (scan_escape_digits_shorter 8 3 no_digits (c ∷ rest)) (omega arith)))))))

pub after_newline_shorter : (c : ℕ) (rest : List ℕ) → length (after_newline c rest) ≤ length rest
after_newline_shorter c [] = omega arith
after_newline_shorter c (d ∷ rest) =
    if_both (λ (t : List ℕ). length t ≤ suc (length rest)) (c == carriage_return && d == line_feed)
      (omega arith) (omega arith)

pub scan_escape_shorter :
    (char_literal : Bool) (text : List ℕ) (flags : TokenFlags)
    → length (scan_escape char_literal text flags).rest ≤ length text
unfolding scan_escape
scan_escape_shorter char_literal [] flags = omega arith
scan_escape_shorter char_literal (c ∷ rest) flags =
    if_both (λ (e : EscapeResult). length e.rest ≤ suc (length rest)) (ends_line c)
      (omega (arith, after_newline_shorter c rest)) (by_letter (simple_escape c))
  where
    by_letter :
        (o : Option ℕ)
        → length (
            let e : EscapeResult = elim o [
              | some _ ↦ unit_at rest flags
              | none ↦ letter_escape char_literal c rest flags
            ] in
            e.rest)
          ≤ suc (length rest)
    by_letter (some v) = omega arith
    by_letter none = letter_escape_shorter char_literal c rest flags
