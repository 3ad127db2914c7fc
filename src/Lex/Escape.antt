-- ===== src/Lex/Escape.antt =====
-- One escape of a character or string literal: `scanEscape` of src/lex/literal_scanner.cc. The
-- lexer does not read the escape, it only finds its end and flags what the reader would refuse.
pub mod Progress
pub mod Agree
pub mod Accepts
use mincplus.Prelude.{
  ℕ, zero, suc, ◌+◌, ◌*◌, ◌-◌, ◌%◌, ◌^◌, Bool, true, false, ◌&&◌, ◌||◌, not, ltb, leb, ◌==◌,
  if◌then◌else◌, Option, none, some, List, [], ◌∷◌,
}
use mincplus.Lex.Token.{
  TokenFlag, TokenFlags, unknown_escape, invalid_escape_value, escape_digits, escape_too_wide,
  named_escape, set_flag, hex_value, is_hex_digit, is_octal_digit, ends_line, after_newline,
}

abbrev pub backslash : ℕ
backslash = 92

abbrev pub open_brace : ℕ
open_brace = 123

abbrev pub close_brace : ℕ
close_brace = 125

abbrev pub is_unicode_scalar_value : ℕ → Bool
is_unicode_scalar_value v = leb v 0x10ffff && (ltb v 0xd800 || ltb 0xdfff v)

-- -1 is `none`.
abbrev pub simple_escape : ℕ → Option ℕ
simple_escape c =
    if c == b'n'
    then some 10
    else if c == b'r'
    then some 13
    else if c == b't'
    then some 9
    else if c == b'v'
    then some 11
    else if c == b'f'
    then some 12
    else if c == b'b'
    then some 8
    else if c == b'a'
    then some 7
    else if c == b'e'
    then some 27
    else none

pub data EscapeScan : Type 0 where
  unit continuation end_of_input : EscapeScan

-- What `scanEscape` leaves: its result, the index and the flags.
pub record EscapeResult : Type 0 where
  pub scan : EscapeScan
  pub rest : List ℕ
  pub flags : TokenFlags

abbrev pub unit_at : List ℕ → TokenFlags → EscapeResult
unit_at rest flags = record { scan = unit; rest = rest; flags = flags }

-- The variables of the loop in `scanEscapeDigits`, but the index.
pub record EscapeDigitsRun : Type 0 where
  pub value : ℕ
  pub digits : ℕ

abbrev pub saturated : ℕ
saturated = 0x110000

abbrev pub no_digits : EscapeDigitsRun
no_digits = record { value = 0; digits = 0 }

abbrev pub is_escape_digit : ℕ → ℕ → Bool
is_escape_digit base c = if base == 16 then is_hex_digit c else is_octal_digit c

-- 32 bits hold every value, since none from `saturated` on grows.
abbrev pub escape_digit : ℕ → ℕ → EscapeDigitsRun → EscapeDigitsRun
escape_digit base c run = record {
  value =
      if ltb run.value saturated
      then run.value * base + (if base == 16 then hex_value c else c - b'0')
      else run.value;
  digits = run.digits + 1;
}

unfoldable pub scan_escape_digits : ℕ → ℕ → EscapeDigitsRun → List ℕ → EscapeDigitsRun × List ℕ
scan_escape_digits base most run [] = (run, [])
scan_escape_digits base most run (c ∷ cs) =
    elim ((most == 0 || ltb run.digits most) && is_escape_digit base c) [
      | true ↦ scan_escape_digits base most (escape_digit base c run) cs
      | false ↦ (run, c ∷ cs)
    ]

-- The test of a byte's escape, which a character literal leaves to the checker.
abbrev pub flag_wide : Bool → ℕ → TokenFlags → TokenFlags
flag_wide char_literal v = set_flag (not char_literal && ltb 0xff v) escape_too_wide

abbrev pub flag_scalar : ℕ → TokenFlags → TokenFlags
flag_scalar v = set_flag (not (is_unicode_scalar_value v)) invalid_escape_value

-- Behind a `{`: some digits and a `}`, and a test of the value.
abbrev pub in_braces :
    (ℕ → TokenFlags → TokenFlags) → TokenFlags → EscapeDigitsRun × List ℕ → EscapeResult
in_braces test flags (run, []) = unit_at [] (escape_digits ∷ flags)
in_braces test flags (run, c ∷ after) =
    if run.digits == 0 || not (c == close_brace)
    then unit_at (c ∷ after) (escape_digits ∷ flags)
    else unit_at after (test run.value flags)

-- `\x` and `\o`, on what follows the letter.
unfoldable pub byte_escape : Bool → ℕ → List ℕ → TokenFlags → EscapeResult
byte_escape char_literal base [] flags = unit_at [] (escape_digits ∷ flags)
byte_escape char_literal base (c ∷ rest) flags =
    if c == open_brace
    then in_braces (flag_wide char_literal) flags (scan_escape_digits base 0 no_digits rest)
    else let (run, next) = scan_escape_digits base 0 no_digits (c ∷ rest) in
      if run.digits == 0
      then unit_at (c ∷ rest) (escape_digits ∷ flags)
      else unit_at next (flag_wide char_literal run.value flags)

-- The loop over the digits of `\u` and `\U`: how many are still wanted, and the value.
unfoldable pub scan_wanted : ℕ → ℕ → List ℕ → ℕ × ℕ × List ℕ
scan_wanted zero value text = (0, value, text)
scan_wanted (suc want) value [] = (suc want, value, [])
scan_wanted (suc want) value (c ∷ cs) = elim (is_hex_digit c) [
  | true ↦ scan_wanted want ((value * 16 + hex_value c) % 2 ^ 32) cs
  | false ↦ (suc want, value, c ∷ cs)
]

abbrev pub wanted_result : TokenFlags → ℕ × ℕ × List ℕ → EscapeResult
wanted_result flags (missing, value, next) =
    if not (missing == 0)
    then unit_at next (escape_digits ∷ flags)
    else unit_at next (flag_scalar value flags)

-- `\u` and `\U`, on what follows the letter.
unfoldable pub code_escape : ℕ → List ℕ → TokenFlags → EscapeResult
code_escape want [] flags = wanted_result flags (scan_wanted want 0 [])
code_escape want (c ∷ rest) flags =
    if c == open_brace
    then in_braces flag_scalar flags (scan_escape_digits 16 0 no_digits rest)
    else wanted_result flags (scan_wanted want 0 (c ∷ rest))

-- The bytes behind the `}` of a name, or from the end of the line on.
abbrev pub skip_name : List ℕ → List ℕ
skip_name [] = []
skip_name (c ∷ cs) =
    let rest = skip_name cs in if c == close_brace then cs else if ends_line c then c ∷ cs else rest

abbrev pub name_end : List ℕ → List ℕ
name_end [] = []
name_end (c ∷ rest) = if c == open_brace then skip_name rest else c ∷ rest

-- From the `switch` on: a letter behind the backslash that is no simple escape.
unfoldable pub letter_escape : Bool → ℕ → List ℕ → TokenFlags → EscapeResult
letter_escape char_literal c rest flags =
    if c == 63 || (c == 34 || (c == 39 || c == backslash))
    then unit_at rest flags
    else if c == b'x'
    then byte_escape char_literal 16 rest flags
    else if c == b'o'
    then byte_escape char_literal 8 rest flags
    else if c == b'u'
    then code_escape 4 rest flags
    else if c == b'U'
    then code_escape 8 rest flags
    else if c == b'N'
    then unit_at (name_end rest) (named_escape ∷ flags)
    else if is_octal_digit c
    then (let (run, next) = scan_escape_digits 8 3 no_digits (c ∷ rest) in
        unit_at next (flag_wide char_literal run.value flags))
    else unit_at rest (unknown_escape ∷ flags)

-- On what follows the backslash.
unfoldable pub scan_escape : Bool → List ℕ → TokenFlags → EscapeResult
scan_escape char_literal [] flags = record { scan = end_of_input; rest = []; flags = flags }
scan_escape char_literal (c ∷ rest) flags =
    if ends_line c
    then record { scan = continuation; rest = after_newline c rest; flags = flags }
    else elim (simple_escape c) [
      | some _ ↦ unit_at rest flags
      | none ↦ letter_escape char_literal c rest flags
    ]
