-- ===== src/Lex/Number.antt =====
-- The numbers of src/lex/literal_scanner.cc: which bytes are one, and what is wrong with it.
pub mod Progress
use mincplus.Prelude.{
  ℕ, Bool, true, false, ◌&&◌, ◌||◌, not, ◌==◌, if◌then◌else◌, Option, none, some, List, [], ◌∷◌,
  length, take, drop,
}
use mincplus.Support.Suffix.{LiteralSuffix, classify_suffix, suffix_length_at}
use mincplus.Lex.Token.{
  TokenFlags, misplaced_separator, missing_digits, set_flag, hex_value, is_ascii_digit,
  is_hex_digit, is_digit_in_base, peek_byte, next_is,
}

abbrev pub quote : ℕ
quote = 39

abbrev pub is_separator : ℕ → Bool
is_separator c = c == b'_' || c == quote

pub record DigitRun : Type 0 where
  pub rest : List ℕ
  pub any_digit : Bool
  pub misplaced : Bool

-- The variables of the loop in `scanDigitRun`, but the index.
pub record RunState : Type 0 where
  pub any_digit : Bool
  pub misplaced : Bool
  pub last_was_separator : Bool

abbrev pub run_end : RunState → List ℕ → DigitRun
run_end s rest = record {
  rest = rest;
  any_digit = s.any_digit;
  misplaced = s.misplaced || s.last_was_separator;
}

abbrev pub digit_seen : RunState → RunState
digit_seen s = record s { any_digit = true; last_was_separator = false }

abbrev pub separator_seen : RunState → RunState
separator_seen s = record s {
  misplaced = s.misplaced || (not s.any_digit || s.last_was_separator);
  last_was_separator = true;
}

unfoldable pub scan_run_from : ℕ → RunState → List ℕ → DigitRun
scan_run_from base s [] = run_end s []
scan_run_from base s (c ∷ cs) = elim (is_digit_in_base c base) [
  | true ↦ scan_run_from base (digit_seen s) cs
  | false ↦ elim (is_separator c) [
    | false ↦ run_end s (c ∷ cs)
    | true ↦ elim (c == quote && not (next_is (λ d. is_digit_in_base d base) cs)) [
      | true ↦ run_end s (c ∷ cs)
      | false ↦ scan_run_from base (separator_seen s) cs
    ]
  ]
]

abbrev pub run_start : RunState
run_start = record { any_digit = false; misplaced = false; last_was_separator = false }

unfoldable pub scan_digit_run : ℕ → List ℕ → DigitRun
scan_digit_run base text = scan_run_from base run_start text

-- Behind the marker of an exponent; `none` where the marker stays.
unfoldable pub scan_exponent : List ℕ → TokenFlags → Option (List ℕ × TokenFlags)
scan_exponent text flags =
    let digits = if next_is (λ c. c == b'+' || c == b'-') text then drop 1 text else text in
    if next_is (λ c. is_ascii_digit c || is_separator c) digits
    then (let run = scan_digit_run 10 digits in
        some (run.rest, set_flag run.misplaced misplaced_separator flags))
    else none

pub record NumberParts : Type 0 where
  pub rest : List ℕ
  pub is_float : Bool
  pub flags : TokenFlags

abbrev pub is_exponent_marker : ℕ → ℕ → Bool
is_exponent_marker base c = if base == 16 then c == b'p' || c == b'P' else c == b'e' || c == b'E'

-- The exponent of `scanFloatTail`.
unfoldable pub exponent_tail : ℕ → NumberParts → NumberParts
exponent_tail base parts =
    if is_exponent_marker base (peek_byte parts.rest)
    then (elim (scan_exponent (drop 1 parts.rest) parts.flags) [
      | none ↦ parts
      | some (rest, flags) ↦ record { rest = rest; is_float = true; flags = flags }
    ])
    else parts

-- Takes a suffix of so many bytes.
abbrev pub take_suffix : ℕ → NumberParts → NumberParts
take_suffix n parts = if n == 0 then parts else record parts {
  rest = drop n parts.rest;
  is_float = parts.is_float || (classify_suffix (take n parts.rest) parts.is_float).makes_float;
}

-- The suffix of `scanFloatTail`.
unfoldable pub suffix_tail : NumberParts → NumberParts
suffix_tail parts =
    let n = suffix_length_at parts.rest parts.is_float in
    let m = suffix_length_at (drop 1 parts.rest) parts.is_float in
    if n == 0 && (next_is is_separator parts.rest && not (m == 0))
    then take_suffix m (record parts {
      rest = drop 1 parts.rest;
      flags = set_flag true misplaced_separator parts.flags;
    })
    else take_suffix n parts

abbrev pub scan_float_tail : ℕ → NumberParts → NumberParts
scan_float_tail base parts = suffix_tail (exponent_tail base parts)

-- A `.` in front of a digit of the base.
abbrev pub point_before_digit : ℕ → List ℕ → Bool
point_before_digit base text =
    next_is (λ c. c == b'.') text && next_is (λ c. is_digit_in_base c base) (drop 1 text)

-- The base of a number, by its prefix.
abbrev pub prefix_base : List ℕ → ℕ
prefix_base (z ∷ c ∷ _) =
    if not (z == b'0')
    then 10
    else if c == b'x' || c == b'X'
    then 16
    else if c == b'b' || c == b'B'
    then 2
    else if c == b'o' || c == b'O'
    then 8
    else 10
prefix_base _ = 10

-- From the fraction on, behind the whole part.
unfoldable pub scan_fraction : ℕ → List ℕ → TokenFlags → NumberParts
scan_fraction base rest flags =
    if base == 10 || base == 16
    then (if point_before_digit base rest
        then (let fraction = scan_digit_run base (drop 1 rest) in
            scan_float_tail base (record {
              rest = fraction.rest;
              is_float = true;
              flags = set_flag fraction.misplaced misplaced_separator flags;
            }))
        else scan_float_tail base (record { rest = rest; is_float = false; flags = flags }))
    else record { rest = rest; is_float = false; flags = flags }

unfoldable pub scan_number_parts : List ℕ → NumberParts
scan_number_parts text =
    if next_is (λ c. c == b'.') text
    then (let fraction = scan_digit_run 10 (drop 1 text) in
        scan_float_tail 10 (record {
          rest = fraction.rest;
          is_float = true;
          flags = set_flag fraction.misplaced misplaced_separator [];
        }))
    else let base = prefix_base text in
      let whole = scan_digit_run base (if base == 10 then text else drop 2 text) in
      let flags = set_flag whole.misplaced misplaced_separator [] in
      if not whole.any_digit && not (base == 16 && point_before_digit 16 whole.rest)
      then record {
        rest = whole.rest;
        is_float = false;
        flags = set_flag true missing_digits flags;
      }
      else scan_fraction base whole.rest flags
