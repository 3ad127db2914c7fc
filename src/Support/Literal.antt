-- ===== src/Support/Literal.antt =====
-- The integer literals of include/support/consteval/literal.h and
-- src/support/consteval/literal.cc. An index into a text is the list of the bytes from it on.
pub mod Value
pub mod Decimal
pub mod Escape
pub mod Text
pub mod Progress
pub mod CodePoint
use mincplus.Prelude.{
  ℕ, zero, suc, ◌+◌, ◌-◌, ◌*◌, ◌/◌, ◌%◌, ◌^◌, Bool, true, false, ◌&&◌, ◌||◌, not, ltb, leb, ◌==◌,
  if◌then◌else◌, Option, none, some, List, [], ◌∷◌, length, take,
}
use mincplus.Support.ConstInt.{ConstInt}
use mincplus.Support.Suffix.{
  LiteralSuffix, no_suffix, typed, refused, SuffixMessage, absent, is_unsigned_suffix,
  classify_suffix, in_range,
}
use mincplus.Support.Suffix.Number.{is_separator, numeric_part_of_float}

pub data IntegerBaseRule : Type 0 where
  decimal_leading_zero implicit_octal : IntegerBaseRule

pub data IntegerMessage : Type 0 where
  empty_integer malformed_integer misplaced_separator unknown_suffix too_wide : IntegerMessage
  suffix_refused : Option SuffixMessage → IntegerMessage

pub record IntegerLiteral : Type 0 where
  pub value : ConstInt
  pub number : List ℕ
  pub ok : Bool
  pub is_too_wide : Bool
  pub message : Option IntegerMessage
  pub suffix : LiteralSuffix

-- -1 is `none`.
abbrev pub hex_value : ℕ → Option ℕ
hex_value c =
    if in_range b'0' b'9' c
    then some (c - b'0')
    else if in_range b'a' b'f' c
    then some (10 + (c - b'a'))
    else if in_range b'A' b'F' c
    then some (10 + (c - b'A'))
    else none

-- The value of a digit of the base.
abbrev pub digit_of : ℕ → ℕ → Option ℕ
digit_of base c = elim (hex_value c) [ some d ↦ if ltb d base then some d else none | none ↦ none ]

-- The prefix: the base, and the digits behind it.
unfoldable pub integer_base : IntegerBaseRule → List ℕ → ℕ × List ℕ
integer_base rule (z ∷ c ∷ rest) =
    if not (z == b'0')
    then (10, z ∷ c ∷ rest)
    else if c == b'x' || c == b'X'
    then (16, rest)
    else if c == b'b' || c == b'B'
    then (2, rest)
    else if c == b'o' || c == b'O'
    then (8, rest)
    else elim rule [
      | implicit_octal ↦ if in_range b'0' b'7' c then (8, c ∷ rest) else (10, z ∷ c ∷ rest)
      | decimal_leading_zero ↦ (10, z ∷ c ∷ rest)
    ]
integer_base rule text = (10, text)

-- The variables of the loop over the digits.
pub record Scan : Type 0 where
  pub value : ℕ
  pub overflowed : Bool
  pub any_digit : Bool
  pub misplaced : Bool
  pub last_was_separator : Bool

abbrev pub no_digits : Scan
no_digits = record {
  value = 0;
  overflowed = false;
  any_digit = false;
  misplaced = false;
  last_was_separator = false;
}

abbrev pub take_separator : Scan → Scan
take_separator s = record s {
  misplaced = s.misplaced || (not s.any_digit || s.last_was_separator);
  last_was_separator = true;
}

abbrev pub uint64_max : ℕ
uint64_max = 2 ^ 64 - 1

abbrev pub take_digit : ℕ → ℕ → Scan → Scan
take_digit base d s = record {
  value = (s.value * base + d) % 2 ^ 64;
  overflowed = s.overflowed || ltb ((uint64_max - d) / base) s.value;
  any_digit = true;
  misplaced = s.misplaced;
  last_was_separator = false;
}

unfoldable pub scan_digits : ℕ → List ℕ → Scan → Scan × List ℕ
scan_digits base [] s = (s, [])
scan_digits base (c ∷ cs) s = elim (is_separator c) [
  | true ↦ scan_digits base cs (take_separator s)
  | false ↦ elim (digit_of base c) [
    | some d ↦ scan_digits base cs (take_digit base d s)
    | none ↦ (s, c ∷ cs)
  ]
]

-- `IntegerLiteral{}` with a message.
abbrev pub no_integer : IntegerMessage → List ℕ → LiteralSuffix → IntegerLiteral
no_integer m number suffix = record {
  value = record { bits = 0; is_unsigned = false };
  number = number;
  ok = false;
  is_too_wide = false;
  message = some m;
  suffix = suffix;
}

-- The value, once the suffix is known.
abbrev pub finish_integer : Scan → Bool → List ℕ → LiteralSuffix → IntegerLiteral
finish_integer s is_unsigned number suffix =
    if s.overflowed
    then record {
      value = record { bits = s.value; is_unsigned = is_unsigned };
      number = number;
      ok = false;
      is_too_wide = true;
      message = some too_wide;
      suffix = suffix;
    }
    else let is_typed : Bool = elim suffix.status [ typed ↦ true | _ ↦ false ] in
      record {
        value = record {
          bits = s.value;
          is_unsigned =
              is_unsigned || not is_typed && (not is_unsigned && ltb (2 ^ 63 - 1) s.value);
        };
        number = number;
        ok = true;
        is_too_wide = false;
        message = none;
        suffix = suffix;
      }

abbrev pub with_suffix : Scan → List ℕ → List ℕ → IntegerLiteral
with_suffix s number rest =
    let suffix = classify_suffix rest false in
    elim suffix.status [
      | no_suffix ↦
          if not (length rest == 0)
          then no_integer unknown_suffix number suffix
          else finish_integer s false number suffix
      | refused ↦ no_integer (suffix_refused suffix.message) number suffix
      | typed ↦ finish_integer s (is_unsigned_suffix suffix.type) number suffix
    ]

unfoldable pub parse_integer_literal : List ℕ → IntegerBaseRule → IntegerLiteral
unfolding integer_base scan_digits classify_suffix
parse_integer_literal text rule =
    if length text == 0
    then no_integer empty_integer [] absent
    else let (base, digits) = integer_base rule text in
      let (s, rest) = scan_digits base digits no_digits in
      if not s.any_digit
      then no_integer malformed_integer [] absent
      else if s.misplaced || s.last_was_separator
      then no_integer misplaced_separator [] absent
      else with_suffix s (take (length text - length rest) text) rest

unfoldable pub without_separators : List ℕ → List ℕ
without_separators [] = []
without_separators (c ∷ cs) =
    let rest = without_separators cs in if is_separator c then rest else c ∷ rest

pub record FloatLiteral : Type 0 where
  pub number : List ℕ
  pub suffix : LiteralSuffix

unfoldable pub read_float_literal : List ℕ → FloatLiteral
unfolding numeric_part_of_float classify_suffix
read_float_literal text =
    let (number, rest) = numeric_part_of_float text in
    record { number = number; suffix = classify_suffix rest true }
