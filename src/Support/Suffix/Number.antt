-- ===== src/Support/Suffix/Number.antt =====
-- `numericPartOfFloat` of src/support/consteval/suffix.cc: the number and what follows it.
use mincplus.Prelude.{
  ℕ, Bool, true, false, ◌&&◌, ◌||◌, ◌==◌, if◌then◌else◌, List, [], ◌∷◌, ◌++◌, length,
}
use mincplus.Support.Suffix.{in_range, is_decimal_digit, span}

abbrev pub is_separator : ℕ → Bool
is_separator c = c == b'_' || c == 39

abbrev pub is_hex : ℕ → Bool
is_hex c = is_decimal_digit c || (in_range b'a' b'f' c || in_range b'A' b'F' c)

-- The digits of a base, and the separators.
abbrev pub takes_digit : ℕ → ℕ → Bool
takes_digit base c =
    (if base == 16
      then is_hex c
      else if base == 2
      then c == b'0' || c == b'1'
      else if base == 8
      then in_range b'0' b'7' c
      else is_decimal_digit c)
    || is_separator c

abbrev pub base_of_prefix : ℕ → ℕ
base_of_prefix c =
    if c == b'x' || c == b'X'
    then 16
    else if c == b'b' || c == b'B'
    then 2
    else if c == b'o' || c == b'O'
    then 8
    else 10

-- The base, the prefix and the rest.
abbrev pub split_prefix : List ℕ → ℕ × List ℕ × List ℕ
split_prefix (z ∷ c ∷ rest) =
    if z == b'0' && (if base_of_prefix c == 10 then false else true)
    then (base_of_prefix c, z ∷ c ∷ [], rest)
    else (10, [], z ∷ c ∷ rest)
split_prefix text = (10, [], text)

-- A `.` and the digits behind it.
abbrev pub split_fraction : ℕ → List ℕ → List ℕ × List ℕ
split_fraction base [] = ([], [])
split_fraction base (c ∷ rest) =
    let (digits, after) = span (takes_digit base) rest in
    if c == b'.' then (c ∷ digits, after) else ([], c ∷ rest)

-- The sign of an exponent.
abbrev pub split_sign : List ℕ → List ℕ × List ℕ
split_sign [] = ([], [])
split_sign (c ∷ rest) = if c == b'+' || c == b'-' then (c ∷ [], rest) else ([], c ∷ rest)

abbrev pub is_marker : ℕ → ℕ → Bool
is_marker base c =
    if base == 16
    then c == b'p' || c == b'P'
    else if base == 10
    then c == b'e' || c == b'E'
    else false

-- The exponent, where a digit or a separator follows its marker.
abbrev pub split_exponent : ℕ → List ℕ → List ℕ × List ℕ
split_exponent base [] = ([], [])
split_exponent base (c ∷ rest) =
    let (sign, unsigned) = split_sign rest in
    let (digits, after) = span (takes_digit base) unsigned in
    if is_marker base c && (if length digits == 0 then false else true)
    then (c ∷ (sign ++ digits), after)
    else ([], c ∷ rest)

unfoldable pub numeric_part_of_float : List ℕ → List ℕ × List ℕ
numeric_part_of_float text =
    let (base, prefix, body) = split_prefix text in
    let (whole, after_whole) = span (takes_digit base) body in
    let (fraction, after_fraction) = split_fraction base after_whole in
    let (exponent, rest) = split_exponent base after_fraction in
    (prefix ++ (whole ++ (fraction ++ exponent)), rest)
