-- ===== src/Support/Literal/Escape.antt =====
-- One element of a character or string literal: `decodeElement` of
-- src/support/consteval/literal.cc on the bytes of the body from an index on.
use mincplus.Prelude.{
  ℕ, ◌+◌, ◌*◌, Bool, true, false, ◌&&◌, ◌||◌, not, ltb, leb, ◌==◌, if◌then◌else◌, Option, none,
  some, List, [], ◌∷◌,
}
use mincplus.Support.Literal.{digit_of}

pub data EscapeMessage : Type 0 where
  ends_in_backslash byte_braces_empty byte_digits_missing code_braces_empty : EscapeMessage
  code_digits_missing not_a_scalar_value named_escape unknown_escape : EscapeMessage

pub record DecodedElement : Type 0 where
  pub value : ℕ
  pub is_code_point : Bool
  pub is_continuation : Bool
  pub next : List ℕ
  pub ok : Bool
  pub message : Option EscapeMessage

abbrev pub good : ℕ → Bool → List ℕ → DecodedElement
good v code next = record {
  value = v;
  is_code_point = code;
  is_continuation = false;
  next = next;
  ok = true;
  message = none;
}

abbrev pub continuation : List ℕ → DecodedElement
continuation next = record {
  value = 0;
  is_code_point = false;
  is_continuation = true;
  next = next;
  ok = true;
  message = none;
}

abbrev pub bad : EscapeMessage → List ℕ → DecodedElement
bad m next = record {
  value = 0;
  is_code_point = false;
  is_continuation = false;
  next = next;
  ok = false;
  message = some m;
}

abbrev pub backslash : ℕ
backslash = 92

abbrev pub open_brace : ℕ
open_brace = 123

abbrev pub close_brace : ℕ
close_brace = 125

abbrev pub line_feed : ℕ
line_feed = 10

abbrev pub carriage_return : ℕ
carriage_return = 13

-- -1 is `none`.
abbrev pub simple_escape_value : ℕ → Option ℕ
simple_escape_value c =
    if c == b'n'
    then some 10
    else if c == b'r'
    then some 13
    else if c == b't'
    then some 9
    else if c == b'v'
    then some 11
    else if c == b'f'
    then some 12
    else if c == b'b'
    then some 8
    else if c == b'a'
    then some 7
    else if c == b'e'
    then some 27
    else none

abbrev pub is_scalar_value : ℕ → Bool
is_scalar_value v = leb v 0x10ffff && (ltb v 0xd800 || ltb 0xdfff v)

pub record EscapeDigits : Type 0 where
  pub value : ℕ
  pub digits : ℕ

abbrev pub saturated : ℕ
saturated = 0x110000

-- The loop of `readEscapeDigits`; 32 bits hold every value, since none above `saturated` grows.
unfoldable pub read_escape_digits : ℕ → ℕ → EscapeDigits → List ℕ → EscapeDigits × List ℕ
read_escape_digits base most run [] = (run, [])
read_escape_digits base most run (c ∷ cs) = elim (most == 0 || ltb run.digits most) [
  | true ↦ elim (digit_of base c) [
    | some d ↦
        read_escape_digits base most
          (record {
            value = if ltb run.value saturated then run.value * base + d else run.value;
            digits = run.digits + 1;
          })
          cs
    | none ↦ (run, c ∷ cs)
  ]
  | false ↦ (run, c ∷ cs)
]

abbrev pub no_run : EscapeDigits
no_run = record { value = 0; digits = 0 }

-- Behind a `{`: some digits and a `}`.
abbrev pub in_braces :
    EscapeMessage → (ℕ → List ℕ → DecodedElement) → EscapeDigits × List ℕ → DecodedElement
in_braces m use_value (run, []) = bad m []
in_braces m use_value (run, c ∷ after) =
    if run.digits == 0 || not (c == close_brace)
    then bad m (c ∷ after)
    else use_value run.value after

-- `\x` and `\o`, on what follows the letter.
unfoldable pub byte_escape : ℕ → List ℕ → DecodedElement
unfolding read_escape_digits
byte_escape base [] = bad byte_digits_missing []
byte_escape base (c ∷ rest) =
    if c == open_brace
    then in_braces byte_braces_empty (λ v. good v false) (read_escape_digits base 0 no_run rest)
    else let (run, next) = read_escape_digits base 0 no_run (c ∷ rest) in
      if run.digits == 0 then bad byte_digits_missing next else good run.value false next

abbrev pub code_point : ℕ → List ℕ → DecodedElement
code_point v next = if is_scalar_value v then good v true next else bad not_a_scalar_value next

-- `\u` and `\U`, on what follows the letter.
unfoldable pub code_escape : ℕ → List ℕ → DecodedElement
unfolding read_escape_digits
code_escape unbraced [] = bad code_digits_missing []
code_escape unbraced (c ∷ rest) =
    if c == open_brace
    then in_braces code_braces_empty code_point (read_escape_digits 16 0 no_run rest)
    else let (run, next) = read_escape_digits 16 unbraced no_run (c ∷ rest) in
      if run.digits == unbraced then code_point run.value next else bad code_digits_missing next

-- The bytes behind the `}` of a name, or from the end of the line on.
abbrev pub skip_name : List ℕ → List ℕ
skip_name [] = []
skip_name (c ∷ cs) =
    let rest = skip_name cs in
    if c == close_brace then cs else if c == line_feed || c == carriage_return then c ∷ cs else rest

abbrev pub named : List ℕ → DecodedElement
named [] = bad named_escape []
named (c ∷ rest) = bad named_escape (if c == open_brace then skip_name rest else c ∷ rest)

-- Behind a line ending that is escaped: a CR and an LF are one.
abbrev pub continue_line : ℕ → List ℕ → DecodedElement
continue_line escape [] = continuation []
continue_line escape (c ∷ rest) =
    continuation (if escape == carriage_return && c == line_feed then rest else c ∷ rest)

-- What follows a backslash, from the `switch` on.
unfoldable pub letter_escape : ℕ → List ℕ → DecodedElement
unfolding byte_escape code_escape read_escape_digits
letter_escape escape rest =
    if escape == 63 || (escape == 39 || (escape == 34 || escape == backslash))
    then good escape false rest
    else if escape == b'x'
    then byte_escape 16 rest
    else if escape == b'o'
    then byte_escape 8 rest
    else if escape == b'u'
    then code_escape 4 rest
    else if escape == b'U'
    then code_escape 8 rest
    else if escape == b'N'
    then named rest
    else if leb b'0' escape && leb escape b'7'
    then (let (run, next) = read_escape_digits 8 3 no_run (escape ∷ rest) in
        good run.value false next)
    else bad unknown_escape rest

unfoldable pub escape_sequence : ℕ → List ℕ → DecodedElement
unfolding letter_escape
escape_sequence escape rest =
    if escape == line_feed || escape == carriage_return
    then continue_line escape rest
    else elim (simple_escape_value escape) [
      | some v ↦ good v false rest
      | none ↦ letter_escape escape rest
    ]

-- `none` at the end of the body.
unfoldable pub decode_element : List ℕ → Option DecodedElement
unfolding escape_sequence
decode_element [] = none
decode_element (c ∷ []) =
    some (if not (c == backslash) then good c false [] else bad ends_in_backslash [])
decode_element (c ∷ escape ∷ rest) =
    some
      (if not (c == backslash) then good c false (escape ∷ rest) else escape_sequence escape rest)
