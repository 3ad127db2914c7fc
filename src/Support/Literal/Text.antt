-- ===== src/Support/Literal/Text.antt =====
-- Character and string literals: `parseCharLiteral` and `parseStringLiteral` of
-- src/support/consteval/literal.cc. The loops are on fuel, and `none` is a run that is out of it.
pub mod Total
pub mod Elements
pub mod Bytes
use Prim.Native.Nat.{bit_or}
use mincplus.Prelude.{
  ℕ, zero, suc, ◌-◌, ◌*◌, ◌+◌, ◌%◌, ◌^◌, Bool, true, false, ltb, if◌then◌else◌, Option, none, some,
  List, [], ◌∷◌, ◌++◌, length, take, drop,
}
use mincplus.Support.ConstInt.{ConstInt}
use mincplus.Support.Literal.Escape.{DecodedElement, EscapeMessage, decode_element}
use mincplus.Support.Utf8.{append_utf8}

pub data TextMessage : Type 0 where
  malformed wider_than_a_byte : TextMessage
  in_literal : Option EscapeMessage → TextMessage

pub record CharLiteral : Type 0 where
  pub value : ConstInt
  pub units : ℕ
  pub ok : Bool
  pub message : Option TextMessage

abbrev pub refused_char : ℕ → TextMessage → CharLiteral
refused_char units m = record {
  value = record { bits = 0; is_unsigned = false };
  units = units;
  ok = false;
  message = some m;
}

-- `fromSigned` of a cast keeps the bits.
abbrev pub read_char : ℕ → ℕ → CharLiteral
read_char value units = record {
  value = record { bits = value; is_unsigned = false };
  units = units;
  ok = true;
  message = none;
}

-- One turn of the loop is one element of the body.
unfoldable pub char_from : ℕ → ℕ → ℕ → List ℕ → Option CharLiteral
unfolding decode_element
char_from fuel value units [] = some (read_char value units)
char_from zero value units (c ∷ cs) = none
char_from (suc fuel) value units (c ∷ cs) = elim (decode_element (c ∷ cs)) [
  | none ↦ some (read_char value units)
  | some e ↦ elim e.ok [
    | false ↦ some (refused_char units (in_literal e.message))
    | true ↦ elim e.is_continuation [
      | true ↦ char_from fuel value units e.next
      | false ↦ char_from fuel (bit_or (value * 2 ^ 8 % 2 ^ 64) e.value) (units + 1) e.next
    ]
  ]
]

-- The bytes between the quotes.
abbrev pub body_of : List ℕ → List ℕ
body_of text = take (length text - 2) (drop 1 text)

unfoldable pub parse_char_literal : List ℕ → Option CharLiteral
unfolding char_from
parse_char_literal text =
    if ltb (length text) 2
    then some (refused_char 0 malformed)
    else char_from (length (body_of text)) 0 0 (body_of text)

pub record StringLiteral : Type 0 where
  pub bytes : List ℕ
  pub ok : Bool
  pub message : Option TextMessage

abbrev pub refused_string : List ℕ → TextMessage → StringLiteral
refused_string bytes m = record { bytes = bytes; ok = false; message = some m }

abbrev pub read_string : List ℕ → StringLiteral
read_string bytes = record { bytes = bytes; ok = true; message = none }

unfoldable pub string_from : ℕ → List ℕ → List ℕ → Option StringLiteral
unfolding decode_element append_utf8
string_from fuel bytes [] = some (read_string bytes)
string_from zero bytes (c ∷ cs) = none
string_from (suc fuel) bytes (c ∷ cs) = elim (decode_element (c ∷ cs)) [
  | none ↦ some (read_string bytes)
  | some e ↦ elim e.ok [
    | false ↦ some (refused_string bytes (in_literal e.message))
    | true ↦ elim e.is_continuation [
      | true ↦ string_from fuel bytes e.next
      | false ↦ elim e.is_code_point [
        | true ↦ string_from fuel (bytes ++ append_utf8 e.value) e.next
        | false ↦ elim (ltb 0xff e.value) [
          | true ↦ some (refused_string bytes wider_than_a_byte)
          | false ↦ string_from fuel (bytes ++ (e.value ∷ [])) e.next
        ]
      ]
    ]
  ]
]

unfoldable pub parse_string_literal : List ℕ → Option StringLiteral
unfolding string_from
parse_string_literal text =
    if ltb (length text) 2
    then some (refused_string [] malformed)
    else string_from (length (body_of text)) [] (body_of text)
