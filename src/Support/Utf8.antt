-- ===== src/Support/Utf8.antt =====
-- UTF-8: `decodeOne`, `countCodePoints` (src/support/utf8/decode.cc), `firstInvalidOffset`,
-- `isValid` (validate.cc), the byte-order marks (bom.cc), and `appendUtf8` of
-- src/support/consteval/literal.cc. An offset into a text is the list of the bytes from it on.
pub mod Fields
pub mod Code
pub mod Strict
pub mod Valid
use Prim.Native.Nat.{bit_and, bit_or}
use mincplus.Prelude.{
  ℕ, zero, suc, ◌+◌, ◌-◌, ◌*◌, ◌/◌, ◌^◌, Bool, true, false, ◌&&◌, ◌||◌, not, ltb, leb, ◌==◌,
  if◌then◌else◌, Option, none, some, List, [], ◌∷◌, length,
}

pub data ByteOrderMark : Type 0 where
  no_mark utf8 utf16_little_endian utf16_big_endian : ByteOrderMark
  utf32_little_endian utf32_big_endian : ByteOrderMark

abbrev pub starts_with : List ℕ → List ℕ → Bool
starts_with text [] = true
starts_with [] (p ∷ ps) = false
starts_with (c ∷ cs) (p ∷ ps) = c == p && starts_with cs ps

unfoldable pub detect_byte_order_mark : List ℕ → ByteOrderMark
detect_byte_order_mark text =
    if starts_with text (0xff ∷ 0xfe ∷ 0 ∷ 0 ∷ [])
    then utf32_little_endian
    else if starts_with text (0 ∷ 0 ∷ 0xfe ∷ 0xff ∷ [])
    then utf32_big_endian
    else if starts_with text (0xff ∷ 0xfe ∷ [])
    then utf16_little_endian
    else if starts_with text (0xfe ∷ 0xff ∷ [])
    then utf16_big_endian
    else if starts_with text (0xef ∷ 0xbb ∷ 0xbf ∷ [])
    then utf8
    else no_mark

abbrev pub byte_order_mark_length : ByteOrderMark → ℕ
byte_order_mark_length no_mark = 0
byte_order_mark_length utf8 = 3
byte_order_mark_length utf16_little_endian = 2
byte_order_mark_length utf16_big_endian = 2
byte_order_mark_length utf32_little_endian = 4
byte_order_mark_length utf32_big_endian = 4

abbrev pub is_unsupported_encoding : ByteOrderMark → Bool
is_unsupported_encoding no_mark = false
is_unsupported_encoding utf8 = false
is_unsupported_encoding _ = true

pub record Decoded : Type 0 where
  pub code_point : ℕ
  pub length : ℕ

-- What a lead byte above 0x7f says: the length, the bits of the code point, the least code point.
abbrev pub lead_shape : ℕ → Option (ℕ × ℕ × ℕ)
lead_shape lead =
    if bit_and lead 0xe0 == 0xc0
    then some (2, bit_and lead 0x1f, 0x80)
    else if bit_and lead 0xf0 == 0xe0
    then some (3, bit_and lead 0x0f, 0x800)
    else if bit_and lead 0xf8 == 0xf0
    then some (4, bit_and lead 0x07, 0x10000)
    else none

-- The loop over the continuation bytes, so many of them.
abbrev pub continue_with : ℕ → ℕ → List ℕ → Option ℕ
continue_with zero code_point text = some code_point
continue_with (suc n) code_point [] = none
continue_with (suc n) code_point (byte ∷ rest) =
    let next = continue_with n (bit_or (bit_and byte 0x3f) (code_point * 2 ^ 6)) rest in
    if not (bit_and byte 0xc0 == 0x80) then none else next

abbrev pub in_unicode : ℕ → ℕ → ℕ → Option Decoded
in_unicode minimum length code_point =
    if ltb code_point minimum || ltb 0x10ffff code_point
    then none
    else if leb 0xd800 code_point && leb code_point 0xdfff
    then none
    else some (record { code_point = code_point; length = length })

unfoldable pub decode_one : List ℕ → Option Decoded
decode_one [] = none
decode_one (lead ∷ rest) =
    if ltb lead 0x80
    then some (record { code_point = lead; length = 1 })
    else elim (lead_shape lead) [
      | some (n, bits, minimum) ↦
          if ltb (suc (length rest)) n then none else elim (continue_with (n - 1) bits rest) [
            | some code_point ↦ in_unicode minimum n code_point
            | none ↦ none
          ]
      | none ↦ none
    ]

-- The loop of `countCodePoints`; the bytes that `offset` jumps over are skipped.
unfoldable pub count_from : ℕ → List ℕ → ℕ
unfolding decode_one
count_from skip [] = 0
count_from (suc skip) (c ∷ cs) = count_from skip cs
count_from zero (c ∷ cs) = elim (decode_one (c ∷ cs)) [
  | some d ↦ 1 + count_from (d.length - 1) cs
  | none ↦ 1 + count_from 0 cs
]

abbrev pub count_code_points : List ℕ → ℕ
unfolding count_from
count_code_points text = count_from 0 text

-- The loop of `firstInvalidOffset`, from an offset on.
unfoldable pub first_invalid_from : ℕ → ℕ → List ℕ → Option ℕ
unfolding decode_one
first_invalid_from skip offset [] = none
first_invalid_from (suc skip) offset (c ∷ cs) = first_invalid_from skip (offset + 1) cs
first_invalid_from zero offset (c ∷ cs) = elim (decode_one (c ∷ cs)) [
  | some d ↦ first_invalid_from (d.length - 1) (offset + 1) cs
  | none ↦ some offset
]

unfoldable pub first_invalid_offset : List ℕ → Option ℕ
unfolding first_invalid_from
first_invalid_offset text = first_invalid_from 0 0 text

unfoldable pub is_valid : List ℕ → Bool
unfolding first_invalid_offset
is_valid text = elim (first_invalid_offset text) [ some n ↦ false | none ↦ true ]

unfoldable pub append_utf8 : ℕ → List ℕ
append_utf8 code =
    if leb code 0x7f
    then code ∷ []
    else if leb code 0x7ff
    then bit_or (code / 2 ^ 6) 0xc0 ∷ bit_or (bit_and code 0x3f) 0x80 ∷ []
    else if leb code 0xffff
    then bit_or (code / 2 ^ 12) 0xe0
      ∷ bit_or (bit_and (code / 2 ^ 6) 0x3f) 0x80
      ∷ bit_or (bit_and code 0x3f) 0x80
      ∷ []
    else bit_or (code / 2 ^ 18) 0xf0
      ∷ bit_or (bit_and (code / 2 ^ 12) 0x3f) 0x80
      ∷ bit_or (bit_and (code / 2 ^ 6) 0x3f) 0x80
      ∷ bit_or (bit_and code 0x3f) 0x80
      ∷ []
