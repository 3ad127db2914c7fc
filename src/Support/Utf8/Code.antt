-- ===== src/Support/Utf8/Code.antt =====
-- One code point encoded and decoded again (src/support/utf8/decode.cc,
-- src/support/consteval/literal.cc).
use Prim.Native.Nat.{bit_and, bit_or}
use mincplus.Prelude.{
  ℕ, suc, ◌+◌, ◌*◌, ◌/◌, ◌%◌, ◌^◌, ◌≤◌, ◌<◌, ◌≡◌, refl, ◌∙◌, true, false, ltb, leb, ◌==◌, arith,
  dec_lt, some, List, [], ◌∷◌, ◌++◌, length,
}
use mincplus.Prelude.Bits.{bit_or_high, bit_and_low_six}
use mincplus.Support.Literal.Escape.{is_scalar_value}
use mincplus.Support.Utf8.{Decoded, lead_shape, continue_with, in_unicode, decode_one, append_utf8}
use mincplus.Support.Utf8.Fields.{lead_shape_by_value, continuation_test}

pub continue_with-byte :
    (n code b : ℕ) (rest : List ℕ)
    → b < 64
    → continue_with (suc n) code ((b + 0x80) ∷ rest) ≡ continue_with n (b + code * 64) rest
continue_with-byte n code b rest h =
    let test : (bit_and (b + 0x80) 0xc0 == 0x80) ≡ true =
      continuation_test (b + 0x80) (omega arith) ∙ ground arith in
    let low : bit_and (b + 0x80) 0x3f ≡ b = omega (arith, bit_and_low_six (b + 0x80)) in
    let joined : bit_or b (code * 2 ^ 6) ≡ b + code * 64 = omega (arith, bit_or_high 6 b code h) in
    rw (test, low, joined) refl

shape_two : (a : ℕ) → a < 32 → lead_shape (a + 0xc0) ≡ some (2, a, 0x80)
shape_two a h = lead_shape_by_value (a + 0xc0) (omega arith) ∙ ground arith

shape_three : (a : ℕ) → a < 16 → lead_shape (a + 0xe0) ≡ some (3, a, 0x800)
shape_three a h = lead_shape_by_value (a + 0xe0) (omega arith) ∙ ground arith

shape_four : (a : ℕ) → a < 8 → lead_shape (a + 0xf0) ≡ some (4, a, 0x10000)
shape_four a h = lead_shape_by_value (a + 0xf0) (omega arith) ∙ ground arith

pub decode_one-one :
    (a : ℕ) (rest : List ℕ)
    → a < 0x80
    → decode_one (a ∷ rest) ≡ some (record { code_point = a; length = 1 })
unfolding decode_one
decode_one-one a rest h = ground arith

pub decode_one-two :
    (a b : ℕ) (rest : List ℕ)
    → a < 32
    → b < 64
    → decode_one ((a + 0xc0) ∷ (b + 0x80) ∷ rest) ≡ in_unicode 0x80 2 (b + a * 64)
unfolding decode_one
decode_one-two a b rest ha hb =
    let high : ltb (a + 0xc0) 0x80 ≡ false = ground arith in
    let long : ltb (suc (suc (length rest))) 2 ≡ false = ground arith in
    rw (high, shape_two a ha, long, continue_with-byte 0 a b rest hb) refl

pub decode_one-three :
    (a b c : ℕ) (rest : List ℕ)
    → a < 16
    → b < 64
    → c < 64
    → decode_one ((a + 0xe0) ∷ (b + 0x80) ∷ (c + 0x80) ∷ rest)
      ≡ in_unicode 0x800 3 (c + (b + a * 64) * 64)
unfolding decode_one
decode_one-three a b c rest ha hb hc =
    let high : ltb (a + 0xe0) 0x80 ≡ false = ground arith in
    let long : ltb (suc (suc (suc (length rest)))) 3 ≡ false = ground arith in
    rw
      (
        high,
        shape_three a ha,
        long,
        continue_with-byte 1 a b ((c + 0x80) ∷ rest) hb,
        continue_with-byte 0 (b + a * 64) c rest hc,
      )
      refl

pub decode_one-four :
    (a b c d : ℕ) (rest : List ℕ)
    → a < 8
    → b < 64
    → c < 64
    → d < 64
    → decode_one ((a + 0xf0) ∷ (b + 0x80) ∷ (c + 0x80) ∷ (d + 0x80) ∷ rest)
      ≡ in_unicode 0x10000 4 (d + (c + (b + a * 64) * 64) * 64)
unfolding decode_one
decode_one-four a b c d rest ha hb hc hd =
    let high : ltb (a + 0xf0) 0x80 ≡ false = ground arith in
    let long : ltb (suc (suc (suc (suc (length rest))))) 4 ≡ false = ground arith in
    rw
      (
        high,
        shape_four a ha,
        long,
        continue_with-byte 2 a b ((c + 0x80) ∷ (d + 0x80) ∷ rest) hb,
        continue_with-byte 1 (b + a * 64) c ((d + 0x80) ∷ rest) hc,
        continue_with-byte 0 (c + (b + a * 64) * 64) d rest hd,
      )
      refl

abbrev pub decoded : ℕ → ℕ → Decoded
decoded code length = record { code_point = code; length = length }

in_unicode-scalar :
    (minimum n code : ℕ)
    → minimum ≤ code
    → is_scalar_value code ≡ true
    → in_unicode minimum n code ≡ some (decoded code n)
in_unicode-scalar minimum n code h scalar = ground arith

low_byte : (x : ℕ) → bit_or (bit_and x 0x3f) 0x80 ≡ x % 64 + 0x80
low_byte x = rw (bit_and_low_six x) (bit_or_high 6 (x % 64) 2 (omega arith))

pub append_utf8_one : (code : ℕ) → code < 0x80 → append_utf8 code ≡ code ∷ []
unfolding append_utf8
append_utf8_one code h = ground arith

pub append_utf8_two :
    (code : ℕ)
    → 0x80 ≤ code
    → code < 0x800
    → append_utf8 code ≡ (code / 64 + 0xc0) ∷ (code % 64 + 0x80) ∷ []
unfolding append_utf8
append_utf8_two code l h =
    let first : leb code 0x7f ≡ false = ground arith in
    let second : leb code 0x7ff ≡ true = ground arith in
    rw (first, second, low_byte code, bit_or_high 6 (code / 64) 3 (omega arith)) refl

pub append_utf8_three :
    (code : ℕ)
    → 0x800 ≤ code
    → code < 0x10000
    → append_utf8 code ≡ (code / 64 / 64 + 0xe0) ∷ (code / 64 % 64 + 0x80) ∷ (code % 64 + 0x80) ∷ []
unfolding append_utf8
append_utf8_three code l h =
    let first : leb code 0x7f ≡ false = ground arith in
    let second : leb code 0x7ff ≡ false = ground arith in
    let third : leb code 0xffff ≡ true = ground arith in
    let twelve : code / 2 ^ 12 ≡ code / 64 / 64 = omega arith in
    rw
      (
        first,
        second,
        third,
        twelve,
        low_byte code,
        low_byte (code / 64),
        bit_or_high 5 (code / 64 / 64) 7 (omega arith),
      )
      refl

pub append_utf8_four :
    (code : ℕ)
    → 0x10000 ≤ code
    → code < 0x110000
    → append_utf8 code
      ≡ (code / 64 / 64 / 64 + 0xf0)
        ∷ (code / 64 / 64 % 64 + 0x80)
        ∷ (code / 64 % 64 + 0x80)
        ∷ (code % 64 + 0x80)
        ∷ []
unfolding append_utf8
append_utf8_four code l h =
    let first : leb code 0x7f ≡ false = ground arith in
    let second : leb code 0x7ff ≡ false = ground arith in
    let third : leb code 0xffff ≡ false = ground arith in
    let twelve : code / 2 ^ 12 ≡ code / 64 / 64 = omega arith in
    let eighteen : code / 2 ^ 18 ≡ code / 64 / 64 / 64 = omega arith in
    rw
      (
        first,
        second,
        third,
        twelve,
        eighteen,
        low_byte code,
        low_byte (code / 64),
        low_byte (code / 64 / 64),
        bit_or_high 4 (code / 64 / 64 / 64) 15 (omega arith),
      )
      refl

-- Decoding the encoding of a scalar value gives it back, whatever follows.
pub decode_one-append_utf8 :
    (code : ℕ) (rest : List ℕ)
    → is_scalar_value code ≡ true
    → decode_one (append_utf8 code ++ rest) ≡ some (decoded code (length (append_utf8 code)))
decode_one-append_utf8 code rest scalar = elim (dec_lt code 0x80) [
  | yes l ↦ rw (append_utf8_one code l) (decode_one-one code rest l)
  | no n1 ↦ elim (dec_lt code 0x800) [
    | yes l ↦ rw (append_utf8_two code (omega arith) l) (
        decode_one-two (code / 64) (code % 64) rest (omega arith) (omega arith)
        ∙ rw (joined code) (in_unicode-scalar 0x80 2 code (omega arith) scalar))
    | no n2 ↦ elim (dec_lt code 0x10000) [
      | yes l ↦ rw (append_utf8_three code (omega arith) l) (
          decode_one-three (code / 64 / 64) (code / 64 % 64) (code % 64) rest (omega arith)
            (omega arith) (omega arith)
          ∙ rw (joined (code / 64), joined code)
              (in_unicode-scalar 0x800 3 code (omega arith) scalar))
      | no n3 ↦
          let l : code < 0x110000 = ground arith in
          rw (append_utf8_four code (omega arith) l) (
            decode_one-four (code / 64 / 64 / 64) (code / 64 / 64 % 64) (code / 64 % 64) (code % 64)
              rest (omega arith) (omega arith) (omega arith) (omega arith)
            ∙ rw (joined (code / 64 / 64), joined (code / 64), joined code)
                (in_unicode-scalar 0x10000 4 code (omega arith) scalar))
    ]
  ]
]
  where
    joined : (n : ℕ) → n % 64 + n / 64 * 64 ≡ n
    joined n = omega arith
