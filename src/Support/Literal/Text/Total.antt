-- ===== src/Support/Literal/Text/Total.antt =====
-- The loops over a literal's body end, and what they yield (src/support/consteval/literal.cc).
use Prim.Native.Nat.{bit_or}
use mincplus.Prelude.{
  ℕ, zero, suc, ◌*◌, ◌+◌, ◌%◌, ◌^◌, ◌≤◌, ◌<◌, ◌≡◌, refl, Bool, true, false, ltb, Option, some, List,
  [], ◌∷◌, ◌++◌, length, arith, if_both, elim_both, All, IsByte, dec_lt,
}
use mincplus.Support.Literal.Escape.{DecodedElement, is_scalar_value}
use mincplus.Support.Literal.Progress.{decode_element_shorter}
use mincplus.Support.Literal.CodePoint.{decode_element_scalar}
use mincplus.Support.Literal.Text.{
  CharLiteral, char_from, parse_char_literal, body_of, read_char, refused_char, in_literal,
  StringLiteral, string_from, parse_string_literal, refused_string, read_string, wider_than_a_byte,
  malformed,
}
use mincplus.Support.Utf8.{append_utf8}
use mincplus.Support.Utf8.Code.{
  append_utf8_one, append_utf8_two, append_utf8_three, append_utf8_four,
}

-- A result with at most so many units.
abbrev Reads : ℕ → Option CharLiteral → Type 0
Reads most o = (r : CharLiteral) × (o ≡ some r) × (r.units ≤ most)

char_from-Reads :
    (fuel value units : ℕ) (body : List ℕ)
    → length body ≤ fuel
    → Reads (units + length body) (char_from fuel value units body)
unfolding char_from
char_from-Reads fuel value units [] h = (read_char value units, refl, omega arith)
char_from-Reads zero value units (c ∷ cs) h = absurd (omega arith)
char_from-Reads (suc fuel) value units (c ∷ cs) h =
    let (e, found, shorter) = decode_element_shorter c cs in
    rw (char_from, found)
      (by_element e shorter (λ v u. char_from-Reads fuel v u e.next (omega (arith, shorter))))
  where
    by_element :
        (e : DecodedElement)
        → length e.next ≤ length cs
        → ((v u : ℕ) → Reads (u + length e.next) (char_from fuel v u e.next))
        → Reads (units + suc (length cs)) (elim e.ok [
          | false ↦ some (refused_char units (in_literal e.message))
          | true ↦ elim e.is_continuation [
            | true ↦ char_from fuel value units e.next
            | false ↦ char_from fuel (bit_or (value * 2 ^ 8 % 2 ^ 64) e.value) (units + 1) e.next
          ]
        ])
    by_element e shorter rec =
        elim_both (Reads (units + suc (length cs))) e.ok
          (elim_both (Reads (units + suc (length cs))) e.is_continuation
            (within units (omega arith) (rec value units))
            (within (units + 1) (omega arith)
              (rec (bit_or (value * 2 ^ 8 % 2 ^ 64) e.value) (units + 1))))
          (refused_char units (in_literal e.message), refl, omega arith)
      where
        within :
            (u : ℕ) {o : Option CharLiteral}
            → u + length e.next ≤ units + suc (length cs)
            → Reads (u + length e.next) o
            → Reads (units + suc (length cs)) o
        within u l (r, eq, most) = (r, eq, omega arith)

-- Every character literal yields a result, which has no more units than the body has bytes.
pub parse_char_literal_total :
    (text : List ℕ)
    → (r : CharLiteral) × (parse_char_literal text ≡ some r) × (r.units ≤ length (body_of text))
unfolding parse_char_literal
parse_char_literal_total text =
    if_both (Reads (length (body_of text))) (ltb (length text) 2)
      (refused_char 0 malformed, refl, omega arith)
      (let (r, e, most) =
          char_from-Reads (length (body_of text)) 0 0 (body_of text) (omega arith) in
        (r, e, omega (arith, most)))

abbrev YieldsBytes : Option StringLiteral → Type 0
YieldsBytes o = (r : StringLiteral) × (o ≡ some r) × All IsByte r.bytes

All-append : (xs ys : List ℕ) → All IsByte xs → All IsByte ys → All IsByte (xs ++ ys)
All-append [] ys hx hy = hy
All-append (x ∷ xs) ys hx hy = (hx.0, All-append xs ys (hx.1) hy)

append_utf8-bytes : (code : ℕ) → is_scalar_value code ≡ true → All IsByte (append_utf8 code)
append_utf8-bytes code scalar = elim (dec_lt code 0x80) [
  | yes l ↦ rw (append_utf8_one code l) (omega arith, tt)
  | no n1 ↦ elim (dec_lt code 0x800) [
    | yes l ↦ rw (append_utf8_two code (omega arith) l) (omega arith, (omega arith, tt))
    | no n2 ↦ elim (dec_lt code 0x10000) [
      | yes l ↦
          rw (append_utf8_three code (omega arith) l)
            (omega arith, (omega arith, (omega arith, tt)))
      | no n3 ↦
          let l : code < 0x110000 = ground arith in
          rw (append_utf8_four code (omega arith) l)
            (omega arith, (omega arith, (omega arith, (omega arith, tt))))
    ]
  ]
]

string_from-YieldsBytes :
    (fuel : ℕ) (bytes body : List ℕ)
    → length body ≤ fuel
    → All IsByte bytes
    → YieldsBytes (string_from fuel bytes body)
unfolding string_from
string_from-YieldsBytes fuel bytes [] h small = (read_string bytes, refl, small)
string_from-YieldsBytes zero bytes (c ∷ cs) h small = absurd (omega arith)
string_from-YieldsBytes (suc fuel) bytes (c ∷ cs) h small =
    let (e, found, shorter) = decode_element_shorter c cs in
    rw (string_from, found)
      (by_element e (decode_element_scalar (c ∷ cs) e found)
        (λ more. string_from-YieldsBytes fuel more e.next (omega (arith, shorter))))
  where
    by_element :
        (e : DecodedElement)
        → (e.is_code_point ≡ true → is_scalar_value e.value ≡ true)
        → ((more : List ℕ) → All IsByte more → YieldsBytes (string_from fuel more e.next))
        → YieldsBytes (elim e.ok [
          | false ↦ some (refused_string bytes (in_literal e.message))
          | true ↦ elim e.is_continuation [
            | true ↦ string_from fuel bytes e.next
            | false ↦ elim e.is_code_point [
              | true ↦ string_from fuel (bytes ++ append_utf8 e.value) e.next
              | false ↦ elim (ltb 0xff e.value) [
                | true ↦ some (refused_string bytes wider_than_a_byte)
                | false ↦ string_from fuel (bytes ++ (e.value ∷ [])) e.next
              ]
            ]
          ]
        ])
    by_element e scalar rec =
        elim_both YieldsBytes e.ok
          (elim_both YieldsBytes e.is_continuation (rec bytes small)
            (by_code e.is_code_point scalar))
          (refused_string bytes (in_literal e.message), refl, small)
      where
        by_width :
            (wide : Bool)
            → ltb 0xff e.value ≡ wide
            → YieldsBytes (elim wide [
              | true ↦ some (refused_string bytes wider_than_a_byte)
              | false ↦ string_from fuel (bytes ++ (e.value ∷ [])) e.next
            ])
        by_width true w = (refused_string bytes wider_than_a_byte, refl, small)
        by_width false w =
            rec (bytes ++ (e.value ∷ [])) (All-append bytes (e.value ∷ []) small (ground arith, tt))

        by_code :
            (code : Bool)
            → (code ≡ true → is_scalar_value e.value ≡ true)
            → YieldsBytes (elim code [
              | true ↦ string_from fuel (bytes ++ append_utf8 e.value) e.next
              | false ↦ elim (ltb 0xff e.value) [
                | true ↦ some (refused_string bytes wider_than_a_byte)
                | false ↦ string_from fuel (bytes ++ (e.value ∷ [])) e.next
              ]
            ])
        by_code true sound =
            rec (bytes ++ append_utf8 e.value) (
              All-append bytes (append_utf8 e.value) small (append_utf8-bytes e.value (sound refl)))
        by_code false sound = by_width (ltb 0xff e.value) refl

-- Every string literal yields a result, whose bytes are below 256.
pub parse_string_literal_total :
    (text : List ℕ)
    → (r : StringLiteral) × (parse_string_literal text ≡ some r) × All IsByte r.bytes
unfolding parse_string_literal
parse_string_literal_total text =
    if_both YieldsBytes (ltb (length text) 2) (refused_string [] malformed, refl, tt)
      (string_from-YieldsBytes (length (body_of text)) [] (body_of text) (omega arith) tt)
