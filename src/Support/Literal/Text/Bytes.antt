-- ===== src/Support/Literal/Text/Bytes.antt =====
-- What the reader of string literals (src/support/consteval/literal.cc) makes of the elements of a
-- body, and of plain bytes.
use mincplus.Prelude.{
  ℕ, zero, suc, ◌+◌, ◌≤◌, ◌<◌, ◌≡◌, ◌⊎◌, inl, inr, refl, sym, ap, subst, ◌∙◌, Bool, true, false,
  not, ◌&&◌, ltb, if◌then◌else◌, Option, some, List, [], ◌∷◌, ◌++◌, length, length-append, take,
  ◌-◌, ◌==◌, arith, All, IsByte,
}
use mathlib.Core.List.{append_assoc, append-nil}
use mincplus.Support.Literal.Escape.{DecodedElement, decode_element, good, backslash}
use mincplus.Support.Literal.Progress.{decode_element_shorter}
use mincplus.Support.Literal.Text.{
  body_of, in_literal, StringLiteral, string_from, parse_string_literal, refused_string,
  read_string, wider_than_a_byte, TextMessage,
}
use mincplus.Support.Literal.Text.Total.{parse_string_literal_total}
use mincplus.Support.Utf8.{append_utf8}
use mincplus.Support.Literal.Text.Elements.{ReadsTo, one_result}

-- What an element adds to the bytes of a string, and whether it is refused there for its width.
abbrev pub bytes_of : DecodedElement → List ℕ
bytes_of e =
    if e.is_continuation then [] else if e.is_code_point then append_utf8 e.value else e.value ∷ []

abbrev pub is_wide : DecodedElement → Bool
is_wide e = not e.is_continuation && (not e.is_code_point && ltb 0xff e.value)

abbrev pub spell : List DecodedElement → List ℕ
spell [] = []
spell (e ∷ es) = bytes_of e ++ spell es

abbrev pub IsNarrow : DecodedElement → Type 0
IsNarrow e = is_wide e ≡ false

-- Why an element ends the reading.
abbrev pub Refuses : DecodedElement → TextMessage → Type 0
Refuses e m =
    ((e.ok ≡ false) × (m ≡ in_literal e.message))
    ⊎ ((e.ok ≡ true) × (is_wide e ≡ true) × (m ≡ wider_than_a_byte))

pub data StringOutcome (bytes body : List ℕ) (r : StringLiteral) : Type 0 where
  whole :
      (es : List DecodedElement)
      → ReadsTo body es []
      → All IsNarrow es
      → r ≡ read_string (bytes ++ spell es)
      → StringOutcome bytes body r
  refused :
      (es : List DecodedElement) (rest : List ℕ) (e : DecodedElement) (m : TextMessage)
      → ReadsTo body es rest
      → All IsNarrow es
      → decode_element rest ≡ some e
      → Refuses e m
      → r ≡ refused_string (bytes ++ spell es) m
      → StringOutcome bytes body r

abbrev StringResult : (bytes body : List ℕ) → Option StringLiteral → Type 0
StringResult bytes body o = (r : StringLiteral) × (o ≡ some r) × StringOutcome bytes body r

string_put :
    {bytes : List ℕ} (body : List ℕ) (e : DecodedElement) (more : List ℕ) (r : StringLiteral)
    → decode_element body ≡ some e
    → e.ok ≡ true
    → is_wide e ≡ false
    → more ≡ bytes ++ bytes_of e
    → StringOutcome more e.next r
    → StringOutcome bytes body r
string_put {bytes} body e more r found fine narrow pm (whole es reads small eq) =
    whole (e ∷ es) (found, fine, reads) (narrow, small)
      (eq ∙ rw (pm, append_assoc bytes (bytes_of e) (spell es)) refl)
string_put {bytes} body e more r found fine narrow pm
      (refused es rest f m reads small behind why eq) =
    refused (e ∷ es) rest f m (found, fine, reads) (narrow, small) behind why
      (eq ∙ rw (pm, append_assoc bytes (bytes_of e) (spell es)) refl)

string_from-StringResult :
    (fuel : ℕ) (bytes body : List ℕ)
    → length body ≤ fuel
    → StringResult bytes body (string_from fuel bytes body)
unfolding string_from
string_from-StringResult fuel bytes [] h =
    (read_string bytes, refl, whole [] refl tt (ap read_string (sym (append-nil bytes))))
string_from-StringResult zero bytes (c ∷ cs) h = absurd (omega arith)
string_from-StringResult (suc fuel) bytes (c ∷ cs) h =
    let (e, found, shorter) = decode_element_shorter c cs in
    rw (string_from, found)
      (by_element e found
        (λ more. string_from-StringResult fuel more e.next (omega (arith, shorter))) e.ok
        e.is_continuation e.is_code_point (ltb 0xff e.value) refl refl refl refl)
  where
    by_element :
        (e : DecodedElement)
        → decode_element (c ∷ cs) ≡ some e
        → ((more : List ℕ) → StringResult more e.next (string_from fuel more e.next))
        → (fine continues code wide : Bool) → e.ok ≡ fine
        → e.is_continuation ≡ continues
        → e.is_code_point ≡ code
        → ltb 0xff e.value ≡ wide
        → StringResult bytes (c ∷ cs) (elim fine [
          | false ↦ some (refused_string bytes (in_literal e.message))
          | true ↦ elim continues [
            | true ↦ string_from fuel bytes e.next
            | false ↦ elim code [
              | true ↦ string_from fuel (bytes ++ append_utf8 e.value) e.next
              | false ↦ elim wide [
                | true ↦ some (refused_string bytes wider_than_a_byte)
                | false ↦ string_from fuel (bytes ++ (e.value ∷ [])) e.next
              ]
            ]
          ]
        ])
    by_element e found rec false continues code wide f k d w = (
      refused_string bytes (in_literal e.message),
      refl,
      refused [] (c ∷ cs) e (in_literal e.message) refl tt found (inl (f, refl))
          (ap (λ (b : List ℕ). refused_string b (in_literal e.message)) (sym (append-nil bytes))),
    )
    by_element e found rec true true code wide f k d w =
        let (r, same, behind) = rec bytes in
        (
          r,
          same,
          string_put (c ∷ cs) e bytes r found f (rw k refl) (rw (k, append-nil bytes) refl) behind,
        )
    by_element e found rec true false true wide f k d w =
        let (r, same, behind) = rec (bytes ++ append_utf8 e.value) in
        (
          r,
          same,
          string_put (c ∷ cs) e (bytes ++ append_utf8 e.value) r found f (rw (k, d) refl)
              (rw (k, d) refl) behind,
        )
    by_element e found rec true false false true f k d w = (
      refused_string bytes wider_than_a_byte,
      refl,
      refused [] (c ∷ cs) e wider_than_a_byte refl tt found (inr (f, rw (k, d, w) refl, refl))
          (ap (λ (b : List ℕ). refused_string b wider_than_a_byte) (sym (append-nil bytes))),
    )
    by_element e found rec true false false false f k d w =
        let (r, same, behind) = rec (bytes ++ (e.value ∷ [])) in
        (
          r,
          same,
          string_put (c ∷ cs) e (bytes ++ (e.value ∷ [])) r found f (rw (k, d, w) refl)
              (rw (k, d) refl) behind,
        )

-- A string literal with both quotes is read to the end of its body, and then its bytes are those of
-- its elements, one after the other, of which none is wider than a byte; or it is refused at the first
-- element that is not well formed or is wider than a byte, for that reason, with the bytes of the
-- elements in front of it. The bytes are below 256.
pub parse_string_literal_elements :
    (text : List ℕ)
    → 2 ≤ length text
    → (r : StringLiteral) × (parse_string_literal text ≡ some r)
      × StringOutcome [] (body_of text) r
      × All IsByte r.bytes
unfolding parse_string_literal
parse_string_literal_elements text quotes =
    let (r, same, outcome) =
      string_from-StringResult (length (body_of text)) [] (body_of text) (omega arith) in
    let parsed : parse_string_literal text ≡ some r = ground (arith, same) in
    let (q, total, small) = parse_string_literal_total text in
    (
      r,
      parsed,
      outcome,
      subst (λ (x : StringLiteral). All IsByte x.bytes) (one_result total parsed) small,
    )

-- A byte that stands for itself.
pub record IsPlain (c : ℕ) : Type 0 where
  pub is_byte : c < 256
  pub no_escape : (c == backslash) ≡ false

decode_element-plain :
    (c : ℕ) (cs : List ℕ) → IsPlain c → decode_element (c ∷ cs) ≡ some (good c false cs)
unfolding decode_element
decode_element-plain c [] plain = rw (plain.no_escape) refl
decode_element-plain c (d ∷ cs) plain = rw (plain.no_escape) refl

string_from-plain :
    (fuel : ℕ) (bytes text : List ℕ)
    → length text ≤ fuel
    → All IsPlain text
    → string_from fuel bytes text ≡ some (read_string (bytes ++ text))
unfolding string_from
string_from-plain fuel bytes [] h plain =
    ap (λ (b : List ℕ). some (read_string b)) (sym (append-nil bytes))
string_from-plain zero bytes (c ∷ cs) h plain = absurd (omega arith)
string_from-plain (suc fuel) bytes (c ∷ cs) h (here, behind) =
    let narrow : ltb 0xff c ≡ false = ground (arith, here.is_byte) in
    rw (string_from, decode_element-plain c cs here, narrow)
      (string_from-plain fuel (bytes ++ (c ∷ [])) cs (omega (arith, h)) behind
        ∙ ap (λ (b : List ℕ). some (read_string b)) (append_assoc bytes (c ∷ []) cs))

take-append_all : (xs ys : List ℕ) → take (length xs) (xs ++ ys) ≡ xs
take-append_all [] ys = refl
take-append_all (x ∷ xs) ys = ap (λ (r : List ℕ). x ∷ r) (take-append_all xs ys)

abbrev quote_mark : ℕ
quote_mark = 34

abbrev pub in_quotes : List ℕ → List ℕ
in_quotes text = quote_mark ∷ (text ++ (quote_mark ∷ []))

-- A string literal between double quotes, whose text has only bytes and no backslash, reads as
-- that text.
pub parse_string_literal-in_quotes :
    (text : List ℕ)
    → All IsPlain text
    → parse_string_literal (in_quotes text) ≡ some (read_string text)
unfolding parse_string_literal
parse_string_literal-in_quotes text plain =
    let long : length (text ++ (quote_mark ∷ [])) ≡ length text + 1 =
      length-append text (quote_mark ∷ []) in
    let enough : ltb (length (in_quotes text)) 2 ≡ false = ground (arith, long) in
    let count : length (in_quotes text) - 2 ≡ length text = omega (arith, long) in
    let body : body_of (in_quotes text) ≡ text =
      ap (λ (n : ℕ). take n (text ++ (quote_mark ∷ []))) count
      ∙ take-append_all text (quote_mark ∷ []) in
    rw (enough, body) (string_from-plain (length text) [] text (omega arith) plain)
