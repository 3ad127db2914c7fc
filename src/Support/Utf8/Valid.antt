-- ===== src/Support/Utf8/Valid.antt =====
-- Valid text, and the number of its code points (src/support/utf8/validate.cc, decode.cc).
use mincplus.Prelude.{
  ℕ, zero, suc, ◌+◌, ◌-◌, ◌≤◌, ◌<◌, ◌≡◌, refl, sym, ◌∙◌, Bool, true, false, arith, IsByte, All,
  Option, some, none, List, [], ◌∷◌, ◌++◌, length, subst, ap, if_both, leb, ◌↔◌,
}
use mincplus.Support.Literal.Escape.{is_scalar_value}
use mincplus.Support.Utf8.{
  Decoded, decode_one, append_utf8, count_from, count_code_points, first_invalid_from,
  first_invalid_offset, is_valid,
}
use mincplus.Support.Utf8.Code.{decode_one-append_utf8, decoded}
use mincplus.Support.Utf8.Strict.{decode_one-Starts}

abbrev pub encode_all : List ℕ → List ℕ
encode_all [] = []
encode_all (c ∷ cs) = append_utf8 c ++ encode_all cs

abbrev pub IsScalar : ℕ → Type 0
IsScalar c = is_scalar_value c ≡ true

-- A text is the encoding of some scalar values.
abbrev pub Encodes : List ℕ → Type 0
Encodes text = (cs : List ℕ) × All IsScalar cs × (text ≡ encode_all cs)

abbrev NonEmpty : List ℕ → Type 0
NonEmpty bytes = (b : ℕ) × (bs : List ℕ) × (bytes ≡ b ∷ bs)

append_utf8-NonEmpty : (c : ℕ) → NonEmpty (append_utf8 c)
unfolding append_utf8
append_utf8-NonEmpty c =
    if_both NonEmpty (leb c 0x7f) (_, _, refl)
      (if_both NonEmpty (leb c 0x7ff) (_, _, refl)
        (if_both NonEmpty (leb c 0xffff) (_, _, refl) (_, _, refl)))

less_one : (n : ℕ) → suc n - 1 ≡ n
less_one n = omega arith

-- The bytes that are jumped over are not read.
first_invalid_from-append :
    (xs ys : List ℕ) (offset : ℕ)
    → first_invalid_from (length xs) offset (xs ++ ys)
      ≡ first_invalid_from 0 (offset + length xs) ys
unfolding first_invalid_from
first_invalid_from-append [] ys offset = ap (λ n. first_invalid_from 0 n ys) (omega arith)
first_invalid_from-append (x ∷ xs) ys offset =
    first_invalid_from-append xs ys (offset + 1) ∙ ap (λ n. first_invalid_from 0 n ys) (omega arith)

count_from-append : (xs ys : List ℕ) → count_from (length xs) (xs ++ ys) ≡ count_from 0 ys
unfolding count_from
count_from-append [] ys = refl
count_from-append (x ∷ xs) ys = count_from-append xs ys

first_invalid_from-valid :
    (c : ℕ) (rest : List ℕ) (offset : ℕ)
    → IsScalar c
    → first_invalid_from 0 offset (append_utf8 c ++ rest)
      ≡ first_invalid_from 0 (offset + length (append_utf8 c)) rest
unfolding first_invalid_from
first_invalid_from-valid c rest offset scalar =
    by_bytes (append_utf8 c) (append_utf8-NonEmpty c) (decode_one-append_utf8 c rest scalar)
  where
    by_bytes :
        (bytes : List ℕ)
        → NonEmpty bytes
        → decode_one (bytes ++ rest) ≡ some (decoded c (length bytes))
        → first_invalid_from 0 offset (bytes ++ rest)
          ≡ first_invalid_from 0 (offset + length bytes) rest
    by_bytes [] (b, bs, e) h = cc
    by_bytes (b ∷ bs) e h =
        rw (h, first_invalid_from, less_one (length bs))
          (first_invalid_from-append bs rest (offset + 1)
            ∙ ap (λ n. first_invalid_from 0 n rest) (omega arith))

count_from-valid :
    (c : ℕ) (rest : List ℕ)
    → IsScalar c
    → count_from 0 (append_utf8 c ++ rest) ≡ 1 + count_from 0 rest
unfolding count_from
count_from-valid c rest scalar =
    by_bytes (append_utf8 c) (append_utf8-NonEmpty c) (decode_one-append_utf8 c rest scalar)
  where
    by_bytes :
        (bytes : List ℕ)
        → NonEmpty bytes
        → decode_one (bytes ++ rest) ≡ some (decoded c (length bytes))
        → count_from 0 (bytes ++ rest) ≡ 1 + count_from 0 rest
    by_bytes [] (b, bs, e) h = cc
    by_bytes (b ∷ bs) e h =
        rw (h, count_from, less_one (length bs)) (ap (λ n. 1 + n) (count_from-append bs rest))

encode_all_valid :
    (cs : List ℕ) (offset : ℕ)
    → All IsScalar cs
    → first_invalid_from 0 offset (encode_all cs) ≡ none
unfolding first_invalid_from
encode_all_valid [] offset scalars = refl
encode_all_valid (c ∷ cs) offset scalars =
    first_invalid_from-valid c (encode_all cs) offset (scalars.0)
    ∙ encode_all_valid cs (offset + length (append_utf8 c)) (scalars.1)

-- The encodings of some scalar values, one behind the other, have as many code points as there are
-- values.
pub count_code_points-encode_all :
    (cs : List ℕ) → All IsScalar cs → count_code_points (encode_all cs) ≡ length cs
unfolding count_from
count_code_points-encode_all [] scalars = refl
count_code_points-encode_all (c ∷ cs) scalars = omega (
  arith,
  count_from-valid c (encode_all cs) (scalars.0),
  count_code_points-encode_all cs (scalars.1),
)

All-behind : (xs ys : List ℕ) → All IsByte (xs ++ ys) → All IsByte ys
All-behind [] ys h = h
All-behind (x ∷ xs) ys h = All-behind xs ys (h.1)

length_behind : (xs ys : List ℕ) → NonEmpty xs → length ys < length (xs ++ ys)
length_behind [] ys (b, bs, e) = cc
length_behind (x ∷ xs) ys e = behind xs
  where
    behind : (xs : List ℕ) → length ys < suc (length (xs ++ ys))
    behind [] = omega arith
    behind (x ∷ xs) = omega (arith, behind xs)

valid_Encodes :
    (fuel : ℕ) (text : List ℕ) (offset : ℕ)
    → length text ≤ fuel
    → All IsByte text
    → first_invalid_from 0 offset text ≡ none
    → Encodes text
unfolding first_invalid_from
valid_Encodes fuel [] offset short bytes h = ([], tt, refl)
valid_Encodes zero (b ∷ bs) offset short bytes h = absurd (omega arith)
valid_Encodes (suc fuel) (b ∷ bs) offset short bytes h =
    by_decoded (decode_one (b ∷ bs)) refl h (valid_Encodes fuel)
  where
    by_decoded :
        (o : Option Decoded)
        → decode_one (b ∷ bs) ≡ o
        → (let r : Option ℕ = elim o [
          | some d ↦ first_invalid_from (d.length - 1) (offset + 1) bs
          | none ↦ some offset
        ] in
            r)
          ≡ none
        → ((text : List ℕ) (offset : ℕ)
            → length text ≤ fuel
            → All IsByte text
            → first_invalid_from 0 offset text ≡ none
            → Encodes text)
        → Encodes (b ∷ bs)
    by_decoded none e t rec = cc
    by_decoded (some d) e t rec =
        let (rest, split, scalar, size) = decode_one-Starts (b ∷ bs) d bytes e in
        let code = d.code_point in
        let behind : length rest < length (b ∷ bs) = omega (
          arith,
          ap (λ (t : List ℕ). length t) split,
          length_behind (append_utf8 code) rest (append_utf8-NonEmpty code),
        ) in
        let (cs, scalars, whole) =
          rec rest (offset + length (append_utf8 code)) (omega arith)
            (All-behind (append_utf8 code) rest (subst (All IsByte) split bytes))
            (sym (first_invalid_from-valid code rest offset scalar)
              ∙ ap (first_invalid_from 0 offset) (sym split)
              ∙ h) in
        (code ∷ cs, (scalar, scalars), split ∙ ap (λ r. append_utf8 code ++ r) whole)

-- A text of bytes is valid when it is the encoding of some scalar values, and only then.
pub is_valid_iff : (text : List ℕ) → All IsByte text → (is_valid text ≡ true) ↔ Encodes text
unfolding is_valid first_invalid_offset
is_valid_iff text bytes = (
  λ h.
      valid_Encodes (length text) text 0 (omega arith) bytes
        (by_offset (first_invalid_from 0 0 text) h),
  λ (cs, scalars, e). rw (e, is_valid, first_invalid_offset, encode_all_valid cs 0 scalars) refl,
)
  where
    by_offset :
        (o : Option ℕ)
        → (let v : Bool = elim o [ some n ↦ false | none ↦ true ] in v) ≡ true
        → o ≡ none
    by_offset none h = refl
    by_offset (some n) h = cc
