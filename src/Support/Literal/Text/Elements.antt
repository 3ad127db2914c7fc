-- ===== src/Support/Literal/Text/Elements.antt =====
-- What the reader of character literals (src/support/consteval/literal.cc) makes of the elements of
-- a body.
use Prim.Native.Nat.{bit_or}
use mincplus.Prelude.{
  ℕ, zero, suc, ◌*◌, ◌+◌, ◌%◌, ◌^◌, ◌≤◌, ◌≡◌, refl, sym, ap, subst, ◌∙◌, Bool, true, false,
  if◌then◌else◌, Option, some, List, [], ◌∷◌, length, arith,
}
use mincplus.Support.Literal.Escape.{DecodedElement, decode_element}
use mincplus.Support.Literal.Progress.{decode_element_shorter}
use mincplus.Support.Literal.Text.{
  CharLiteral, char_from, parse_char_literal, body_of, read_char, refused_char, in_literal,
}
use mincplus.Support.Literal.Text.Total.{parse_char_literal_total}

-- A body begins with some elements that are well formed, and the rest is behind them.
abbrev pub ReadsTo : List ℕ → List DecodedElement → List ℕ → Type 0
ReadsTo body [] rest = body ≡ rest
ReadsTo body (e ∷ es) rest = (decode_element body ≡ some e) × (e.ok ≡ true) × ReadsTo e.next es rest

-- The elements that are no line continuation, and the value that they are packed into.
abbrev pub units_of : List DecodedElement → ℕ
units_of [] = 0
units_of (e ∷ es) = if e.is_continuation then units_of es else suc (units_of es)

abbrev pub pack : ℕ → List DecodedElement → ℕ
pack value [] = value
pack value (e ∷ es) =
    pack (if e.is_continuation then value else bit_or (value * 2 ^ 8 % 2 ^ 64) e.value) es

-- A literal is read to its end, or it is refused at the first element that is not well formed.
pub data CharOutcome (value units : ℕ) (body : List ℕ) (r : CharLiteral) : Type 0 where
  whole :
      (es : List DecodedElement)
      → ReadsTo body es []
      → r ≡ read_char (pack value es) (units + units_of es)
      → CharOutcome value units body r
  refused :
      (es : List DecodedElement) (rest : List ℕ) (e : DecodedElement)
      → ReadsTo body es rest
      → decode_element rest ≡ some e
      → e.ok ≡ false
      → r ≡ refused_char (units + units_of es) (in_literal e.message)
      → CharOutcome value units body r

abbrev CharResult : (value units : ℕ) → List ℕ → Option CharLiteral → Type 0
CharResult value units body o = (r : CharLiteral) × (o ≡ some r) × CharOutcome value units body r

counted :
    (b : Bool) (units n : ℕ)
    → (if b then units else units + 1) + n ≡ units + (if b then n else suc n)
counted true units n = refl
counted false units n = omega arith

-- An element in front of what was read behind it.
char_put :
    {value units : ℕ} (body : List ℕ) (e : DecodedElement) (v u : ℕ) (r : CharLiteral)
    → decode_element body ≡ some e
    → e.ok ≡ true
    → v ≡ (if e.is_continuation then value else bit_or (value * 2 ^ 8 % 2 ^ 64) e.value)
    → u ≡ (if e.is_continuation then units else units + 1)
    → CharOutcome v u e.next r
    → CharOutcome value units body r
char_put {value} {units} body e v u r found fine pv pu (whole es reads eq) =
    whole (e ∷ es) (found, fine, reads)
      (eq ∙ rw (pv, pu, counted e.is_continuation units (units_of es)) refl)
char_put {value} {units} body e v u r found fine pv pu (refused es rest f reads behind bad eq) =
    refused (e ∷ es) rest f (found, fine, reads) behind bad
      (eq ∙ rw (pu, counted e.is_continuation units (units_of es)) refl)

char_from-CharResult :
    (fuel value units : ℕ) (body : List ℕ)
    → length body ≤ fuel
    → CharResult value units body (char_from fuel value units body)
unfolding char_from
char_from-CharResult fuel value units [] h =
    (read_char value units, refl, whole [] refl (ap (read_char value) (omega arith)))
char_from-CharResult zero value units (c ∷ cs) h = absurd (omega arith)
char_from-CharResult (suc fuel) value units (c ∷ cs) h =
    let (e, found, shorter) = decode_element_shorter c cs in
    rw (char_from, found)
      (by_element e found (λ v u. char_from-CharResult fuel v u e.next (omega (arith, shorter)))
        e.ok e.is_continuation refl refl)
  where
    by_element :
        (e : DecodedElement)
        → decode_element (c ∷ cs) ≡ some e
        → ((v u : ℕ) → CharResult v u e.next (char_from fuel v u e.next))
        → (fine continues : Bool) → e.ok ≡ fine
        → e.is_continuation ≡ continues
        → CharResult value units (c ∷ cs) (elim fine [
          | false ↦ some (refused_char units (in_literal e.message))
          | true ↦ elim continues [
            | true ↦ char_from fuel value units e.next
            | false ↦ char_from fuel (bit_or (value * 2 ^ 8 % 2 ^ 64) e.value) (units + 1) e.next
          ]
        ])
    by_element e found rec false continues f k = (
      refused_char units (in_literal e.message),
      refl,
      refused [] (c ∷ cs) e refl found f
          (ap (λ (n : ℕ). refused_char n (in_literal e.message)) (omega arith)),
    )
    by_element e found rec true true f k =
        let (r, same, behind) = rec value units in
        (r, same, char_put (c ∷ cs) e value units r found f (rw k refl) (rw k refl) behind)
    by_element e found rec true false f k =
        let v = bit_or (value * 2 ^ 8 % 2 ^ 64) e.value in
        let (r, same, behind) = rec v (units + 1) in
        (r, same, char_put (c ∷ cs) e v (units + 1) r found f (rw k refl) (rw k refl) behind)

pub one_result : {A : Type 0} {a b : A} {o : Option A} → o ≡ some a → o ≡ some b → a ≡ b
one_result p q = let both = sym p ∙ q in cc

-- A character literal with both quotes is read to the end of its body, and then it has the elements
-- that are no line continuation packed into its value, and their number as its units; or it is
-- refused at the first element that is not well formed, with the units in front of it. The units
-- are at most the bytes of the body.
pub parse_char_literal_elements :
    (text : List ℕ)
    → 2 ≤ length text
    → (r : CharLiteral) × (parse_char_literal text ≡ some r)
      × CharOutcome 0 0 (body_of text) r
      × (r.units ≤ length (body_of text))
unfolding parse_char_literal
parse_char_literal_elements text quotes =
    let (r, same, outcome) =
      char_from-CharResult (length (body_of text)) 0 0 (body_of text) (omega arith) in
    let parsed : parse_char_literal text ≡ some r = ground (arith, same) in
    let (q, total, most) = parse_char_literal_total text in
    (
      r,
      parsed,
      outcome,
      subst (λ (x : CharLiteral). x.units ≤ length (body_of text)) (one_result total parsed) most,
    )
