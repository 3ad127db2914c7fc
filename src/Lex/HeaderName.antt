-- ===== src/Lex/HeaderName.antt =====
-- The operand of an include: include/lex/header_name.h and src/lex/header_name.cc. Its bytes are
-- taken as they are, with no escapes and no comments.
use mincplus.Prelude.{
  ℕ, ◌+◌, ◌%◌, ◌^◌, Bool, true, false, ◌==◌, if◌then◌else◌, Option, none, some, List, [], ◌∷◌, ◌++◌,
  length, drop, ◌≡◌, refl, ap, sym, ◌∙◌, subst, ◌↔◌, All, ==_iff,
}
use mincplus.Lex.Token.{ends_line}

pub record HeaderName : Type 0 where
  pub offset : ℕ
  pub length : ℕ
  pub angle : Bool
  pub text : List ℕ

-- The loop: the bytes in front of the closing delimiter.
unfoldable pub scan_until : ℕ → List ℕ → Option (List ℕ)
scan_until close [] = none
scan_until close (c ∷ cs) =
    let rest = scan_until close cs in
    if ends_line c
    then none
    else if c == close
    then some []
    else elim rest [ some name ↦ some (c ∷ name) | none ↦ none ]

abbrev pub header_name : ℕ → Bool → Option (List ℕ) → Option HeaderName
header_name offset angle none = none
header_name offset angle (some name) =
    some
      (record { offset = offset; length = (length name + 2) % 2 ^ 32; angle = angle; text = name })

-- On the bytes from the offset on.
abbrev pub scan_delimited : ℕ → List ℕ → Option HeaderName
scan_delimited offset [] = none
scan_delimited offset (c ∷ rest) =
    if c == b'<'
    then header_name offset true (scan_until b'>' rest)
    else if c == 34
    then header_name offset false (scan_until 34 rest)
    else none

unfoldable pub scan_header_name : List ℕ → ℕ → Option HeaderName
scan_header_name text offset = scan_delimited offset (drop offset text)

-- A byte that may stand in a name, and where a name ends.
pub record IsInside (close c : ℕ) : Type 0 where
  pub in_line : ends_line c ≡ false
  pub open_name : (c == close) ≡ false

abbrev pub Ends : ℕ → List ℕ → List ℕ → Type 0
Ends close text name =
    (after : List ℕ) × (text ≡ name ++ (close ∷ after)) × All (IsInside close) name

scan_until-Ends :
    (close : ℕ) (text : List ℕ) {name : List ℕ}
    → scan_until close text ≡ some name
    → Ends close text name
unfolding scan_until
scan_until-Ends close [] h = absurd (cc)
scan_until-Ends close (c ∷ cs) {name} h =
    by_byte (ends_line c) (c == close) (scan_until close cs) refl refl
      (λ rest e. scan_until-Ends close cs e) h
  where
    by_byte :
        (ends closes : Bool) (found : Option (List ℕ))
        → ends_line c ≡ ends
        → (c == close) ≡ closes
        → ((rest : List ℕ) → found ≡ some rest → Ends close cs rest)
        → (if ends
            then none
            else if closes
            then some []
            else elim found [ some rest ↦ some (c ∷ rest) | none ↦ none ])
          ≡ some name
        → Ends close (c ∷ cs) name
    by_byte true closes found e f behind h' = absurd (cc)
    by_byte false true found e f behind h' =
        let is_close : c ≡ close = (==_iff c close).0 f in
        let empty : [] ≡ name = cc in
        subst (Ends close (c ∷ cs)) empty (cs, ap (λ (b : ℕ). b ∷ cs) is_close, tt)
    by_byte false false none e f behind h' = absurd (cc)
    by_byte false false (some rest) e f behind h' =
        let (after, spelled, inside) = behind rest refl in
        let more : c ∷ rest ≡ name = cc in
        subst (Ends close (c ∷ cs)) more (
          after,
          ap (λ (r : List ℕ). c ∷ r) spelled,
          (record { in_line = e; open_name = f }, inside),
        )

scan_until-name :
    (close : ℕ) (name after : List ℕ)
    → ends_line close ≡ false
    → All (IsInside close) name
    → scan_until close (name ++ (close ∷ after)) ≡ some name
unfolding scan_until
scan_until-name close [] after e inside = rw (e, (==_iff close close).1 refl) refl
scan_until-name close (c ∷ name) after e (here, inside) =
    rw (here.in_line, here.open_name, scan_until-name close name after e inside) refl

-- Behind a delimiter that is no line end, a name is found exactly when the text is the name and then
-- the delimiter, and no byte of the name is the delimiter or ends a line.
pub scan_until_iff :
    (close : ℕ) (text name : List ℕ)
    → ends_line close ≡ false
    → (scan_until close text ≡ some name) ↔ Ends close text name
scan_until_iff close text name e = (
  scan_until-Ends close text,
  λ found.
      let (after, spelled, inside) = found in
      rw spelled (scan_until-name close name after e inside),
)

abbrev opening : Bool → ℕ
opening true = b'<'
opening false = 34

abbrev closing : Bool → ℕ
closing true = b'>'
closing false = 34

-- A text spells a header name from an offset on: the delimiters, around bytes that do not close it and
-- do not end the line, and the fields count them.
abbrev pub Spells : List ℕ → ℕ → HeaderName → Type 0
Spells rest offset h =
    (behind : List ℕ) × (rest ≡ opening h.angle ∷ behind)
    × Ends (closing h.angle) behind h.text
    × (h.offset ≡ offset)
    × (h.length ≡ (length h.text + 2) % 2 ^ 32)

scan_delimited-Spells :
    (offset : ℕ) (rest : List ℕ) (h : HeaderName)
    → scan_delimited offset rest ≡ some h
    → Spells rest offset h
scan_delimited-Spells offset [] h e = absurd (cc)
scan_delimited-Spells offset (c ∷ rest) h e = by_byte (c == b'<') (c == 34) refl refl e
  where
    named :
        (angle : Bool) (o : Option (List ℕ))
        → scan_until (closing angle) rest ≡ o
        → c ≡ opening angle
        → header_name offset angle o ≡ some h
        → Spells (c ∷ rest) offset h
    named angle none found at k = absurd (cc)
    named angle (some name) found at k =
        let made : HeaderName = record {
          offset = offset;
          length = (length name + 2) % 2 ^ 32;
          angle = angle;
          text = name;
        } in
        let same : made ≡ h = cc in
        subst (Spells (c ∷ rest) offset) same (
          rest,
          ap (λ (b : ℕ). b ∷ rest) at,
          scan_until-Ends (closing angle) rest found,
          refl,
          refl,
        )

    by_byte :
        (left quote : Bool)
        → (c == b'<') ≡ left
        → (c == 34) ≡ quote
        → (if left
            then header_name offset true (scan_until b'>' rest)
            else if quote
            then header_name offset false (scan_until 34 rest)
            else none)
          ≡ some h
        → Spells (c ∷ rest) offset h
    by_byte true quote l q k = named true (scan_until b'>' rest) refl ((==_iff c b'<').0 l) k
    by_byte false true l q k = named false (scan_until 34 rest) refl ((==_iff c 34).0 q) k
    by_byte false false l q k = absurd (cc)

-- The name that the fields of a text make.
abbrev spelled_name : ℕ → Bool → List ℕ → HeaderName
spelled_name offset angle name = record {
  offset = offset;
  length = (length name + 2) % 2 ^ 32;
  angle = angle;
  text = name;
}

scan_delimited-name :
    (offset : ℕ) (angle : Bool) (behind name : List ℕ)
    → Ends (closing angle) behind name
    → scan_delimited offset (opening angle ∷ behind) ≡ some (spelled_name offset angle name)
scan_delimited-name offset true behind name (after, ends, inside) =
    let found : scan_until b'>' behind ≡ some name =
      rw ends (scan_until-name b'>' name after refl inside) in
    rw found refl
scan_delimited-name offset false behind name (after, ends, inside) =
    let found : scan_until 34 behind ≡ some name =
      rw ends (scan_until-name 34 name after refl inside) in
    rw found refl

Spells-scan_delimited :
    (offset : ℕ) (rest : List ℕ) (h : HeaderName)
    → Spells rest offset h
    → scan_delimited offset rest ≡ some h
Spells-scan_delimited offset rest h (behind, begins, ends, at, long) =
    let same : spelled_name offset h.angle h.text ≡ h = rw (sym at, sym long) refl in
    rw begins (scan_delimited-name offset h.angle behind h.text ends ∙ ap some same)

-- A header name is found at an offset exactly when the text from there on is its opening
-- delimiter, the bytes of the name, of which none closes it or ends the line, and the closing
-- delimiter, and its offset and its length, modulo 2^32, count them.
pub scan_header_name_iff :
    (text : List ℕ) (offset : ℕ) (h : HeaderName)
    → (scan_header_name text offset ≡ some h) ↔ Spells (drop offset text) offset h
unfolding scan_header_name
scan_header_name_iff text offset h = (
  scan_delimited-Spells offset (drop offset text) h,
  Spells-scan_delimited offset (drop offset text) h,
)
