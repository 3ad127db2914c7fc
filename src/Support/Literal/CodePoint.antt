-- ===== src/Support/Literal/CodePoint.antt =====
-- An element that is a code point names a scalar value (src/support/consteval/literal.cc).
use mincplus.Prelude.{
  ℕ, ◌≡◌, refl, Bool, true, false, ◌&&◌, ◌||◌, not, leb, ◌==◌, if◌then◌else◌, Option, none, some,
  List, [], ◌∷◌, if_both, subst,
}
use mincplus.Support.Literal.Escape.{
  DecodedElement, EscapeMessage, EscapeDigits, good, bad, read_escape_digits, no_run, in_braces,
  byte_escape, code_escape, code_point, is_scalar_value, named, continue_line, letter_escape,
  escape_sequence, decode_element, simple_escape_value, backslash, open_brace, close_brace,
  line_feed, carriage_return, byte_braces_empty, code_braces_empty, not_a_scalar_value,
  ends_in_backslash,
}

abbrev NamesScalar : DecodedElement → Type 0
NamesScalar e = e.is_code_point ≡ true → is_scalar_value e.value ≡ true

in_braces-NamesScalar :
    (m : EscapeMessage) (use_value : ℕ → List ℕ → DecodedElement)
    → ((v : ℕ) (next : List ℕ) → NamesScalar (use_value v next))
    → (r : EscapeDigits × List ℕ) → NamesScalar (in_braces m use_value r)
in_braces-NamesScalar m use_value sound (run, []) = λ h. cc
in_braces-NamesScalar m use_value sound (run, c ∷ after) =
    if_both NamesScalar (run.digits == 0 || not (c == close_brace)) (λ h. cc)
      (sound run.value after)

byte_escape-NamesScalar : (base : ℕ) (text : List ℕ) → NamesScalar (byte_escape base text)
unfolding byte_escape
byte_escape-NamesScalar base [] = λ h. cc
byte_escape-NamesScalar base (c ∷ rest) =
    let run = (read_escape_digits base 0 no_run (c ∷ rest)).0 in
    if_both NamesScalar (c == open_brace)
      (in_braces-NamesScalar byte_braces_empty (λ v. good v false) (λ v next h. cc)
        (read_escape_digits base 0 no_run rest))
      (if_both NamesScalar (run.digits == 0) (λ h. cc) (λ h. cc))

code_point-NamesScalar : (v : ℕ) (next : List ℕ) → NamesScalar (code_point v next)
code_point-NamesScalar v next = by_test (is_scalar_value v) refl
  where
    by_test :
        (test : Bool)
        → is_scalar_value v ≡ test
        → NamesScalar (if test then good v true next else bad not_a_scalar_value next)
    by_test true e h = e
    by_test false e h = cc

code_escape-NamesScalar : (unbraced : ℕ) (text : List ℕ) → NamesScalar (code_escape unbraced text)
unfolding code_escape
code_escape-NamesScalar unbraced [] = λ h. cc
code_escape-NamesScalar unbraced (c ∷ rest) =
    let (run, next) = read_escape_digits 16 unbraced no_run (c ∷ rest) in
    if_both NamesScalar (c == open_brace)
      (in_braces-NamesScalar code_braces_empty code_point code_point-NamesScalar
        (read_escape_digits 16 0 no_run rest))
      (if_both NamesScalar (run.digits == unbraced) (code_point-NamesScalar run.value next)
        (λ h. cc))

named-NamesScalar : (text : List ℕ) → NamesScalar (named text)
named-NamesScalar [] = λ h. cc
named-NamesScalar (c ∷ rest) = λ h. cc

continue_line-NamesScalar : (escape : ℕ) (text : List ℕ) → NamesScalar (continue_line escape text)
continue_line-NamesScalar escape [] = λ h. cc
continue_line-NamesScalar escape (c ∷ rest) = λ h. cc

letter_escape-NamesScalar : (escape : ℕ) (rest : List ℕ) → NamesScalar (letter_escape escape rest)
unfolding letter_escape
letter_escape-NamesScalar escape rest =
    if_both NamesScalar (escape == 63 || (escape == 39 || (escape == 34 || escape == backslash)))
      (λ h. cc)
      (if_both NamesScalar (escape == b'x') (byte_escape-NamesScalar 16 rest) (
        if_both NamesScalar (escape == b'o') (byte_escape-NamesScalar 8 rest) (
          if_both NamesScalar (escape == b'u') (code_escape-NamesScalar 4 rest) (
            if_both NamesScalar (escape == b'U') (code_escape-NamesScalar 8 rest) (
              if_both NamesScalar (escape == b'N') (named-NamesScalar rest)
                (if_both NamesScalar (leb b'0' escape && leb escape b'7') (λ h. cc) (λ h. cc)))))))

escape_sequence-NamesScalar :
    (escape : ℕ) (rest : List ℕ) → NamesScalar (escape_sequence escape rest)
unfolding escape_sequence
escape_sequence-NamesScalar escape rest =
    if_both NamesScalar (escape == line_feed || escape == carriage_return)
      (continue_line-NamesScalar escape rest) (by_value (simple_escape_value escape))
  where
    by_value :
        (o : Option ℕ)
        → NamesScalar (elim o [ some v ↦ good v false rest | none ↦ letter_escape escape rest ])
    by_value (some v) = λ h. cc
    by_value none = letter_escape-NamesScalar escape rest

NamesScalar-some :
    (found e : DecodedElement) → some found ≡ some e → NamesScalar found → NamesScalar e
NamesScalar-some found e h sound = let same : found ≡ e = cc in subst NamesScalar same sound

-- A code point that an element names is one that UTF-8 can encode.
pub decode_element_scalar :
    (body : List ℕ) (e : DecodedElement)
    → decode_element body ≡ some e
    → e.is_code_point ≡ true
    → is_scalar_value e.value ≡ true
unfolding decode_element
decode_element_scalar [] e h code = cc
decode_element_scalar (c ∷ []) e h code =
    NamesScalar-some (if not (c == backslash) then good c false [] else bad ends_in_backslash []) e
      h (if_both NamesScalar (not (c == backslash)) (λ g. cc) (λ g. cc)) code
decode_element_scalar (c ∷ escape ∷ rest) e h code =
    NamesScalar-some
      (if not (c == backslash) then good c false (escape ∷ rest) else escape_sequence escape rest) e
      h
      (if_both NamesScalar (not (c == backslash)) (λ g. cc)
        (escape_sequence-NamesScalar escape rest))
      code
