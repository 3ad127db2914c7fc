-- ===== src/Support/Literal/Progress.antt =====
-- Every element of a literal's body takes at least one byte (src/support/consteval/literal.cc).
use mincplus.Prelude.{
  ℕ, suc, ◌+◌, ◌*◌, ◌≤◌, ◌≡◌, refl, Bool, true, false, ◌&&◌, ◌||◌, not, ltb, leb, ◌==◌,
  if◌then◌else◌, Option, none, some, List, [], ◌∷◌, length, arith, if_both,
}
use mincplus.Support.Literal.{digit_of}
use mincplus.Support.Literal.Escape.{
  DecodedElement, EscapeMessage, EscapeDigits, good, bad, read_escape_digits, no_run, in_braces,
  byte_escape, code_escape, code_point, is_scalar_value, skip_name, named, continue_line,
  letter_escape, escape_sequence, decode_element, simple_escape_value, saturated, backslash,
  open_brace, close_brace, line_feed, carriage_return, byte_braces_empty, code_braces_empty,
  ends_in_backslash,
}

read_escape_digits_shorter :
    (base most : ℕ) (run : EscapeDigits) (text : List ℕ)
    → length (read_escape_digits base most run text).1 ≤ length text
unfolding read_escape_digits
read_escape_digits_shorter base most run [] = omega arith
read_escape_digits_shorter base most run (c ∷ cs) =
    by_limit (most == 0 || ltb run.digits most)
      (λ d. read_escape_digits_shorter base most (step d) cs)
  where
    step : ℕ → EscapeDigits
    step d = record {
      value = if ltb run.value saturated then run.value * base + d else run.value;
      digits = run.digits + 1;
    }

    by_digit :
        (o : Option ℕ)
        → ((d : ℕ) → length (read_escape_digits base most (step d) cs).1 ≤ length cs)
        → length (
            let r : EscapeDigits × List ℕ = elim o [
              | some d ↦ read_escape_digits base most (step d) cs
              | none ↦ (run, c ∷ cs)
            ] in
            r.1)
          ≤ length (c ∷ cs)
    by_digit none rec = omega arith
    by_digit (some d) rec = let h = rec d in omega (arith, h)

    by_limit :
        (b : Bool)
        → ((d : ℕ) → length (read_escape_digits base most (step d) cs).1 ≤ length cs)
        → length (
            let r : EscapeDigits × List ℕ = elim b [
              | true ↦ elim (digit_of base c) [
                | some d ↦ read_escape_digits base most (step d) cs
                | none ↦ (run, c ∷ cs)
              ]
              | false ↦ (run, c ∷ cs)
            ] in
            r.1)
          ≤ length (c ∷ cs)
    by_limit true rec = by_digit (digit_of base c) rec
    by_limit false rec = omega arith

-- What an escape leaves is at most what it was given.
abbrev Within : List ℕ → DecodedElement → Type 0
Within text e = length e.next ≤ length text

in_braces-Within :
    (m : EscapeMessage) (use_value : ℕ → List ℕ → DecodedElement)
    → ((v : ℕ) (next : List ℕ) → (use_value v next).next ≡ next)
    → (r : EscapeDigits × List ℕ) (text : List ℕ) → length r.1 ≤ length text
    → Within text (in_braces m use_value r)
in_braces-Within m use_value kept (run, []) text h = h
in_braces-Within m use_value kept (run, c ∷ after) text h =
    if_both (λ e. Within text e) (run.digits == 0 || not (c == close_brace)) h
      (rw (kept run.value after) (omega arith))

good_next : (v : ℕ) (next : List ℕ) → (good v false next).next ≡ next
good_next v next = refl

code_point_next : (v : ℕ) (next : List ℕ) → (code_point v next).next ≡ next
code_point_next v next =
    if_both (λ (e : DecodedElement). e.next ≡ next) (is_scalar_value v) refl refl

byte_escape-Within : (base : ℕ) (text : List ℕ) → Within text (byte_escape base text)
unfolding byte_escape
byte_escape-Within base [] = omega arith
byte_escape-Within base (c ∷ rest) =
    let braced = read_escape_digits_shorter base 0 no_run rest in
    let plain = read_escape_digits_shorter base 0 no_run (c ∷ rest) in
    let run = (read_escape_digits base 0 no_run (c ∷ rest)).0 in
    if_both (λ e. Within (c ∷ rest) e) (c == open_brace)
      (in_braces-Within byte_braces_empty (λ v. good v false) good_next
        (read_escape_digits base 0 no_run rest) (c ∷ rest) (omega arith))
      (if_both (λ e. Within (c ∷ rest) e) (run.digits == 0) plain plain)

code_escape-Within : (unbraced : ℕ) (text : List ℕ) → Within text (code_escape unbraced text)
unfolding code_escape
code_escape-Within unbraced [] = omega arith
code_escape-Within unbraced (c ∷ rest) =
    let braced = read_escape_digits_shorter 16 0 no_run rest in
    let plain = read_escape_digits_shorter 16 unbraced no_run (c ∷ rest) in
    let (run, next) = read_escape_digits 16 unbraced no_run (c ∷ rest) in
    if_both (λ e. Within (c ∷ rest) e) (c == open_brace)
      (in_braces-Within code_braces_empty code_point code_point_next
        (read_escape_digits 16 0 no_run rest) (c ∷ rest) (omega arith))
      (if_both (λ e. Within (c ∷ rest) e) (run.digits == unbraced)
        (rw (code_point_next run.value next) plain) plain)

skip_name_shorter : (text : List ℕ) → length (skip_name text) ≤ length text
skip_name_shorter [] = omega arith
skip_name_shorter (c ∷ cs) =
    let rec = skip_name_shorter cs in
    if_both (λ (t : List ℕ). length t ≤ length (c ∷ cs)) (c == close_brace) (omega arith)
      (if_both (λ (t : List ℕ). length t ≤ length (c ∷ cs)) (c == line_feed || c == carriage_return)
        (omega arith) (omega (arith, rec)))

named-Within : (text : List ℕ) → Within text (named text)
named-Within [] = omega arith
named-Within (c ∷ rest) =
    let skipped = skip_name_shorter rest in
    if_both (λ (t : List ℕ). length t ≤ length (c ∷ rest)) (c == open_brace)
      (omega (arith, skipped)) (omega arith)

continue_line-Within : (escape : ℕ) (text : List ℕ) → Within text (continue_line escape text)
continue_line-Within escape [] = omega arith
continue_line-Within escape (c ∷ rest) =
    if_both (λ (t : List ℕ). length t ≤ length (c ∷ rest))
      (escape == carriage_return && c == line_feed) (omega arith) (omega arith)

letter_escape-WithinLetter :
    (escape : ℕ) (rest : List ℕ) → length (letter_escape escape rest).next ≤ suc (length rest)
unfolding letter_escape
letter_escape-WithinLetter escape rest =
    let bytes16 = byte_escape-Within 16 rest in
    let bytes8 = byte_escape-Within 8 rest in
    let code4 = code_escape-Within 4 rest in
    let code8 = code_escape-Within 8 rest in
    let name = named-Within rest in
    let octal = read_escape_digits_shorter 8 3 no_run (escape ∷ rest) in
    let Kept : DecodedElement → Type 0 = λ e. length e.next ≤ suc (length rest) in
    if_both Kept (escape == 63 || (escape == 39 || (escape == 34 || escape == backslash)))
      (omega arith)
      (if_both Kept (escape == b'x') (omega (arith, bytes16)) (
        if_both Kept (escape == b'o') (omega (arith, bytes8)) (
          if_both Kept (escape == b'u') (omega (arith, code4)) (
            if_both Kept (escape == b'U') (omega (arith, code8)) (
              if_both Kept (escape == b'N') (omega (arith, name))
                (if_both Kept (leb b'0' escape && leb escape b'7') octal (omega arith)))))))

escape_sequence-WithinLetter :
    (escape : ℕ) (rest : List ℕ) → length (escape_sequence escape rest).next ≤ suc (length rest)
unfolding escape_sequence
escape_sequence-WithinLetter escape rest =
    let line = continue_line-Within escape rest in
    if_both (λ (e : DecodedElement). length e.next ≤ suc (length rest))
      (escape == line_feed || escape == carriage_return) (omega (arith, line))
      (by_value (simple_escape_value escape))
  where
    by_value :
        (o : Option ℕ)
        → length (
            let e : DecodedElement = elim o [
              | some v ↦ good v false rest
              | none ↦ letter_escape escape rest
            ] in
            e.next)
          ≤ suc (length rest)
    by_value (some v) = omega arith
    by_value none = letter_escape-WithinLetter escape rest

-- A body that is not empty has an element, and what is behind it is shorter.
pub decode_element_shorter :
    (c : ℕ) (cs : List ℕ)
    → (e : DecodedElement) × (decode_element (c ∷ cs) ≡ some e) × length e.next ≤ length cs
unfolding decode_element
decode_element_shorter c [] = (
  if not (c == backslash) then good c false [] else bad ends_in_backslash [],
  refl,
  if_both (λ (e : DecodedElement). length e.next ≤ 0) (not (c == backslash)) (omega arith)
      (omega arith),
)
decode_element_shorter c (escape ∷ rest) = (
  if not (c == backslash) then good c false (escape ∷ rest) else escape_sequence escape rest,
  refl,
  if_both (λ (e : DecodedElement). length e.next ≤ suc (length rest)) (not (c == backslash))
      (omega arith) (escape_sequence-WithinLetter escape rest),
)
