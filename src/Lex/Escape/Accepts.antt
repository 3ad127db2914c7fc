-- ===== src/Lex/Escape/Accepts.antt =====
-- An escape that src/lex/literal_scanner.cc does not flag is one that the reader of strings,
-- src/support/consteval/literal.cc, takes, and the two end it at one place.
use mincplus.Prelude.{
  ℕ, zero, suc, subst, ◌+◌, ◌*◌, ◌^◌, ◌≤◌, ◌<◌, ◌≡◌, refl, Bool, true, false, ◌||◌, not, ltb, leb,
  ◌==◌, if◌then◌else◌, inl, inr, ◌↔◌, Option, none, some, List, [], ◌∷◌, arith, Bool-cases,
}
use mincplus.Lex.Token.{
  TokenFlags, unknown_escape, invalid_escape_value, escape_digits, escape_too_wide, named_escape,
  is_octal_digit, ends_line, after_newline,
}
use mincplus.Lex.Escape
use mincplus.Lex.Escape.{
  EscapeResult, unit_at, EscapeDigitsRun, scan_escape_digits, no_digits, flag_wide, flag_scalar,
  is_unicode_scalar_value, scan_wanted, wanted_result, scan_escape, simple_escape, open_brace,
  close_brace, backslash,
}
use mincplus.Lex.Escape.Agree.{
  accepted, Agrees, take, refuse, if_agrees, DigitCase, hex_case, octal_case, as_read,
  read-scan_escape_digits, scalar_of_SameCode, WantedRun, read-scan_wanted,
}
use mincplus.Support.Literal.Escape as Reader
use mincplus.Support.Literal.Escape.{
  DecodedElement, EscapeMessage, EscapeDigits, read_escape_digits, decode_element, good, bad,
}

wide_agrees :
    (v : ℕ) (next : List ℕ) → Agrees (unit_at next (flag_wide false v [])) (good v false next)
wide_agrees v next = elim (Bool-cases (ltb 0xff v)) [
  | inl e ↦ rw e (refuse escape_too_wide refl (ground arith))
  | inr e ↦ rw e (take refl (ground arith) refl)
]

scalar_agrees :
    (v w : ℕ) (next : List ℕ)
    → is_unicode_scalar_value v ≡ Reader.is_scalar_value w
    → Agrees (unit_at next (flag_scalar v [])) (Reader.code_point w next)
scalar_agrees v w next same = by_value (is_unicode_scalar_value v) (Reader.is_scalar_value w) same
  where
    by_value :
        (b c : Bool)
        → b ≡ c
        → Agrees
            (unit_at next (if not b then invalid_escape_value ∷ [] else []))
            (if c then good w true next else bad Reader.not_a_scalar_value next)
    by_value true true e = take refl refl refl
    by_value false false e = refuse invalid_escape_value refl refl
    by_value true false e = absurd (cc)
    by_value false true e = absurd (cc)

in_braces_agrees :
    (test : ℕ → TokenFlags → TokenFlags) (m : EscapeMessage)
    (take_value : ℕ → List ℕ → DecodedElement) (run : EscapeDigitsRun) (rest : List ℕ)
    → ((v : ℕ) (next : List ℕ) → Agrees (unit_at next (test v [])) (take_value v next))
    → Agrees
        (Escape.in_braces test [] (run, rest))
        (Reader.in_braces m take_value (as_read run, rest))
in_braces_agrees test m take_value run [] agree = refuse escape_digits refl refl
in_braces_agrees test m take_value run (c ∷ after) agree =
    if_agrees (run.digits == 0 || not (c == close_brace)) (refuse escape_digits refl refl)
      (agree run.value after)

byte_escape_agrees :
    (base : ℕ) (rest : List ℕ)
    → ((c : ℕ) → DigitCase base c)
    → Agrees (Escape.byte_escape false base rest []) (Reader.byte_escape base rest)
unfolding Escape.byte_escape Reader.byte_escape
byte_escape_agrees base [] digit = refuse escape_digits refl refl
byte_escape_agrees base (c ∷ rest) digit =
    let inner = scan_escape_digits base 0 no_digits rest in
    let run = scan_escape_digits base 0 no_digits (c ∷ rest) in
    rw
      (
        read-scan_escape_digits base 0 no_digits rest digit,
        read-scan_escape_digits base 0 no_digits (c ∷ rest) digit,
      )
      (if_agrees (c == open_brace)
        (in_braces_agrees (flag_wide false) Reader.byte_braces_empty (λ v. good v false) inner.0
          inner.1 wide_agrees)
        (if_agrees (run.0.digits == 0) (refuse escape_digits refl refl)
          (wide_agrees run.0.value run.1)))

code_braces_agree :
    (run : EscapeDigitsRun) (rest : List ℕ)
    → Agrees
        (Escape.in_braces flag_scalar [] (run, rest))
        (Reader.in_braces Reader.code_braces_empty Reader.code_point (as_read run, rest))
code_braces_agree run rest =
    in_braces_agrees flag_scalar Reader.code_braces_empty Reader.code_point run rest
      (λ v next. scalar_agrees v v next refl)

-- `\u` and `\U` without braces, once their digits are read.
wanted_agrees :
    (want : ℕ) (r : ℕ × ℕ × List ℕ) (q : EscapeDigits × List ℕ)
    → WantedRun want r q
    → Agrees (wanted_result [] r) (
        if q.0.digits == want
        then Reader.code_point q.0.value q.1
        else bad Reader.code_digits_missing q.1)
wanted_agrees want (missing, v, next) (run, after) (ends, count, same) =
    elim (Bool-cases (missing == 0)) [
      | inl e ↦
          let all : (run.digits == want) ≡ true = ground (arith, e) in
          rw (e, all, ends) (scalar_agrees v run.value after (scalar_of_SameCode v run.value same))
      | inr e ↦
          let some_missing : (run.digits == want) ≡ false = ground (arith, e) in
          rw (e, some_missing) (refuse escape_digits refl refl)
    ]

missing_flag : (want : ℕ) → (wanted_result [] (suc want, 0, [])).flags ≡ escape_digits ∷ []
missing_flag want = ground arith

code_escape_agrees :
    (want : ℕ) (rest : List ℕ)
    → 0 < want
    → (0 + 1) * 16 ^ want ≤ 2 ^ 32
    → Agrees (Escape.code_escape want rest []) (Reader.code_escape want rest)
unfolding Escape.code_escape Reader.code_escape scan_wanted
code_escape_agrees zero [] positive fits = absurd (omega arith)
code_escape_agrees (suc want) [] positive fits = refuse escape_digits (missing_flag want) refl
code_escape_agrees want (c ∷ rest) positive fits =
    let inner = scan_escape_digits 16 0 no_digits rest in
    rw (read-scan_escape_digits 16 0 no_digits rest hex_case) (
      if_agrees (c == open_brace) (code_braces_agree inner.0 inner.1) (
        wanted_agrees want (scan_wanted want 0 (c ∷ rest))
          (read_escape_digits 16 want Reader.no_run (c ∷ rest))
          (read-scan_wanted want want 0 Reader.no_run (c ∷ rest) (omega arith) positive (inl refl)
            fits)))

octal_escape_agrees :
    (c : ℕ) (rest : List ℕ)
    → let r = scan_escape_digits 8 3 no_digits (c ∷ rest) in
      let q = read_escape_digits 8 3 Reader.no_run (c ∷ rest) in
      Agrees (unit_at r.1 (flag_wide false r.0.value [])) (good q.0.value false q.1)
octal_escape_agrees c rest =
    let r = scan_escape_digits 8 3 no_digits (c ∷ rest) in
    rw (read-scan_escape_digits 8 3 no_digits (c ∷ rest) octal_case) (wide_agrees r.0.value r.1)

named_agrees :
    (rest : List ℕ)
    → Agrees (unit_at (Escape.name_end rest) (named_escape ∷ [])) (Reader.named rest)
named_agrees [] = refuse named_escape refl refl
named_agrees (c ∷ rest) = refuse named_escape refl refl

-- `\?`, `\"`, `\'` and two backslashes, which the two test in another order.
punctuation_agrees :
    (c : ℕ) (rest : List ℕ) (s : EscapeResult) (e : DecodedElement)
    → Agrees s e
    → Agrees
        (if c == 63 || (c == 34 || (c == 39 || c == backslash)) then unit_at rest [] else s)
        (if c == 63 || (c == 39 || (c == 34 || c == backslash)) then good c false rest else e)
punctuation_agrees c rest s e agree =
    let same : (c == 63 || (c == 34 || (c == 39 || c == backslash)))
        ≡ (c == 63 || (c == 39 || (c == 34 || c == backslash))) =
      ground arith in
    elim (Bool-cases (c == 63 || (c == 39 || (c == 34 || c == backslash)))) [
      | inl is ↦ rw (same, is) (take refl (ground (arith, is)) refl)
      | inr is_not ↦ rw (same, is_not) agree
    ]

letter_escape_agrees :
    (c : ℕ) (rest : List ℕ)
    → Agrees (Escape.letter_escape false c rest []) (Reader.letter_escape c rest)
unfolding Escape.letter_escape Reader.letter_escape
letter_escape_agrees c rest = punctuation_agrees c rest _ _ (
    if_agrees (c == b'x') (byte_escape_agrees 16 rest hex_case) (
      if_agrees (c == b'o') (byte_escape_agrees 8 rest octal_case) (
        if_agrees (c == b'u') (code_escape_agrees 4 rest (omega arith) (omega arith)) (
          if_agrees (c == b'U') (code_escape_agrees 8 rest (omega arith) (omega arith)) (
            if_agrees (c == b'N') (named_agrees rest) (
              if_agrees (is_octal_digit c) (octal_escape_agrees c rest)
                (refuse unknown_escape refl refl)))))))

continued_agrees :
    (c : ℕ) (rest : List ℕ)
    → Agrees
        (record { scan = Escape.continuation; rest = after_newline c rest; flags = [] })
        (Reader.continue_line c rest)
continued_agrees c [] = take refl refl refl
continued_agrees c (d ∷ rest) = take refl refl refl

simple_value : (c v : ℕ) → simple_escape c ≡ some v → leb v 0xff ≡ true
simple_value c v h = ground arith

escape_sequence_agrees :
    (c : ℕ) (rest : List ℕ)
    → Agrees (scan_escape false (c ∷ rest) []) (Reader.escape_sequence c rest)
unfolding scan_escape Reader.escape_sequence
escape_sequence_agrees c rest =
    if_agrees (ends_line c) (continued_agrees c rest) (by_simple (simple_escape c) refl)
  where
    by_simple :
        (o : Option ℕ)
        → simple_escape c ≡ o
        → Agrees
            (elim o [ some _ ↦ unit_at rest [] | none ↦ Escape.letter_escape false c rest [] ])
            (elim o [ some v ↦ good v false rest | none ↦ Reader.letter_escape c rest ])
    by_simple none e = letter_escape_agrees c rest
    by_simple (some v) e = take refl (simple_value c v e) refl

Agrees-flags :
    (s : EscapeResult) (e : DecodedElement)
    → Agrees s e
    → ((s.flags ≡ []) ↔ (accepted e ≡ true)) × (s.flags ≡ [] → s.rest ≡ e.next)
Agrees-flags s e (take none_set yes_taken ends) = ((λ h. yes_taken, λ h. none_set), λ h. ends)
Agrees-flags s e (refuse f set_one no_taken) =
    ((λ h. absurd (cc), λ h. absurd (cc)), λ h. absurd (cc))

-- Of an escape in a string, with at least one byte behind the backslash, the lexer flags nothing
-- exactly when the reader takes it, and then both end it at one place.
pub scan_escape-decode_element :
    (c : ℕ) (rest : List ℕ) (e : DecodedElement)
    → decode_element (backslash ∷ c ∷ rest) ≡ some e
    → (((scan_escape false (c ∷ rest) []).flags ≡ []) ↔ (accepted e ≡ true))
      × ((scan_escape false (c ∷ rest) []).flags ≡ []
          → (scan_escape false (c ∷ rest) []).rest ≡ e.next)
unfolding decode_element
scan_escape-decode_element c rest e read =
    let same : Reader.escape_sequence c rest ≡ e = cc in
    Agrees-flags (scan_escape false (c ∷ rest) []) e
      (subst (Agrees (scan_escape false (c ∷ rest) [])) same (escape_sequence_agrees c rest))
