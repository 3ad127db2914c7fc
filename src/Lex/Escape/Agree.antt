-- ===== src/Lex/Escape/Agree.antt =====
-- The lexer's escapes against the reader of string literals: what src/lex/literal_scanner.cc flags is
-- what src/support/consteval/literal.cc refuses.
use native.Mathlib.Nat.{mul-le-mul, mul-le-mul_right, one-le-pow, pow-suc, mod-eq_of_lt}
use mincplus.Prelude.{
  ℕ, zero, suc, ◌+◌, ◌*◌, ◌-◌, ◌%◌, ◌^◌, ◌≤◌, ◌<◌, ◌≡◌, refl, sym, Bool, true, false, ◌&&◌, ◌||◌,
  ltb, leb, ◌==◌, if◌then◌else◌, ◌⊎◌, inl, inr, none, some, List, [], ◌∷◌, arith, Bool-cases,
}
use mincplus.Lex.Token.{TokenFlag, hex_value, is_hex_digit, is_octal_digit}
use mincplus.Lex.Escape.{
  EscapeResult, EscapeDigitsRun, is_escape_digit, escape_digit, scan_escape_digits, scan_wanted,
  is_unicode_scalar_value,
}
use mincplus.Support.Literal.{digit_of}
use mincplus.Support.Literal.Escape as Reader
use mincplus.Support.Literal.Escape.{
  DecodedElement, EscapeDigits, read_escape_digits, decode_element, good, bad,
}

-- What the reader of a string takes.
abbrev pub accepted : DecodedElement → Bool
accepted e = e.ok && (e.is_continuation || (e.is_code_point || leb e.value 0xff))

-- Both take the escape and end it at one place, or both refuse it.
pub data Agrees (s : EscapeResult) (e : DecodedElement) : Type 0 where
  take : s.flags ≡ [] → accepted e ≡ true → s.rest ≡ e.next → Agrees s e
  refuse : (f : TokenFlag) → s.flags ≡ f ∷ [] → accepted e ≡ false → Agrees s e

pub if_agrees :
    (b : Bool) {s t : EscapeResult} {d e : DecodedElement}
    → Agrees s d
    → Agrees t e
    → Agrees (if b then s else t) (if b then d else e)
if_agrees true f g = f
if_agrees false f g = g

abbrev pub digit_value : ℕ → ℕ → ℕ
digit_value base c = if base == 16 then hex_value c else c - b'0'

abbrev pub DigitCase : ℕ → ℕ → Type 0
DigitCase base c =
    ((is_escape_digit base c ≡ true) × (digit_of base c ≡ some (digit_value base c)))
    ⊎ ((is_escape_digit base c ≡ false) × (digit_of base c ≡ none))

pub hex_case : (c : ℕ) → DigitCase 16 c
unfolding hex_value
hex_case c = elim (Bool-cases (is_escape_digit 16 c)) [
  | inl e ↦ inl (e, ground (arith, e))
  | inr e ↦ inr (e, ground (arith, e))
]

pub octal_case : (c : ℕ) → DigitCase 8 c
unfolding hex_value
octal_case c = elim (Bool-cases (is_octal_digit c)) [
  | inl e ↦ inl (e, ground (arith, e))
  | inr e ↦ inr (e, ground (arith, e))
]

abbrev pub as_read : EscapeDigitsRun → EscapeDigits
as_read r = record { value = r.value; digits = r.digits }

-- Both read one run of digits.
pub read-scan_escape_digits :
    (base most : ℕ) (run : EscapeDigitsRun) (text : List ℕ)
    → ((c : ℕ) → DigitCase base c)
    → read_escape_digits base most (as_read run) text ≡ (
      as_read (scan_escape_digits base most run text).0,
      (scan_escape_digits base most run text).1,
    )
unfolding read_escape_digits scan_escape_digits
read-scan_escape_digits base most run [] digit = refl
read-scan_escape_digits base most run (c ∷ cs) digit =
    elim (Bool-cases (most == 0 || ltb run.digits most)) [
      | inl within ↦ elim (digit c) [
        | inl is ↦
            rw (read_escape_digits, scan_escape_digits, within, is.0, is.1)
              (read-scan_escape_digits base most (escape_digit base c run) cs digit)
        | inr is_not ↦ rw (read_escape_digits, scan_escape_digits, within, is_not.0, is_not.1) refl
      ]
      | inr beyond ↦ rw (read_escape_digits, scan_escape_digits, beyond) refl
    ]

-- What `scan_wanted` has read, against the run of the reader: the two values are the same, or both are
-- too large for a character.
abbrev pub SameCode : ℕ → ℕ → Type 0
SameCode v w = (v ≡ w) ⊎ ((0x110000 ≤ v) × (0x110000 ≤ w))

pub scalar_of_SameCode :
    (v w : ℕ) → SameCode v w → is_unicode_scalar_value v ≡ Reader.is_scalar_value w
scalar_of_SameCode v w (inl e) = rw e refl
scalar_of_SameCode v w (inr (l, m)) = ground arith

hex_value_small : (c : ℕ) → is_hex_digit c ≡ true → hex_value c < 16
unfolding hex_value
hex_value_small c h = ground arith

SameCode-digit :
    (v w h : ℕ)
    → h < 16
    → SameCode v w
    → v * 16 + h < 2 ^ 32
    → SameCode ((v * 16 + h) % 2 ^ 32) (if ltb w 0x110000 then w * 16 + h else w)
SameCode-digit v w h small (inl e) bound = elim (Bool-cases (ltb w 0x110000)) [
  | inl b ↦ rw b (inl (ground (arith, e)))
  | inr b ↦ rw b (inr (ground (arith, e), ground (arith, e)))
]
SameCode-digit v w h small (inr (l, m)) bound =
    let big : ltb w 0x110000 ≡ false = ground arith in rw big (inr (omega arith, m))

-- One more digit leaves room for the others.
room_from :
    (n k p : ℕ) → n ≤ k * 16 → 1 ≤ p → k * (p * 16) ≤ 2 ^ 32 → (n ≤ 2 ^ 32) × (n * p ≤ 2 ^ 32)
room_from n k p small pos bound =
    (grind (arith, mul-le-mul small pos), grind (arith, mul-le-mul_right p small))

room :
    (v h want : ℕ)
    → h < 16
    → (v + 1) * 16 ^ suc want ≤ 2 ^ 32
    → (v * 16 + h < 2 ^ 32) × (((v * 16 + h) % 2 ^ 32 + 1) * 16 ^ want ≤ 2 ^ 32)
room v h want small bound =
    let (fits, rest) =
      room_from (v * 16 + h + 1) (v + 1) (16 ^ want) (omega arith)
        (one-le-pow want 16 (omega arith)) (rw (sym (pow-suc 16 want)) bound) in
    (
      omega (arith, fits),
      rw (mod-eq_of_lt {n = v * 16 + h} {m = 2 ^ 32} (omega (arith, fits))) rest,
    )

abbrev pub WantedRun : ℕ → ℕ × ℕ × List ℕ → EscapeDigits × List ℕ → Type 0
WantedRun most (missing, v, next) (run, after) =
    (next ≡ after) × (run.digits + missing ≡ most) × SameCode v run.value

pub read-scan_wanted :
    (want most : ℕ) (v : ℕ) (run : EscapeDigits) (text : List ℕ)
    → run.digits + want ≡ most
    → 0 < most
    → SameCode v run.value
    → (v + 1) * 16 ^ want ≤ 2 ^ 32
    → WantedRun most (scan_wanted want v text) (read_escape_digits 16 most run text)
unfolding read_escape_digits scan_wanted
read-scan_wanted zero most v run [] count some_wanted same bound = (refl, count, same)
read-scan_wanted zero most v run (c ∷ cs) count some_wanted same bound =
    let at_most : (most == 0 || ltb run.digits most) ≡ false = ground arith in
    rw (read_escape_digits, at_most) (refl, count, same)
read-scan_wanted (suc want) most v run [] count some_wanted same bound = (refl, count, same)
read-scan_wanted (suc want) most v run (c ∷ cs) count some_wanted same bound =
    let below : (most == 0 || ltb run.digits most) ≡ true = ground arith in
    elim (hex_case c) [
      | inl is ↦
          let small = hex_value_small c (is.0) in
          rw (read_escape_digits, scan_wanted, below, is.0, is.1)
            (read-scan_wanted want most ((v * 16 + hex_value c) % 2 ^ 32)
              (record {
                value =
                    if ltb run.value Reader.saturated
                    then run.value * 16 + hex_value c
                    else run.value;
                digits = run.digits + 1;
              })
              cs (omega arith) some_wanted
              (SameCode-digit v run.value (hex_value c) small same
                (room v (hex_value c) want small bound).0)
              (room v (hex_value c) want small bound).1)
      | inr is_not ↦
          rw (read_escape_digits, scan_wanted, below, is_not.0, is_not.1) (refl, count, same)
    ]
