-- ===== src/Support/Utf8/Strict.antt =====
-- The decoder is strict: what it accepts is the encoding of a scalar value
-- (src/support/utf8/decode.cc).
use Prim.Native.Nat.{bit_and, bit_or}
use mincplus.Prelude.{
  ℕ, zero, suc, ◌+◌, ◌-◌, ◌*◌, ◌/◌, ◌%◌, ◌^◌, ◌≤◌, ◌<◌, ◌≡◌, refl, sym, ◌∙◌, Bool, true, false, not,
  ltb, ◌==◌, arith, if◌then◌else◌, IsByte, All, dec_lt, ℕ_discrete, Option, some, none, List, [],
  ◌∷◌, ◌++◌, length, subst, ap,
}
use mincplus.Prelude.Bits.{bit_or_high, bit_and_low_six}
use mincplus.Support.Literal.Escape.{is_scalar_value}
use mincplus.Support.Utf8.{Decoded, lead_shape, continue_with, in_unicode, decode_one, append_utf8}
use mincplus.Support.Utf8.Fields.{lead_shape_by_value, continuation_test}
use mincplus.Support.Utf8.Code.{
  decoded, append_utf8_one, append_utf8_two, append_utf8_three, append_utf8_four,
}

-- The low fields of so many continuation bytes make up a value.
abbrev Continues : ℕ → ℕ → List ℕ → ℕ → Type 0
Continues zero code text v = v ≡ code
Continues (suc n) code text v =
    (b : ℕ) × (rest : List ℕ) × (text ≡ (b + 0x80) ∷ rest)
    × (b < 64)
    × Continues n (b + code * 64) rest v

continue_with-Continues :
    (n code : ℕ) (text : List ℕ) (v : ℕ)
    → All IsByte text
    → continue_with n code text ≡ some v
    → Continues n code text v
continue_with-Continues zero code text v bytes h = ground (arith, h)
continue_with-Continues (suc n) code [] v bytes h = cc
continue_with-Continues (suc n) code (b ∷ rest) v bytes h =
    by_test (bit_and b 0xc0 == 0x80) (continuation_test b (bytes.0)) h
      (λ e. continue_with-Continues n (b % 64 + code * 64) rest v (bytes.1) e)
  where
    low : bit_or (bit_and b 0x3f) (code * 2 ^ 6) ≡ b % 64 + code * 64
    low = rw (bit_and_low_six b) (bit_or_high 6 (b % 64) code (omega arith))

    by_test :
        (test : Bool)
        → test ≡ (b / 64 == 2)
        → (if not test then none else continue_with n (bit_or (bit_and b 0x3f) (code * 2 ^ 6)) rest)
          ≡ some v
        → (continue_with n (b % 64 + code * 64) rest ≡ some v
            → Continues n (b % 64 + code * 64) rest v)
        → Continues (suc n) code (b ∷ rest) v
    by_test false t e rec = cc
    by_test true t e rec =
        let lead : b ≡ b % 64 + 0x80 = ground arith in
        (
          b % 64,
          rest,
          ap (λ x. x ∷ rest) lead,
          omega arith,
          rec (ap (λ x. continue_with n x rest) (sym low) ∙ e),
        )

-- What a test for a scalar value in range lets through.
in_unicode_sound :
    (minimum n code : ℕ) (d : Decoded)
    → in_unicode minimum n code ≡ some d
    → (d ≡ decoded code n) × (minimum ≤ code) × (is_scalar_value code ≡ true)
in_unicode_sound minimum n code d h = ground arith

abbrev sized : ℕ → ℕ → List ℕ → Option ℕ → Option Decoded
sized n minimum rest found =
    if ltb (suc (length rest)) n
    then none
    else elim found [ some v ↦ in_unicode minimum n v | none ↦ none ]

decode_one_shaped :
    (lead : ℕ) (rest : List ℕ) (n bits minimum : ℕ) (d : Decoded)
    → ltb lead 0x80 ≡ false
    → lead_shape lead ≡ some (n, bits, minimum)
    → decode_one (lead ∷ rest) ≡ some d
    → (v : ℕ) × (continue_with (n - 1) bits rest ≡ some v) × (in_unicode minimum n v ≡ some d)
unfolding decode_one
decode_one_shaped lead rest n bits minimum d high shape h =
    by_found (ltb (suc (length rest)) n) (continue_with (n - 1) bits rest) refl (sym read ∙ h)
  where
    read : decode_one (lead ∷ rest) ≡ sized n minimum rest (continue_with (n - 1) bits rest)
    read = rw (high, shape) refl

    by_found :
        (short : Bool) (found : Option ℕ)
        → continue_with (n - 1) bits rest ≡ found
        → (if short
            then none
            else (let r : Option Decoded = elim found [
              | some v ↦ in_unicode minimum n v
              | none ↦ none
            ] in
                r))
          ≡ some d
        → (v : ℕ) × (continue_with (n - 1) bits rest ≡ some v) × (in_unicode minimum n v ≡ some d)
    by_found true found e t = cc
    by_found false none e t = cc
    by_found false (some v) e t = (v, e, t)

-- What a decoded text starts with.
abbrev Starts : List ℕ → Decoded → Type 0
Starts text d =
    (rest : List ℕ) × (text ≡ append_utf8 d.code_point ++ rest)
    × (is_scalar_value d.code_point ≡ true)
    × (d.length ≡ length (append_utf8 d.code_point))

two-Starts :
    (a b : ℕ) (rest : List ℕ) (d : Decoded)
    → a < 32
    → b < 64
    → in_unicode 0x80 2 (b + a * 64) ≡ some d
    → Starts ((a + 0xc0) ∷ (b + 0x80) ∷ rest) d
two-Starts a b rest d ha hb h =
    let (e, low, scalar) = in_unicode_sound 0x80 2 (b + a * 64) d h in
    let written = append_utf8_two (b + a * 64) low (omega arith) in
    let high : (b + a * 64) / 64 ≡ a = omega arith in
    let last : (b + a * 64) % 64 ≡ b = omega arith in
    rw e (rest, rw (written, high, last) refl, scalar, rw written refl)

three-Starts :
    (a b c : ℕ) (rest : List ℕ) (d : Decoded)
    → a < 16
    → b < 64
    → c < 64
    → in_unicode 0x800 3 (c + (b + a * 64) * 64) ≡ some d
    → Starts ((a + 0xe0) ∷ (b + 0x80) ∷ (c + 0x80) ∷ rest) d
three-Starts a b c rest d ha hb hc h =
    let code = c + (b + a * 64) * 64 in
    let (e, low, scalar) = in_unicode_sound 0x800 3 code d h in
    let written = append_utf8_three code low (omega arith) in
    let high : code / 64 / 64 ≡ a = omega arith in
    let middle : code / 64 % 64 ≡ b = omega arith in
    let last : code % 64 ≡ c = omega arith in
    rw e (rest, rw (written, high, middle, last) refl, scalar, rw written refl)

four-Starts :
    (a b c d : ℕ) (rest : List ℕ) (r : Decoded)
    → b < 64
    → c < 64
    → d < 64
    → in_unicode 0x10000 4 (d + (c + (b + a * 64) * 64) * 64) ≡ some r
    → Starts ((a + 0xf0) ∷ (b + 0x80) ∷ (c + 0x80) ∷ (d + 0x80) ∷ rest) r
four-Starts a b c d rest r hb hc hd h =
    let code = d + (c + (b + a * 64) * 64) * 64 in
    let (e, low, scalar) = in_unicode_sound 0x10000 4 code r h in
    let written = append_utf8_four code low (ground arith) in
    let high : code / 64 / 64 / 64 ≡ a = omega arith in
    let next : code / 64 / 64 % 64 ≡ b = omega arith in
    let middle : code / 64 % 64 ≡ c = omega arith in
    let last : code % 64 ≡ d = omega arith in
    rw e (rest, rw (written, high, next, middle, last) refl, scalar, rw written refl)

cons_path : {x y : ℕ} {xs ys : List ℕ} → x ≡ y → xs ≡ ys → x ∷ xs ≡ y ∷ ys
cons_path e f = rw (e, f) refl

module _ (lead : ℕ) (rest : List ℕ) (bytes : All IsByte (lead ∷ rest)) (d : Decoded)
    (high : ltb lead 0x80 ≡ false) (h : decode_one (lead ∷ rest) ≡ some d) where
  decode_two-Starts : lead / 32 ≡ 6 → Starts (lead ∷ rest) d
  decode_two-Starts two =
      let shaped : lead_shape lead ≡ some (2, lead % 32, 0x80) =
        lead_shape_by_value lead (bytes.0) ∙ ground arith in
      let (v, run, ranged) = decode_one_shaped lead rest 2 (lead % 32) 0x80 d high shaped h in
      let (b, after, e, below, last) = continue_with-Continues 1 (lead % 32) rest v (bytes.1) run in
      let first : lead ≡ lead % 32 + 0xc0 = omega arith in
      subst (λ t. Starts t d) (sym (cons_path first e))
        (two-Starts (lead % 32) b after d (omega arith) below
          (ap (in_unicode 0x80 2) (sym last) ∙ ranged))

  decode_three-Starts : lead / 16 ≡ 14 → Starts (lead ∷ rest) d
  decode_three-Starts three =
      let shaped : lead_shape lead ≡ some (3, lead % 16, 0x800) =
        lead_shape_by_value lead (bytes.0) ∙ ground arith in
      let (v, run, ranged) = decode_one_shaped lead rest 3 (lead % 16) 0x800 d high shaped h in
      let (b, after_b, e, below_b, (c, after, f, below_c, last)) =
        continue_with-Continues 2 (lead % 16) rest v (bytes.1) run in
      let first : lead ≡ lead % 16 + 0xe0 = omega arith in
      subst (λ t. Starts t d) (sym (cons_path first (e ∙ cons_path refl f)))
        (three-Starts (lead % 16) b c after d (omega arith) below_b below_c
          (ap (in_unicode 0x800 3) (sym last) ∙ ranged))

  decode_four-Starts : lead / 8 ≡ 30 → Starts (lead ∷ rest) d
  decode_four-Starts four =
      let shaped : lead_shape lead ≡ some (4, lead % 8, 0x10000) =
        lead_shape_by_value lead (bytes.0) ∙ ground arith in
      let (v, run, ranged) = decode_one_shaped lead rest 4 (lead % 8) 0x10000 d high shaped h in
      let (b, after_b, e, below_b, (c, after_c, f, below_c, (k, after, g, below_k, last))) =
        continue_with-Continues 3 (lead % 8) rest v (bytes.1) run in
      let first : lead ≡ lead % 8 + 0xf0 = omega arith in
      subst (λ t. Starts t d) (sym (cons_path first (e ∙ cons_path refl (f ∙ cons_path refl g))))
        (four-Starts (lead % 8) b c k after d below_b below_c below_k
          (ap (in_unicode 0x10000 4) (sym last) ∙ ranged))

  no_lead : ¬ (lead / 32 ≡ 6) → ¬ (lead / 16 ≡ 14) → ¬ (lead / 8 ≡ 30) → lead_shape lead ≡ none
  no_lead two three four = lead_shape_by_value lead (bytes.0) ∙ ground arith

  decode_high-Starts : Starts (lead ∷ rest) d
  unfolding decode_one
  decode_high-Starts = elim (ℕ_discrete (lead / 32) 6) [
    | yes two ↦ decode_two-Starts two
    | no not_two ↦ elim (ℕ_discrete (lead / 16) 14) [
      | yes three ↦ decode_three-Starts three
      | no not_three ↦ elim (ℕ_discrete (lead / 8) 30) [
        | yes four ↦ decode_four-Starts four
        | no not_four ↦
            let refused : decode_one (lead ∷ rest) ≡ none =
              rw (high, no_lead not_two not_three not_four) refl in
            cc
      ]
    ]
  ]

-- What the decoder accepts at the front of a text of bytes is the encoding of a scalar value, of its
-- length.
pub decode_one-Starts :
    (text : List ℕ) (d : Decoded)
    → All IsByte text
    → decode_one text ≡ some d
    → (rest : List ℕ) × (text ≡ append_utf8 d.code_point ++ rest)
      × (is_scalar_value d.code_point ≡ true)
      × (d.length ≡ length (append_utf8 d.code_point))
unfolding decode_one
decode_one-Starts [] d bytes h = cc
decode_one-Starts (lead ∷ rest) d bytes h = elim (dec_lt lead 0x80) [
  | yes l ↦
      let read : decode_one (lead ∷ rest) ≡ some (decoded lead 1) = ground arith in
      let e : d ≡ decoded lead 1 = ground (arith, read, h) in
      rw e (rest, rw (append_utf8_one lead l) refl, ground arith, rw (append_utf8_one lead l) refl)
  | no n ↦ decode_high-Starts lead rest bytes d (ground arith) h
]
