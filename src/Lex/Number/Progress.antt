-- ===== src/Lex/Number/Progress.antt =====
-- A number takes at least its first digit (src/lex/literal_scanner.cc).
use mincplus.Prelude.{
  ℕ, suc, ◌≤◌, ◌≡◌, true, false, ◌&&◌, ◌||◌, not, ◌==◌, Option, none, some, List, [], ◌∷◌, length,
  drop, length-drop, arith, elim_both, if_both, if◌then◌else◌, Bool-cases, inl, inr, ==_iff,
}
use mincplus.Lex.Token.{
  TokenFlags, set_flag, misplaced_separator, is_ascii_digit, is_digit_in_base, next_is,
}
use mincplus.Lex.Number.{
  RunState, run_start, digit_seen, separator_seen, is_separator, quote, DigitRun, scan_run_from,
  scan_digit_run, scan_exponent, NumberParts, exponent_tail, suffix_tail, scan_fraction,
  scan_number_parts, prefix_base, point_before_digit,
}
use mincplus.Support.Suffix.{suffix_length_at}

scan_run_from_shorter :
    (base : ℕ) (s : RunState) (text : List ℕ)
    → length (scan_run_from base s text).rest ≤ length text
unfolding scan_run_from
scan_run_from_shorter base s [] = omega arith
scan_run_from_shorter base s (c ∷ cs) =
    let digit = scan_run_from_shorter base (digit_seen s) cs in
    let separator = scan_run_from_shorter base (separator_seen s) cs in
    let Kept : DigitRun → Type 0 = λ r. length r.rest ≤ suc (length cs) in
    elim_both Kept (is_digit_in_base c base) (omega (arith, digit)) (
      elim_both Kept (is_separator c)
        (elim_both Kept (c == quote && not (next_is (λ d. is_digit_in_base d base) cs))
          (omega arith) (omega (arith, separator)))
        (omega arith))

scan_digit_run_shorter :
    (base : ℕ) (text : List ℕ) → length (scan_digit_run base text).rest ≤ length text
unfolding scan_digit_run
scan_digit_run_shorter base text = scan_run_from_shorter base run_start text

scan_digit_run_takes :
    (base c : ℕ) (cs : List ℕ)
    → is_digit_in_base c base ≡ true
    → length (scan_digit_run base (c ∷ cs)).rest ≤ length cs
unfolding scan_digit_run scan_run_from
scan_digit_run_takes base c cs h =
    let rec = scan_run_from_shorter base (digit_seen run_start) cs in ground arith

abbrev ExponentShorter : ℕ → Option (List ℕ × TokenFlags) → Type 0
ExponentShorter n none = Unit
ExponentShorter n (some (rest, flags)) = length rest ≤ n

scan_exponent_shorter :
    (text : List ℕ) (flags : TokenFlags) → ExponentShorter (length text) (scan_exponent text flags)
unfolding scan_exponent
scan_exponent_shorter text flags = ground (
  arith,
  scan_digit_run_shorter 10 text,
  scan_digit_run_shorter 10 (drop 1 text),
  length-drop 1 text,
)

exponent_tail_shorter :
    (base : ℕ) (parts : NumberParts) → length (exponent_tail base parts).rest ≤ length parts.rest
unfolding exponent_tail
exponent_tail_shorter base parts =
    ground (arith, scan_exponent_shorter (drop 1 parts.rest) parts.flags, length-drop 1 parts.rest)

suffix_tail_shorter : (parts : NumberParts) → length (suffix_tail parts).rest ≤ length parts.rest
unfolding suffix_tail
suffix_tail_shorter parts =
    let n = suffix_length_at parts.rest parts.is_float in
    let m = suffix_length_at (drop 1 parts.rest) parts.is_float in
    let Kept : NumberParts → Type 0 = λ p. length p.rest ≤ length parts.rest in
    if_both Kept (n == 0 && (next_is is_separator parts.rest && not (m == 0)))
      (if_both Kept (m == 0) (omega (arith, length-drop 1 parts.rest))
        (omega (arith, length-drop m (drop 1 parts.rest), length-drop 1 parts.rest)))
      (if_both Kept (n == 0) (omega arith) (omega (arith, length-drop n parts.rest)))

scan_fraction_shorter :
    (base : ℕ) (rest : List ℕ) (flags : TokenFlags)
    → length (scan_fraction base rest flags).rest ≤ length rest
unfolding scan_fraction
scan_fraction_shorter base rest flags =
    let Kept : NumberParts → Type 0 = λ p. length p.rest ≤ length rest in
    if_both Kept (base == 10 || base == 16)
      (if_both Kept (point_before_digit base rest)
        (let fraction = scan_digit_run base (drop 1 rest) in
          let parts : NumberParts = record {
            rest = fraction.rest;
            is_float = true;
            flags = set_flag fraction.misplaced misplaced_separator flags;
          } in
          omega (
            arith,
            suffix_tail_shorter (exponent_tail base parts),
            exponent_tail_shorter base parts,
            scan_digit_run_shorter base (drop 1 rest),
            length-drop 1 rest,
          ))
        (let parts : NumberParts = record { rest = rest; is_float = false; flags = flags } in
          omega (
            arith,
            suffix_tail_shorter (exponent_tail base parts),
            exponent_tail_shorter base parts,
          )))
      (omega arith)

decimal_digit : (c : ℕ) → is_ascii_digit c ≡ true → is_digit_in_base c 10 ≡ true
decimal_digit c h = ground arith

-- The prefix or the first digit is taken.
whole_shorter_from :
    (base c d : ℕ) (ds : List ℕ)
    → is_ascii_digit c ≡ true
    → length (scan_digit_run base (if base == 10 then c ∷ d ∷ ds else ds)).rest ≤ suc (length ds)
whole_shorter_from base c d ds digit = elim (Bool-cases (base == 10)) [
  | inl e ↦ rw ((==_iff base 10).0 e) (scan_digit_run_takes 10 c (d ∷ ds) (decimal_digit c digit))
  | inr e ↦ rw e (omega (arith, scan_digit_run_shorter base ds))
]

whole_shorter :
    (c : ℕ) (cs : List ℕ)
    → is_ascii_digit c ≡ true
    → length
        (let base = prefix_base (c ∷ cs) in
          scan_digit_run base (if base == 10 then c ∷ cs else drop 2 (c ∷ cs))).rest
      ≤ length cs
whole_shorter c [] digit = scan_digit_run_takes 10 c [] (decimal_digit c digit)
whole_shorter c (d ∷ ds) digit = whole_shorter_from (prefix_base (c ∷ d ∷ ds)) c d ds digit

-- A number that begins with a digit takes it.
pub scan_number_parts_shorter :
    (c : ℕ) (cs : List ℕ)
    → is_ascii_digit c ≡ true
    → length (scan_number_parts (c ∷ cs)).rest ≤ length cs
unfolding scan_number_parts
scan_number_parts_shorter c cs digit =
    let no_point : (c == b'.') ≡ false = ground arith in
    let base = prefix_base (c ∷ cs) in
    let whole = scan_digit_run base (if base == 10 then c ∷ cs else drop 2 (c ∷ cs)) in
    let flags = set_flag whole.misplaced misplaced_separator [] in
    let Kept : NumberParts → Type 0 = λ p. length p.rest ≤ length cs in
    rw no_point (
      if_both Kept (not whole.any_digit && not (base == 16 && point_before_digit 16 whole.rest))
        (whole_shorter c cs digit)
        (omega (arith, scan_fraction_shorter base whole.rest flags, whole_shorter c cs digit)))
