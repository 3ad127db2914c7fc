-- ===== src/Lex/Text/Progress.antt =====
-- The loops over the body of a literal end inside the text (src/lex/literal_scanner.cc).
use mincplus.Prelude.{
  ℕ, zero, suc, ◌+◌, ◌-◌, ◌≤◌, Bool, true, false, ◌==◌, if◌then◌else◌, List, [], ◌∷◌, length, arith,
  elim_both,
}
use mincplus.Lex.Token.{TokenFlags, ends_line}
use mincplus.Lex.Escape.{scan_escape, backslash}
use mincplus.Lex.Escape.Progress.{scan_escape_shorter}
use mincplus.Lex.Text.{
  BodyScan, is_unit, is_end, scan_body, scan_string, scan_char, double_quote, single_quote,
}

scan_body_shorter :
    (close : ℕ) (char_literal : Bool) (ahead units : ℕ) (flags : TokenFlags) (text : List ℕ)
    → length (scan_body close char_literal ahead units flags text).rest ≤ length text
unfolding scan_body
scan_body_shorter close char_literal ahead units flags [] = omega arith
scan_body_shorter close char_literal (suc ahead) units flags (c ∷ cs) =
    omega (arith, scan_body_shorter close char_literal ahead units flags cs)
scan_body_shorter close char_literal zero units flags (c ∷ cs) =
    let e = scan_escape char_literal cs flags in
    let plain = scan_body_shorter close char_literal 0 (units + 1) flags cs in
    let escaped =
      scan_body_shorter close char_literal (length cs - length e.rest)
        (if is_unit e.scan then units + 1 else units) e.flags cs in
    let escape = scan_escape_shorter char_literal cs flags in
    let Kept : BodyScan → Type 0 = λ s. length s.rest ≤ suc (length cs) in
    elim_both Kept (c == close) (omega arith) (
      elim_both Kept (ends_line c) (omega arith) (
        elim_both Kept (c == backslash)
          (elim_both Kept (is_end e.scan) (omega (arith, escape)) (omega (arith, escaped)))
          (omega (arith, plain))))

pub scan_string_shorter : (body : List ℕ) → length (scan_string body).0 ≤ length body
unfolding scan_string
scan_string_shorter body = scan_body_shorter double_quote false 0 0 [] body

pub scan_char_shorter : (body : List ℕ) → length (scan_char body).0 ≤ length body
unfolding scan_char
scan_char_shorter body = scan_body_shorter single_quote true 0 0 [] body
