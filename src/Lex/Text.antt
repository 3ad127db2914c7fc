-- ===== src/Lex/Text.antt =====
-- Character and string literals of src/lex/literal_scanner.cc.
pub mod Progress
use mincplus.Prelude.{
  ℕ, zero, suc, ◌-◌, ◌+◌, Bool, true, false, not, ◌&&◌, ◌==◌, if◌then◌else◌, List, [], ◌∷◌, length,
}
use mincplus.Lex.Token.{
  TokenFlag, TokenFlags, unterminated_string, unterminated_char, empty_char_literal, set_flag,
  ends_line,
}
use mincplus.Lex.Escape.{
  EscapeScan, unit, continuation, end_of_input, EscapeResult, scan_escape, backslash,
}

-- What a loop over a literal leaves: the index, the characters and escapes that it saw, the flags,
-- and whether it came to the closing quote.
pub record BodyScan : Type 0 where
  pub rest : List ℕ
  pub units : ℕ
  pub flags : TokenFlags
  pub terminated : Bool

abbrev pub stopped : List ℕ → ℕ → TokenFlags → Bool → BodyScan
stopped rest units flags terminated = record {
  rest = rest;
  units = units;
  flags = flags;
  terminated = terminated;
}

abbrev pub is_unit : EscapeScan → Bool
is_unit unit = true
is_unit _ = false

abbrev pub is_end : EscapeScan → Bool
is_end end_of_input = true
is_end _ = false

-- The loops of `scanString` and `scanChar`, which differ in the closing quote and in what they ask of
-- an escape. An escape puts the index ahead of the list: `ahead` is the bytes to pass over.
unfoldable pub scan_body : ℕ → Bool → ℕ → ℕ → TokenFlags → List ℕ → BodyScan
scan_body close char_literal ahead units flags [] = stopped [] units flags false
scan_body close char_literal (suc ahead) units flags (c ∷ cs) =
    scan_body close char_literal ahead units flags cs
scan_body close char_literal zero units flags (c ∷ cs) = elim (c == close) [
  | true ↦ stopped cs units flags true
  | false ↦ elim (ends_line c) [
    | true ↦ stopped (c ∷ cs) units flags false
    | false ↦ elim (c == backslash) [
      | false ↦ scan_body close char_literal 0 (units + 1) flags cs
      | true ↦
          let e = scan_escape char_literal cs flags in
          elim (is_end e.scan) [
            | true ↦ stopped e.rest units e.flags false
            | false ↦
                scan_body close char_literal (length cs - length e.rest)
                  (if is_unit e.scan then units + 1 else units) e.flags cs
          ]
    ]
  ]
]

abbrev pub double_quote : ℕ
double_quote = 34

abbrev pub single_quote : ℕ
single_quote = 39

-- Both on what follows the opening quote: the index and the flags.
unfoldable pub scan_string : List ℕ → List ℕ × TokenFlags
scan_string body =
    let s = scan_body double_quote false 0 0 [] body in
    (s.rest, set_flag (not s.terminated) unterminated_string s.flags)

unfoldable pub scan_char : List ℕ → List ℕ × TokenFlags
scan_char body =
    let s = scan_body single_quote true 0 0 [] body in
    (
      s.rest,
      if not s.terminated
          then unterminated_char ∷ s.flags
          else set_flag (s.units == 0) empty_char_literal s.flags,
    )
