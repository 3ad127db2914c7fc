-- ===== src/Support/LineTable.antt =====
-- `LineTable` of include/support/line/line_table.h and src/support/line/line_table.cc: the offset at
-- which each line begins. A text is its bytes; offsets, lines and columns are 32-bit words.
pub mod Lookup
pub mod Rebuild
use mincplus.Prelude.{
  ℕ, zero, suc, ◌+◌, ◌-◌, ◌/◌, ◌%◌, ◌^◌, Bool, true, false, ◌&&◌, ◌||◌, ltb, leb, ◌==◌,
  if◌then◌else◌, Option, none, some, List, [], ◌∷◌, length,
}

pub record LineCol : Type 0 where
  pub line : ℕ
  pub col : ℕ

pub record ByteRange : Type 0 where
  pub begin : ℕ
  pub end : ℕ

-- An element, by its index; every index that the code reads is in range.
abbrev pub at : List ℕ → ℕ → ℕ
at [] k = 0
at (x ∷ xs) zero = x
at (x ∷ xs) (suc k) = at xs k

abbrev pub word : ℕ → ℕ
word n = n % 2 ^ 32

abbrev pub line_feed : ℕ
line_feed = 10

abbrev pub carriage_return : ℕ
carriage_return = 13

-- The starts that the loop pushes from offset `i` on, where the bytes are the rest of the text.
abbrev pub starts_from : ℕ → List ℕ → List ℕ
starts_from i [] = []
starts_from i (c ∷ []) = if c == line_feed || c == carriage_return then word (i + 1) ∷ [] else []
starts_from i (c ∷ d ∷ rest) =
    let one = starts_from (i + 1) (d ∷ rest) in
    let two = starts_from (i + 2) rest in
    if c == line_feed
    then word (i + 1) ∷ one
    else if c == carriage_return
    then (if d == line_feed then word (i + 2) ∷ two else word (i + 1) ∷ one)
    else one

unfoldable pub rebuild : List ℕ → List ℕ
rebuild text = 0 ∷ starts_from 0 text

-- The binary search of `lookup`, with fuel for the distance from `lo` to `hi`.
unfoldable pub last_start : List ℕ → ℕ → ℕ → ℕ → ℕ → ℕ
last_start starts offset zero lo hi = lo
last_start starts offset (suc fuel) lo hi =
    let mid = lo + (hi - lo) / 2 in
    let right = last_start starts offset fuel mid hi in
    let left = last_start starts offset fuel lo mid in
    if ltb (lo + 1) hi then (if leb (at starts mid) offset then right else left) else lo

unfoldable pub lookup : List ℕ → ℕ → ℕ → LineCol
unfolding last_start
lookup starts offset text_size =
    if length starts == 0
    then record { line = 1; col = 1 }
    else let clamped = if ltb text_size offset then text_size else offset in
      let lo = last_start starts clamped (length starts) 0 (length starts) in
      record { line = word (lo + 1); col = word (clamped + 2 ^ 32 - at starts lo + 1) }

-- The end of a line without the one byte, where it is there.
abbrev pub trim : List ℕ → ℕ → ℕ → ℕ → ℕ
trim text byte begin end = if ltb begin end && at text (end - 1) == byte then end - 1 else end

unfoldable pub line_range : List ℕ → List ℕ → ℕ → Option ByteRange
line_range starts text line =
    if line == 0 || ltb (length starts) line
    then none
    else let begin = at starts (line - 1) in
      some (record {
        begin = begin;
        end =
            if ltb line (length starts)
            then trim text carriage_return begin (trim text line_feed begin (at starts line))
            else length text;
      })

-- `substr`, within the text.
abbrev pub substr : List ℕ → ℕ → ℕ → List ℕ
substr text zero zero = []
substr [] begin count = []
substr (c ∷ rest) zero (suc count) = c ∷ substr rest zero count
substr (c ∷ rest) (suc begin) count = substr rest begin count

unfoldable pub line_text : List ℕ → List ℕ → ℕ → Option (List ℕ)
unfolding line_range
line_text starts text line = elim (line_range starts text line) [
  | none ↦ none
  | some range ↦ some (substr text range.begin (range.end - range.begin))
]
