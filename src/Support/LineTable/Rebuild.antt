-- ===== src/Support/LineTable/Rebuild.antt =====
-- The table that `rebuild` of src/support/line/line_table.cc makes.
use mincplus.Prelude.{
  ℕ, ◌+◌, ◌^◌, ◌≤◌, ◌<◌, ◌≡◌, ◌||◌, ◌==◌, List, [], ◌∷◌, length, refl, arith, if_both,
}
use mincplus.Support.LineTable.{starts_from, rebuild, word, line_feed, carriage_return}

-- Strictly ascending numbers above `low`, up to `top`.
abbrev pub IsAscending : ℕ → ℕ → List ℕ → Type 0
IsAscending low top [] = Unit
IsAscending low top (x ∷ xs) = (low < x) × (x ≤ top) × IsAscending x top xs

lower : (k l top : ℕ) (xs : List ℕ) → k ≤ l → IsAscending l top xs → IsAscending k top xs
lower k l top [] h a = tt
lower k l top (x ∷ xs) h a = let (above, below, rest) = a in (omega (arith, above, h), below, rest)

-- A start is pushed, and the rest of the text gives the ones behind it.
push :
    (i j top : ℕ) (xs : List ℕ)
    → i < j
    → j ≤ top
    → top < 2 ^ 32
    → IsAscending j top xs
    → IsAscending i top (word j ∷ xs)
push i j top xs h k l a = let e : word j ≡ j = omega (arith, k, l) in rw e (h, k, a)

starts_from-IsAscending :
    (i top : ℕ) (text : List ℕ)
    → i + length text ≡ top
    → top < 2 ^ 32
    → IsAscending i top (starts_from i text)
starts_from-IsAscending i top [] e l = tt
starts_from-IsAscending i top (c ∷ []) e l =
    if_both (IsAscending i top) (c == line_feed || c == carriage_return)
      (push i (i + 1) top [] (omega arith) (omega (arith, e)) l tt) tt
starts_from-IsAscending i top (c ∷ d ∷ rest) e l =
    let one = starts_from-IsAscending (i + 1) top (d ∷ rest) (omega (arith, e)) l in
    let two = starts_from-IsAscending (i + 2) top rest (omega (arith, e)) l in
    let after_one = push i (i + 1) top _ (omega arith) (omega (arith, e)) l one in
    let after_two = push i (i + 2) top _ (omega arith) (omega (arith, e)) l two in
    if_both (IsAscending i top) (c == line_feed) after_one (
      if_both (IsAscending i top) (c == carriage_return)
        (if_both (IsAscending i top) (d == line_feed) after_two after_one)
        (lower i (i + 1) top _ (omega arith) one))

-- What a table of a text of `size` bytes is: 0, then strictly ascending offsets up to the size.
abbrev pub IsTable : ℕ → List ℕ → Type 0
IsTable size [] = ⊥
IsTable size (x ∷ xs) = (x ≡ 0) × IsAscending 0 size xs

-- `rebuild` of a text of fewer than 2 ^ 32 bytes gives 0 and then strictly ascending offsets, none
-- behind the end of the text.
pub rebuild-IsTable : (text : List ℕ) → length text < 2 ^ 32 → IsTable (length text) (rebuild text)
unfolding rebuild
rebuild-IsTable text h = (refl, starts_from-IsAscending 0 (length text) text (omega arith) h)
