-- ===== src/Support/LineTable/Lookup.antt =====
-- The binary search of `lookup` in src/support/line/line_table.cc.
use mincplus.Prelude.{
  ℕ, zero, suc, ◌+◌, ◌-◌, ◌/◌, ◌^◌, ◌≤◌, ◌<◌, ◌≡◌, ◌⊎◌, inl, inr, false, ltb, leb, ltb→lt, leb→le,
  ◌==◌, if◌then◌else◌, List, [], ◌∷◌, length, refl, arith, Bool-cases, dec_lt,
}
use mincplus.Support.LineTable.{at, last_start, lookup, rebuild, word}
use mincplus.Support.LineTable.Rebuild.{IsAscending, IsTable, rebuild-IsTable}

-- The start that the search ends at: the one after it, where there is one, is behind the offset.
abbrev Stops : List ℕ → ℕ → ℕ → Type 0
Stops starts offset k =
    (k < length starts)
    × (at starts k ≤ offset)
    × ((k + 1 ≡ length starts) ⊎ (offset < at starts (k + 1)))

-- What the search knows of the interval from `lo` to `hi`.
abbrev Bounds : List ℕ → ℕ → ℕ → ℕ → Type 0
Bounds starts offset lo hi =
    (lo < hi)
    × (hi ≤ length starts)
    × (at starts lo ≤ offset)
    × ((hi ≡ length starts) ⊎ (offset < at starts hi))

close-Stops :
    (starts : List ℕ) (offset lo hi : ℕ)
    → Bounds starts offset lo hi
    → lo + 1 ≡ hi
    → Stops starts offset lo
close-Stops starts offset lo hi (order, inside, low, high) e =
    (omega (arith, order, inside), low, rw e high)

last_start-Stops :
    (starts : List ℕ) (offset fuel lo hi : ℕ)
    → hi ≤ lo + fuel + 1
    → Bounds starts offset lo hi
    → Stops starts offset (last_start starts offset fuel lo hi)
unfolding last_start
last_start-Stops starts offset zero lo hi near b =
    let (order, _, _, _) = b in close-Stops starts offset lo hi b (omega (arith, near, order))
last_start-Stops starts offset (suc fuel) lo hi near b =
    let (order, inside, low, high) = b in
    let mid = lo + (hi - lo) / 2 in
    elim (Bool-cases (ltb (lo + 1) hi)) [
      | inr done ↦ rw done (close-Stops starts offset lo hi b (ground (arith, done, order)))
      | inl on ↦
          let wide : lo + 1 < hi = ltb→lt (lo + 1) hi on in
          elim (Bool-cases (leb (at starts mid) offset)) [
            | inl before ↦
                let found = leb→le (at starts mid) offset before in
                let right : Bounds starts offset mid hi =
                  (omega (arith, wide), inside, found, high) in
                rw (on, before)
                  (last_start-Stops starts offset fuel mid hi (omega (arith, near, wide)) right)
            | inr behind ↦
                let past : offset < at starts mid = ground (arith, behind) in
                let left : Bounds starts offset lo mid =
                  (omega (arith, wide), omega (arith, wide, inside), low, inr past) in
                rw (on, behind)
                  (last_start-Stops starts offset fuel lo mid (omega (arith, near, wide)) left)
          ]
    ]

-- The offset that `lookup` looks for.
abbrev pub clamp : ℕ → ℕ → ℕ
clamp offset size = if ltb size offset then size else offset

module _ (top : ℕ) where
  ascending-top :
      (low : ℕ) (xs : List ℕ) → IsAscending low top xs → low ≤ top → low + length xs ≤ top
  ascending-top low [] h l = omega arith
  ascending-top low (x ∷ xs) (above, below, rest) l =
      omega (arith, above, ascending-top x xs rest below)

  ascending-above :
      (low : ℕ) (xs : List ℕ) → IsAscending low top xs → (j : ℕ) → j < length xs → low < at xs j
  ascending-above low [] h j l = absurd (omega arith)
  ascending-above low (x ∷ xs) (above, below, rest) zero l = above
  ascending-above low (x ∷ xs) (above, below, rest) (suc j) l =
      omega (arith, above, ascending-above x xs rest j (omega (arith, l)))

  ascending-at :
      (low : ℕ) (xs : List ℕ)
      → IsAscending low top xs
      → (j k : ℕ) → j < k
      → k < length xs
      → at xs j < at xs k
  ascending-at low [] h j k o l = absurd (omega arith)
  ascending-at low (x ∷ xs) h j zero o l = absurd (omega arith)
  ascending-at low (x ∷ xs) (above, below, rest) zero (suc k) o l =
      ascending-above x xs rest k (omega (arith, l))
  ascending-at low (x ∷ xs) (above, below, rest) (suc j) (suc k) o l =
      ascending-at x xs rest j k (omega (arith, o)) (omega (arith, l))

-- What a table of a text has: a first start, 0, strictly ascending starts, and no more than the bytes
-- and one.
record Facts (size : ℕ) (starts : List ℕ) : Type 0 where
  some_line : 0 < length starts
  zero_start : at starts 0 ≡ 0
  few : length starts ≤ size + 1
  sorted : (j k : ℕ) → j < k → k < length starts → at starts j < at starts k

IsTable-Facts : (size : ℕ) (starts : List ℕ) → IsTable size starts → Facts size starts
IsTable-Facts size [] h = absurd h
IsTable-Facts size (x ∷ xs) (e, rest) = record {
  some_line = omega arith;
  zero_start = e;
  few = omega (arith, ascending-top size 0 xs rest (omega arith));
  sorted = above;
}
  where
    above : (j k : ℕ) → j < k → k < suc (length xs) → at (x ∷ xs) j < at (x ∷ xs) k
    above j zero o l = absurd (omega arith)
    above zero (suc k) o l =
        let high = ascending-above size 0 xs rest k (omega (arith, l)) in omega (arith, high, e)
    above (suc j) (suc k) o l =
        ascending-at size 0 xs rest j k (omega (arith, o)) (omega (arith, l))

-- The last start at or before an offset: all before it are too, and all behind it are not.
abbrev pub IsLast : List ℕ → ℕ → ℕ → Type 0
IsLast starts offset k =
    (k < length starts)
    × ((j : ℕ) → j ≤ k → at starts j ≤ offset)
    × ((j : ℕ) → k < j → j < length starts → offset < at starts j)

Stops-IsLast :
    (size : ℕ) (starts : List ℕ) (offset k : ℕ)
    → Facts size starts
    → Stops starts offset k
    → IsLast starts offset k
Stops-IsLast size starts offset k facts (inside, before, after) = (inside, earlier, later after)
  where
    earlier : (j : ℕ) → j ≤ k → at starts j ≤ offset
    earlier j l = elim (dec_lt j k) [
      | yes less ↦ omega (arith, facts.sorted j k less inside, before)
      | no n ↦ let e : j ≡ k = omega (arith, n, l) in rw e before
    ]

    later :
        (k + 1 ≡ length starts) ⊎ (offset < at starts (k + 1))
        → (j : ℕ) → k < j
        → j < length starts
        → offset < at starts j
    later (inl e) j l h = absurd (omega (arith, e, l, h))
    later (inr next) j l h = elim (dec_lt (k + 1) j) [
      | yes less ↦ omega (arith, facts.sorted (k + 1) j less h, next)
      | no n ↦ let e : j ≡ k + 1 = omega (arith, n, l) in rw e next
    ]

-- On the table of a text, `lookup` finds the last line that starts at or before the clamped offset.
pub lookup-IsLast :
    (starts : List ℕ) (offset size : ℕ)
    → IsTable size starts
    → size + 1 < 2 ^ 32
    → let r = lookup starts offset size in
      (1 ≤ r.line)
      × IsLast starts (clamp offset size) (r.line - 1)
      × (at starts (r.line - 1) + r.col ≡ clamp offset size + 1)
unfolding lookup
lookup-IsLast starts offset size table small =
    rw (not_empty, line_back) (line_there, Stops-IsLast size starts o k facts found, col_there)
  where
    facts : Facts size starts
    facts = IsTable-Facts size starts table

    o : ℕ
    o = clamp offset size

    k : ℕ
    k = last_start starts o (length starts) 0 (length starts)

    found : Stops starts o k
    found =
        last_start-Stops starts o (length starts) 0 (length starts) (omega arith)
          (facts.some_line, omega arith, omega (arith, facts.zero_start), inl refl)

    not_empty : (length starts == 0) ≡ false
    not_empty = ground (arith, facts.some_line)

    clamped : o ≤ size
    clamped = ground arith

    start_before : at starts k ≤ o
    start_before = let (_, before, _) = found in before

    line_fits : k + 1 < 2 ^ 32
    line_fits = let (inside, _, _) = found in omega (arith, inside, facts.few, small)

    line_back : word (k + 1) - 1 ≡ k
    line_back = omega (arith, line_fits)

    line_there : 1 ≤ word (k + 1)
    line_there = omega (arith, line_fits)

    col_there : at starts k + word (o + 2 ^ 32 - at starts k + 1) ≡ o + 1
    col_there = omega (arith, start_before, clamped, small)

-- In a text of fewer than 2^32 - 1 bytes, an offset is found, clamped to the size, in the last line of
-- the rebuilt table that starts at or before it, with all earlier starts at or before it and all later
-- ones behind it, and the column counts from that start.
pub lookup-rebuild :
    (text : List ℕ) (offset : ℕ)
    → length text + 1 < 2 ^ 32
    → let r = lookup (rebuild text) offset (length text) in
      (1 ≤ r.line)
      × IsLast (rebuild text) (clamp offset (length text)) (r.line - 1)
      × (at (rebuild text) (r.line - 1) + r.col ≡ clamp offset (length text) + 1)
lookup-rebuild text offset small =
    lookup-IsLast (rebuild text) offset (length text) (rebuild-IsTable text (omega (arith, small)))
      small
