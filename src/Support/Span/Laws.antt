-- ===== src/Support/Span/Laws.antt =====
-- What spans cover, and that merging is the least cover.
use mincplus.Prelude.{ℕ, ◌≤◌, ◌<◌, ◌≡◌, ◌↔◌, true, arith, ◌+◌}
use mincplus.Support.Span.{Span, valid, size, contains, contains_closed, merge, extend_to_cover}

-- A span contains exactly the `size` offsets from its begin on.
pub contains_iff :
    (s : Span) (offset : ℕ)
    → (contains s offset ≡ true) ↔ ((s.begin ≤ offset) × (offset < s.begin + size s))
unfolding contains size
contains_iff s offset = ground arith

-- The merge of two valid spans of one file is a valid span of that file, and a range includes it
-- exactly when it includes both.
pub merge_least :
    (a b c : Span)
    → valid a ≡ true
    → valid b ≡ true
    → a.file ≡ b.file
    → let m = merge a b in
      (valid m ≡ true)
      × (m.file ≡ a.file)
      × (((c.begin ≤ m.begin) × (m.end ≤ c.end))
          ↔ ((c.begin ≤ a.begin) × (a.end ≤ c.end) × (c.begin ≤ b.begin) × (b.end ≤ c.end)))
unfolding merge
merge_least a b c ha hb e = ground arith

-- Extending a valid span by any other loses no offset that it covers (the end included), and leaves
-- it valid.
pub extend_to_cover_lem :
    (s o : Span) (offset : ℕ)
    → valid s ≡ true
    → contains_closed s offset ≡ true
    → (contains_closed (extend_to_cover s o) offset ≡ true) × (valid (extend_to_cover s o) ≡ true)
unfolding extend_to_cover contains_closed
extend_to_cover_lem s o offset h k = ground arith

-- Extending a span by a valid one, of the same file where the span is valid, covers every offset of
-- that one, its end included.
pub extend_covers :
    (s o : Span) (offset : ℕ)
    → valid o ≡ true
    → ((valid s ≡ true) → s.file ≡ o.file)
    → contains_closed o offset ≡ true
    → contains_closed (extend_to_cover s o) offset ≡ true
unfolding extend_to_cover contains_closed
extend_covers s o offset h f k = ground arith
