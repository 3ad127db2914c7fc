-- ===== src/Support/Span.antt =====
-- `Span` of include/support/span/span.h, and src/support/span/span_ops.cc. `FileId` and the offsets
-- are 32-bit words.
pub mod Laws
use mincplus.Prelude.{
  ℕ, ◌+◌, ◌-◌, ◌^◌, Bool, true, false, ◌&&◌, ◌||◌, not, ltb, leb, ◌==◌, if◌then◌else◌,
}

abbrev pub max_offset : ℕ
max_offset = 2 ^ 32 - 1

abbrev pub invalid_file : ℕ
invalid_file = 2 ^ 32 - 1

pub record Span : Type 0 where
  pub file : ℕ
  pub begin : ℕ
  pub end : ℕ

-- `Span{}`.
abbrev pub no_span : Span
no_span = record { file = invalid_file; begin = 0; end = 0 }

unfoldable pub span_at : ℕ → ℕ → Span
span_at f offset =
    if offset == max_offset
    then record { file = f; begin = offset; end = offset }
    else record { file = f; begin = offset; end = offset + 1 }

unfoldable pub valid : Span → Bool
valid s = not (s.file == invalid_file) && leb s.begin s.end

unfoldable pub empty : Span → Bool
empty s = s.begin == s.end

unfoldable pub size : Span → ℕ
size s = if ltb s.begin s.end then s.end - s.begin else 0

unfoldable pub contains : Span → ℕ → Bool
contains s offset = leb s.begin offset && ltb offset s.end

unfoldable pub contains_closed : Span → ℕ → Bool
contains_closed s offset = leb s.begin offset && leb offset s.end

unfoldable pub merge : Span → Span → Span
unfolding valid
merge a b = if not (valid a) || (not (valid b) || not (a.file == b.file)) then no_span else record {
  file = a.file;
  begin = if ltb a.begin b.begin then a.begin else b.begin;
  end = if ltb b.end a.end then a.end else b.end;
}

-- The new value of the first argument.
unfoldable pub extend_to_cover : Span → Span → Span
unfolding valid merge
extend_to_cover span other =
    if not (valid other)
    then span
    else if not (valid span)
    then other
    else if not (span.file == other.file)
    then span
    else merge span other
