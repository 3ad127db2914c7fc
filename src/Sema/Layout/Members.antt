-- ===== src/Sema/Layout/Members.antt =====
-- The checked layout of a tuple's members (src/sema/type_store.cc).
use Prim.Native.Nat.{max}
use mincplus.Prelude.{
  ℕ, ◌+◌, ◌-◌, ◌*◌, ◌/◌, ◌%◌, ◌^◌, ◌≤◌, ◌<◌, ◌≡◌, refl, false, ◌==◌, some, List, [], ◌∷◌, arith,
  All,
}
use mincplus.Sema.Layout.{Layout, layout_members, tuple_size_from}
use mincplus.Sema.Layout.Rounding.{round_up_bounds, round_up_exact}

abbrev pub padded : ℕ → Layout → ℕ
padded size m = (size + (m.align - 1)) / m.align * m.align

-- An alignment is a 16-bit word.
abbrev pub IsLayout : Layout → Type 0
IsLayout m = m.align < 2 ^ 16

-- What an accepted member has passed.
pub tuple_size_from-cons :
    (align size : ℕ) (m : Layout) (ms : List Layout) (n : ℕ)
    → IsLayout m
    → tuple_size_from align size (m ∷ ms) ≡ some n
    → (m.unknown_size ≡ false)
      × (1 ≤ m.align)
      × (size + (m.align - 1) < 2 ^ 64)
      × (padded size m + m.size < 2 ^ 64)
      × (tuple_size_from (max align m.align) (padded size m + m.size) ms ≡ some n)
unfolding tuple_size_from
tuple_size_from-cons align size m ms n word h = ground arith

abbrev pub end_of : ℕ → Layout → ℕ
end_of size m = padded size m + m.size

max_bounds : (a b : ℕ) → (a ≤ max a b) × (b ≤ max a b)
max_bounds a b = omega arith

-- The end of the last member.
pub layout_members-tuple_size_from :
    (align size : ℕ) (members : List Layout) (n : ℕ)
    → (1 ≤ align) × (align < 2 ^ 16)
    → All IsLayout members
    → tuple_size_from align size members ≡ some n
    → (strictest : ℕ) × (last : ℕ) × (layout_members align size members ≡ some (strictest, last))
      × (align ≤ strictest)
      × (size ≤ last)
      × (last + (strictest - 1) < 2 ^ 64)
      × (n ≡ (last + (strictest - 1)) / strictest * strictest)
unfolding tuple_size_from
layout_members-tuple_size_from align size [] n one words h =
    (align, size, refl, omega arith, omega arith, ground arith, ground arith)
layout_members-tuple_size_from align size (m ∷ ms) n one words h =
    let (known, some_align, room, fits, rest) =
      tuple_size_from-cons align size m ms n (words.0) h in
    let (strictest, last, read, al, sl, small, e) =
      layout_members-tuple_size_from (max align m.align) (end_of size m) ms n
        (omega (arith, one), omega (arith, one, words.0)) (words.1) rest in
    let rounds = round_up_bounds size m.align some_align in
    let exact = round_up_exact size m.align room in
    let wrapped : (padded size m + m.size) % 2 ^ 64 ≡ end_of size m = omega (arith, fits) in
    let aligned : (m.align == 0) ≡ false = ground arith in
    (
      strictest,
      last,
      rw (known, aligned, exact, wrapped) read,
      omega (arith, max_bounds align m.align, al),
      omega (arith, sl, rounds),
      small,
      e,
    )
