-- ===== src/Sema/Layout/Tuple.antt =====
-- Where a tuple's members lie (src/sema/type_store.cc).
use Prim.Native.Nat.{max}
use mincplus.Prelude.{
  ℕ, zero, suc, ◌+◌, ◌%◌, ◌^◌, ◌≤◌, ◌<◌, ◌≡◌, refl, false, some, List, [], ◌∷◌, arith, sym,
  get_elem?, All,
}
use mincplus.Sema.Layout.{
  Layout, tuple_layout, tuple_size, tuple_size_from, member_offset, member_offset_from,
}
use mincplus.Sema.Layout.Rounding.{round_up_bounds, round_up_exact}
use mincplus.Sema.Layout.Members.{
  IsLayout, padded, end_of, tuple_size_from-cons, layout_members-tuple_size_from,
}

-- The size that was checked is the one that the type gets, its members' sizes being known: the
-- arithmetic on 64 bits does not wrap.
pub tuple_layout-tuple_size :
    (members : List Layout) (n : ℕ)
    → All IsLayout members
    → tuple_size members ≡ some n
    → let r = tuple_layout members in
      (r.size ≡ n) × (r.unknown_size ≡ false) × (n < 2 ^ 64) × (n % r.align ≡ 0)
unfolding tuple_size
tuple_layout-tuple_size members n words h =
    let (strictest, last, read, al, sl, small, e) =
      layout_members-tuple_size_from 1 0 members n (omega arith, omega arith) words h in
    let exact = round_up_exact last strictest small in
    let rounds = round_up_bounds last strictest al in
    rw (tuple_layout, read, e) (exact, refl, omega (arith, small, rounds), rounds.2)

-- A member lies behind the size so far, at its alignment, and ends before the tuple does.
member_offset_from_bounds :
    (align size : ℕ) (members : List Layout) (n : ℕ)
    → (1 ≤ align) × (align < 2 ^ 16)
    → All IsLayout members
    → tuple_size_from align size members ≡ some n
    → (i : ℕ) (m : Layout) → get_elem? members i ≡ some m
    → let o = member_offset_from size members i in (size ≤ o) × (o % m.align ≡ 0) × (o + m.size ≤ n)
unfolding member_offset_from
member_offset_from_bounds align size [] n one words h i m at = cc
member_offset_from_bounds align size (m ∷ ms) n one words h zero k at =
    let same : m ≡ k = cc in
    let (known, some_align, room, fits, rest) =
      tuple_size_from-cons align size m ms n (words.0) h in
    let exact = round_up_exact size m.align room in
    let rounds = round_up_bounds size m.align some_align in
    let (strictest, last, read, al, sl, small, e) =
      layout_members-tuple_size_from (max align m.align) (end_of size m) ms n
        (omega (arith, one), omega (arith, one, words.0)) (words.1) rest in
    let whole = round_up_bounds last strictest (omega (arith, al, one)) in
    let floor : max m.align 1 ≡ m.align = omega arith in
    rw (sym same, floor, exact) (rounds.0, rounds.2, omega (arith, sl, e, whole))
member_offset_from_bounds align size (m ∷ ms) n one words h (suc i) k at =
    let (known, some_align, room, fits, rest) =
      tuple_size_from-cons align size m ms n (words.0) h in
    let exact = round_up_exact size m.align room in
    let rounds = round_up_bounds size m.align some_align in
    let floor : max m.align 1 ≡ m.align = omega arith in
    let wrapped : (padded size m + m.size) % 2 ^ 64 ≡ end_of size m = omega (arith, fits) in
    let (low, aligned, inside) =
      member_offset_from_bounds (max align m.align) (end_of size m) ms n
        (omega (arith, one), omega (arith, one, words.0)) (words.1) rest i k at in
    rw (floor, exact, wrapped) (omega (arith, low, rounds), aligned, inside)

member_offset_from_order :
    (align size : ℕ) (members : List Layout) (n : ℕ)
    → (1 ≤ align) × (align < 2 ^ 16)
    → All IsLayout members
    → tuple_size_from align size members ≡ some n
    → (i j : ℕ) (a b : Layout) → i < j
    → get_elem? members i ≡ some a
    → get_elem? members j ≡ some b
    → member_offset_from size members i + a.size ≤ member_offset_from size members j
unfolding member_offset_from
member_offset_from_order align size [] n one words h i j a b l at to = cc
member_offset_from_order align size (m ∷ ms) n one words h i zero a b l at to = absurd (omega arith)
member_offset_from_order align size (m ∷ ms) n one words h zero (suc j) a b l at to =
    let same : m ≡ a = cc in
    let (known, some_align, room, fits, rest) =
      tuple_size_from-cons align size m ms n (words.0) h in
    let exact = round_up_exact size m.align room in
    let floor : max m.align 1 ≡ m.align = omega arith in
    let wrapped : (padded size m + m.size) % 2 ^ 64 ≡ end_of size m = omega (arith, fits) in
    let (low, aligned, inside) =
      member_offset_from_bounds (max align m.align) (end_of size m) ms n
        (omega (arith, one), omega (arith, one, words.0)) (words.1) rest j b to in
    rw (sym same, floor, exact, wrapped) low
member_offset_from_order align size (m ∷ ms) n one words h (suc i) (suc j) a b l at to =
    let (known, some_align, room, fits, rest) =
      tuple_size_from-cons align size m ms n (words.0) h in
    let exact = round_up_exact size m.align room in
    let floor : max m.align 1 ≡ m.align = omega arith in
    let wrapped : (padded size m + m.size) % 2 ^ 64 ≡ end_of size m = omega (arith, fits) in
    rw (floor, exact, wrapped)
      (member_offset_from_order (max align m.align) (end_of size m) ms n
        (omega (arith, one), omega (arith, one, words.0)) (words.1) rest i j a b (omega arith) at
        to)

-- Of two members of a tuple whose size was accepted, all alignments being 16-bit words, each lies at a multiple of its alignment, the
-- first ends before the second begins, and the second ends inside the tuple.
pub member_offset_disjoint :
    (members : List Layout) (n i j : ℕ) (a b : Layout)
    → All IsLayout members
    → tuple_size members ≡ some n
    → i < j
    → get_elem? members i ≡ some a
    → get_elem? members j ≡ some b
    → (member_offset members i % a.align ≡ 0)
      × (member_offset members j % b.align ≡ 0)
      × (member_offset members i + a.size ≤ member_offset members j)
      × (member_offset members j + b.size ≤ n)
unfolding tuple_size member_offset
member_offset_disjoint members n i j a b words h l at to =
    let first = member_offset_from_bounds 1 0 members n (omega arith, omega arith) words h i a at in
    let second =
      member_offset_from_bounds 1 0 members n (omega arith, omega arith) words h j b to in
    (
      first.1,
      second.1,
      member_offset_from_order 1 0 members n (omega arith, omega arith) words h i j a b l at to,
      second.2,
    )
