-- ===== src/Sema/Layout.antt =====
-- The size and the alignment of a type: `layoutOf`, `arraySize`, `tupleSize` and `memberOffset` of
-- src/sema/type_store.cc, with `TargetInfo` of include/sema/target.h. A child is its layout; sizes
-- are 64-bit words.
pub mod Rounding
pub mod Members
pub mod Tuple
use Prim.Native.Nat.{max}
use mincplus.Prelude.{
  ℕ, zero, suc, ◌+◌, ◌-◌, ◌*◌, ◌/◌, ◌%◌, ◌^◌, Bool, true, false, ◌||◌, not, ltb, ◌==◌,
  if◌then◌else◌, Option, none, some, List, [], ◌∷◌,
}
use mincplus.Sema.Types.{
  Ty, Tys, error, void, never, bool, char, str, int_literal, float_literal, int, float, pointer,
  array, slice, tuple, function, param, nil, cons, is_object,
}

-- Of the target, what the type store reads.
pub record TargetInfo : Type 0 where
  pub char_bits : ℕ
  pub pointer_bits : ℕ
  pub int64_align_bits : ℕ
  pub float64_align_bits : ℕ
  pub float80_align_bits : ℕ

pub record Layout : Type 0 where
  pub size : ℕ
  pub align : ℕ
  pub unknown_size : Bool

abbrev pub known_layout : ℕ → ℕ → Layout
known_layout size align = record { size = size; align = align; unknown_size = false }

-- A size rounded up to an alignment, in 64 bits.
abbrev pub round_up : ℕ → ℕ → ℕ
round_up size align = (size + (align - 1)) % 2 ^ 64 / align * align

abbrev pub int_layout : TargetInfo → ℕ → Layout
int_layout target bits =
    known_layout (bits / 8) (if bits == 64 then target.int64_align_bits / 8 else bits / 8)

abbrev pub float_align : TargetInfo → ℕ → ℕ
float_align target bits =
    if bits == 64
    then target.float64_align_bits / 8
    else if bits == 80
    then target.float80_align_bits / 8
    else bits / 8

abbrev pub float_layout : TargetInfo → ℕ → Layout
float_layout target bits =
    let align = float_align target bits in
    known_layout (if align == 0 then bits / 8 else round_up (bits / 8) align) align

abbrev pub pointer_layout : TargetInfo → Layout
pointer_layout target = known_layout (target.pointer_bits / 8) (target.pointer_bits / 8)

abbrev pub slice_layout : TargetInfo → Layout
slice_layout target = known_layout (target.pointer_bits / 8 * 2) (target.pointer_bits / 8)

abbrev pub array_layout : Layout → ℕ → Layout
array_layout element count = record {
  size = if element.unknown_size then 0 else count * element.size % 2 ^ 64;
  align = element.align;
  unknown_size = element.unknown_size;
}

-- The loop over the members, from an alignment and a size on; `none` is `unknown`.
abbrev pub layout_members : ℕ → ℕ → List Layout → Option (ℕ × ℕ)
layout_members align size [] = some (align, size)
layout_members align size (m ∷ ms) =
    let rest = layout_members (max align m.align) ((round_up size m.align + m.size) % 2 ^ 64) ms in
    if m.unknown_size || m.align == 0 then none else rest

abbrev pub tuple_layout : List Layout → Layout
tuple_layout members = elim (layout_members 1 0 members) [
  | some (align, size) ↦ known_layout (round_up size align) align
  | none ↦ record { size = 0; align = 1; unknown_size = true }
]

abbrev pub no_object : Layout
no_object = known_layout 0 0

abbrev mutual
  pub layout : TargetInfo → Ty → Layout
  layout target bool = known_layout 1 1
  layout target char = known_layout 1 1
  layout target (int s b) = int_layout target b
  layout target (float b) = float_layout target b
  layout target str = pointer_layout target
  layout target (pointer a) = pointer_layout target
  layout target (slice a) = slice_layout target
  layout target (array a n) = array_layout (layout target a) n
  layout target (tuple xs) = tuple_layout (layouts target xs)
  layout target (param u o b) = record { size = 0; align = 1; unknown_size = true }
  layout target error = no_object
  layout target void = no_object
  layout target never = no_object
  layout target (function xs r v) = no_object
  layout target int_literal = no_object
  layout target float_literal = no_object

  pub layouts : TargetInfo → Tys → List Layout
  layouts target nil = []
  layouts target (cons x xs) = layout target x ∷ layouts target xs

abbrev pub max_size : ℕ
max_size = 2 ^ 64 - 1

-- `arraySize`: `none` is `nullopt`.
unfoldable pub array_size : Bool → Layout → ℕ → Option ℕ
array_size object element count =
    if count == 0 || not object
    then none
    else if element.size == 0
    then none
    else if ltb (max_size / element.size) count
    then none
    else some (count * element.size)

-- `tupleSize`, from an alignment and a size on.
unfoldable pub tuple_size_from : ℕ → ℕ → List Layout → Option ℕ
tuple_size_from align size [] =
    if ltb (max_size - (align - 1)) size then none else some ((size + (align - 1)) / align * align)
tuple_size_from align size (m ∷ ms) =
    let padded = (size + (m.align - 1)) / m.align * m.align in
    let rest = tuple_size_from (max align m.align) (padded + m.size) ms in
    if m.unknown_size
    then none
    else if m.align == 0 || m.size == 0
    then none
    else if ltb (max_size - (m.align - 1)) size
    then none
    else if ltb (max_size - padded) m.size
    then none
    else rest

unfoldable pub tuple_size : List Layout → Option ℕ
unfolding tuple_size_from
tuple_size members = tuple_size_from 1 0 members

-- `memberOffset`, from a size on: 0 past the last member.
unfoldable pub member_offset_from : ℕ → List Layout → ℕ → ℕ
member_offset_from size [] index = 0
member_offset_from size (m ∷ ms) zero = round_up size (max m.align 1)
member_offset_from size (m ∷ ms) (suc index) =
    member_offset_from ((round_up size (max m.align 1) + m.size) % 2 ^ 64) ms index

unfoldable pub member_offset : List Layout → ℕ → ℕ
unfolding member_offset_from
member_offset members index = member_offset_from 0 members index
