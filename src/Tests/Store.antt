-- ===== src/Tests/Store.antt =====
-- The theorems on the type store at fixed inputs.
use mincplus.Prelude.{
  ℕ, ◌+◌, ◌≤◌, ◌<◌, ◌%◌, ◌^◌, ◌≡◌, ◌↔◌, refl, true, false, some, List, [], ◌∷◌, length, arith, All,
  Option,
}
use mincplus.Support.Constraint.{integer, constant_max, constraint_grants_constant}
use mincplus.Sema.Types.{Ty, int, array, pointer, param, cons, nil, same_bool}
use mincplus.Sema.Layout.{
  TargetInfo, Layout, layout, tuple_size, tuple_size_from, tuple_layout, known_layout,
  member_offset,
}
use mincplus.Sema.Layout.Tuple.{tuple_layout-tuple_size, member_offset_disjoint}
use mincplus.Sema.Store.{Store, Shape, intern_sequence, child_layout, hash_of, nodes_of, layout_of}
use mincplus.Sema.Store.Intern.{IsValid, with_type}
use mincplus.Sema.Store.Build.{
  pointer_to, new_store, built_in_shapes, array_shape, pointer_shape, param_shape, array_of,
}
use mincplus.Sema.Store.Laws.{intern_sequence_same_iff, intern_sequence-IsValid}
use mincplus.Sema.Store.Start.{new_store-IsValid}
use mincplus.Sema.Store.Denote.{Denotes}
use mincplus.Sema.Store.Again.{serve, array_request, serve_again}
use mincplus.Sema.Store.Refine.{child_layout-layout}
use mincplus.Sema.Store.Substitute.{substitute}
use mincplus.Sema.Store.Substitute.Refine.{substitute-enough_fuel, substitute-Denotes}
use mincplus.Sema.Classes.{constraint_grants_constant_iff, satisfies, has_constant, IsWritten}

abbrev linux : TargetInfo
linux = record {
  char_bits = 8;
  pointer_bits = 64;
  int64_align_bits = 64;
  float64_align_bits = 64;
  float80_align_bits = 128;
}

abbrev base : Store
base = new_store linux 1000

-- [4]i32: the id of i32 is 9.
abbrev four : Shape
four = array_shape 9 4

base-IsValid : IsValid base
base-IsValid = (new_store-IsValid linux 1000).0

four_known : All (λ c. c < length base.types) (9 ∷ [])
unfolding new_store built_in_shapes
four_known = (omega arith, tt)

abbrev with_four : Store
with_four = (intern_sequence base four).1

with_four-IsValid : IsValid with_four
with_four-IsValid = intern_sequence-IsValid base four base-IsValid four_known

abbrev four_id : ℕ
four_id = 21

abbrev eight_id : ℕ
eight_id = 22

-- [8]i32 after [4]i32.
intern_sequence_same_iff_example : (four_id ≡ eight_id) ↔ (four ≡ array_shape 9 8)
unfolding intern_sequence new_store built_in_shapes hash_of nodes_of layout_of same_bool
intern_sequence_same_iff_example =
    intern_sequence_same_iff base four (array_shape 9 8) four_id eight_id base-IsValid four_known
      refl refl

with_four-Denotes : Denotes with_four (array (int true 32) 4) 21
unfolding intern_sequence new_store built_in_shapes hash_of nodes_of layout_of same_bool
with_four-Denotes = (9, (_, refl, refl), (_, refl, refl))

child_layout-layout_example : child_layout with_four.types 21 ≡ layout linux (array (int true 32) 4)
child_layout-layout_example =
    child_layout-layout with_four with_four-IsValid (array (int true 32) 4) 21 with_four-Denotes

-- Asking for [4]i32 once more.
serve_again_example :
    (four_id ≡ 21) × ((serve with_four (array_request (int true 32) 9 4)).1 ≡ with_four)
unfolding array_of intern_sequence new_store built_in_shapes hash_of nodes_of layout_of same_bool
serve_again_example =
    serve_again with_four (array_request (int true 32) 9 4) 21 four_id with_four-IsValid
      (_, refl, refl) with_four-Denotes refl

intern_sequence-IsValid_example : IsValid (intern_sequence with_four (pointer_shape 21)).1
unfolding intern_sequence new_store built_in_shapes hash_of nodes_of layout_of same_bool
intern_sequence-IsValid_example =
    intern_sequence-IsValid with_four (pointer_shape 21) with_four-IsValid (omega arith, tt)

new_store-IsValid_example : IsValid base × (length base.types ≡ 21)
new_store-IsValid_example = new_store-IsValid linux 1000

-- *T for the first binder of a declaration, and i32 for it.
abbrev generic : Store
generic = with_type (with_type base (param_shape 0 5 0)) (pointer_shape 21)

abbrev made : Store
made = (intern_sequence generic (pointer_shape 9)).1

abbrev fuel : ℕ
fuel = 2

substitute-enough_fuel_example :
    (r : Option ℕ × Store) × (substitute fuel (9 ∷ []) 0 5 generic 22 ≡ some r)
unfolding new_store built_in_shapes
substitute-enough_fuel_example =
    substitute-enough_fuel (cons (int true 32) nil) 0 5 (9 ∷ []) (pointer (param 0 5 0)) fuel
      generic 22 (omega arith) (9, [], refl, (_, refl, refl), refl)
      (21, (_, refl, refl), (_, refl, refl))

substitute-Denotes_example : Denotes made (pointer (int true 32)) 23
unfolding substitute intern_sequence new_store built_in_shapes hash_of nodes_of layout_of same_bool
    pointer_to
substitute-Denotes_example =
    substitute-Denotes (cons (int true 32) nil) 0 5 (9 ∷ []) (pointer (param 0 5 0)) fuel generic
      made 22 23 (omega arith) (9, [], refl, (_, refl, refl), refl)
      (21, (_, refl, refl), (_, refl, refl)) refl

-- (bool, i32, bool)
abbrev members : List Layout
members = known_layout 1 1 ∷ known_layout 4 4 ∷ known_layout 1 1 ∷ []

tuple_layout-tuple_size_example :
    let r = tuple_layout members in
    (r.size ≡ 12) × (r.unknown_size ≡ false) × (12 < 2 ^ 64) × (12 % r.align ≡ 0)
unfolding tuple_size tuple_size_from
tuple_layout-tuple_size_example =
    tuple_layout-tuple_size members 12 (omega arith, (omega arith, (omega arith, tt))) refl

member_offset_disjoint_example :
    (member_offset members 1 % 4 ≡ 0)
    × (member_offset members 2 % 1 ≡ 0)
    × (member_offset members 1 + 4 ≤ member_offset members 2)
    × (member_offset members 2 + 1 ≤ 12)
unfolding tuple_size tuple_size_from
member_offset_disjoint_example =
    member_offset_disjoint members 12 1 2 (known_layout 4 4) (known_layout 1 1)
      (omega arith, (omega arith, (omega arith, tt))) refl (omega arith) refl refl

constraint_grants_constant_iff_example :
    (constraint_grants_constant integer constant_max ≡ true)
    ↔ ((t : Ty) → IsWritten t → satisfies integer t ≡ true → has_constant t constant_max ≡ true)
constraint_grants_constant_iff_example = constraint_grants_constant_iff integer constant_max
