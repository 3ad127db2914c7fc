-- ===== src/Sema/Store/Build.antt =====
-- The types that a caller asks the store for: the constructor of `TypeStore` and its operations
-- from `signedInt` to `tupleOf` (src/sema/type_store.cc). The spelling and the class of a type
-- parameter are not part of its identity and are left out.
use mincplus.Prelude.{
  ℕ, Bool, true, false, ◌&&◌, ◌||◌, not, ltb, if◌then◌else◌, Option, none, some, List, [], ◌∷◌,
  length, map, get_elem?,
}
use mincplus.Sema.Layout.{TargetInfo, Layout, array_size, tuple_size}
use mincplus.Sema.Store.{
  TypeKind, Shape, Store, plain, child_layout, max_type_nodes, add_nodes, intern_sequence,
  bool_kind, char_kind, int_kind, float_kind, str_kind, function_kind, pointer_kind, array_kind,
  slice_kind, tuple_kind, param_kind, int_literal_kind, float_literal_kind, error_kind, void_kind,
  never_kind,
}
use mincplus.Sema.Store.Intern.{with_type}

abbrev pub int_shape : Bool → ℕ → Shape
int_shape signed bits = record (plain int_kind) { is_signed = signed; bits = bits }

abbrev pub float_shape : ℕ → Shape
float_shape bits = record (plain float_kind) { bits = bits }

abbrev pub char_shape : TargetInfo → Shape
char_shape target = record (plain char_kind) { bits = target.char_bits }

abbrev pub pointer_shape : ℕ → Shape
pointer_shape pointee = record (plain pointer_kind) { pointee = pointee }

abbrev pub array_shape : ℕ → ℕ → Shape
array_shape element count = record (plain array_kind) { pointee = element; count = count }

abbrev pub slice_shape : ℕ → Shape
slice_shape element = record (plain slice_kind) { pointee = element }

abbrev pub tuple_shape : List ℕ → Shape
tuple_shape members = record (plain tuple_kind) { parts = members }

abbrev pub function_shape : List ℕ → ℕ → Bool → Shape
function_shape params returns variadic = record (plain function_kind) {
  parts = params;
  return_type = returns;
  variadic = variadic;
}

abbrev pub param_shape : ℕ → ℕ → ℕ → Shape
param_shape unit owner binder = record (plain param_kind) {
  unit = unit;
  owner = owner;
  binder = binder;
}

-- The types of the constructor, in the order of their ids.
unfoldable pub built_in_shapes : TargetInfo → List Shape
built_in_shapes target =
    plain error_kind
    ∷ plain void_kind
    ∷ plain bool_kind
    ∷ char_shape target
    ∷ plain int_literal_kind
    ∷ plain float_literal_kind
    ∷ plain str_kind
    ∷ int_shape true 8
    ∷ int_shape true 16
    ∷ int_shape true 32
    ∷ int_shape true 64
    ∷ int_shape true 128
    ∷ int_shape false 8
    ∷ int_shape false 16
    ∷ int_shape false 32
    ∷ int_shape false 64
    ∷ int_shape false 128
    ∷ float_shape 32
    ∷ float_shape 64
    ∷ float_shape 80
    ∷ plain never_kind
    ∷ []

-- `add`, which neither searches nor counts.
abbrev pub add_all : Store → List Shape → Store
add_all store [] = store
add_all store (s ∷ ss) = add_all (with_type store s) ss

abbrev pub no_types : TargetInfo → ℕ → Store
no_types target max_types = record {
  target = target;
  max_types = max_types;
  types = [];
  index = [];
}

unfoldable pub new_store : TargetInfo → ℕ → Store
unfolding built_in_shapes
new_store target max_types = add_all (no_types target max_types) (built_in_shapes target)

-- `isObject` of a kind.
abbrev pub is_object_kind : TypeKind → Bool
is_object_kind bool_kind = true
is_object_kind char_kind = true
is_object_kind int_kind = true
is_object_kind float_kind = true
is_object_kind str_kind = true
is_object_kind pointer_kind = true
is_object_kind array_kind = true
is_object_kind slice_kind = true
is_object_kind tuple_kind = true
is_object_kind param_kind = true
is_object_kind _ = false

abbrev pub is_object_id : Store → ℕ → Bool
is_object_id store id = elim (get_elem? store.types id) [
  | some t ↦ is_object_kind t.shape.kind
  | none ↦ false
]

abbrev pub all_objects : Store → List ℕ → Bool
all_objects store [] = true
all_objects store (id ∷ ids) = is_object_id store id && all_objects store ids

abbrev pub layouts_of : Store → List ℕ → List Layout
layouts_of store = map (child_layout store.types)

abbrev pub any_unknown : List Layout → Bool
any_unknown [] = false
any_unknown (m ∷ ms) = m.unknown_size || any_unknown ms

abbrev pub is_some {ℓ} : {A : Type ℓ} → Option A → Bool
is_some (some a) = true
is_some none = false

unfoldable pub array_of : Store → ℕ → ℕ → Option ℕ × Store
unfolding intern_sequence array_size
array_of store element count =
    let object = is_object_id store element in
    let l = child_layout store.types element in
    if not object
    then (none, store)
    else if not l.unknown_size && not (is_some (array_size object l count))
    then (none, store)
    else intern_sequence store (array_shape element count)

unfoldable pub slice_of : Store → ℕ → Option ℕ × Store
unfolding intern_sequence
slice_of store element =
    if not (is_object_id store element)
    then (none, store)
    else intern_sequence store (slice_shape element)

unfoldable pub pointer_to : Store → ℕ → Option ℕ × Store
unfolding intern_sequence
pointer_to store pointee = intern_sequence store (pointer_shape pointee)

unfoldable pub function_of : Store → ℕ → List ℕ → Bool → Option ℕ × Store
unfolding intern_sequence
function_of store returns params variadic =
    if ltb max_type_nodes (add_nodes store.types 1 (returns ∷ params))
    then (none, store)
    else intern_sequence store (function_shape params returns variadic)

unfoldable pub tuple_of : Store → List ℕ → Option ℕ × Store
unfolding intern_sequence tuple_size
tuple_of store members =
    if ltb (length members) 2
    then (none, store)
    else if not (all_objects store members)
    then (none, store)
    else if ltb max_type_nodes (add_nodes store.types 1 members)
    then (none, store)
    else if not (any_unknown (layouts_of store members))
        && not (is_some (tuple_size (layouts_of store members)))
    then (none, store)
    else intern_sequence store (tuple_shape members)
