-- ===== src/Sema/Store.antt =====
-- `TypeStore` of include/sema/type_store.h and src/sema/type_store.cc: the table of the types of a
-- compilation, each interned once. A row of the member table stands in the type that owns it, so
-- `paramCount` is the length of `parts`. The entries of `index_` with one hash are searched in the
-- order of their insertion.
pub mod Equality
pub mod Table
pub mod Intern
pub mod Grow
pub mod Laws
pub mod Again
pub mod Denote
pub mod Build
pub mod Refine
pub mod Operations
pub mod Substitute
pub mod Start
use Prim.Native.Nat.{bit_xor}
use mincplus.Prelude.{
  ℕ, zero, suc, ◌+◌, ◌-◌, ◌*◌, ◌/◌, ◌%◌, ◌^◌, Bool, true, false, ◌&&◌, ◌||◌, not, ltb, leb, ◌==◌,
  if◌then◌else◌, Option, none, some, List, [], ◌∷◌, ◌++◌, length, map, get_elem?, same_bytes,
}
use mincplus.Sema.Types.{same_bool}
use mincplus.Sema.Layout.{
  TargetInfo, Layout, known_layout, int_layout, float_layout, pointer_layout, slice_layout,
  array_layout, tuple_layout, no_object,
}

pub data TypeKind : Type 0 where
  error_kind void_kind never_kind bool_kind char_kind int_kind float_kind str_kind : TypeKind
  function_kind pointer_kind array_kind slice_kind tuple_kind param_kind : TypeKind
  int_literal_kind float_literal_kind : TypeKind

-- The numbers of the enumerators.
abbrev pub kind_code : TypeKind → ℕ
kind_code error_kind = 0
kind_code void_kind = 1
kind_code never_kind = 2
kind_code bool_kind = 3
kind_code char_kind = 4
kind_code int_kind = 5
kind_code float_kind = 6
kind_code str_kind = 7
kind_code function_kind = 8
kind_code int_literal_kind = 9
kind_code float_literal_kind = 10
kind_code pointer_kind = 11
kind_code array_kind = 12
kind_code slice_kind = 13
kind_code tuple_kind = 14
kind_code param_kind = 15

-- `TypeId{}`.
abbrev pub invalid_id : ℕ
invalid_id = 2 ^ 32 - 1

-- The fields of `Type` that say which type it is.
pub record Shape : Type 0 where
  pub kind : TypeKind
  pub is_signed : Bool
  pub bits : ℕ
  pub pointee : ℕ
  pub count : ℕ
  pub return_type : ℕ
  pub variadic : Bool
  pub name : ℕ
  pub unit : ℕ
  pub owner : ℕ
  pub binder : ℕ
  pub parts : List ℕ

-- `Type{}` of a kind.
abbrev pub plain : TypeKind → Shape
plain kind = record {
  kind = kind;
  is_signed = false;
  bits = 0;
  pointee = invalid_id;
  count = 0;
  return_type = invalid_id;
  variadic = false;
  name = 2 ^ 32 - 1;
  unit = 2 ^ 32 - 1;
  owner = 0;
  binder = 0;
  parts = [];
}

-- A type in the store, with what is derived from its children.
pub record StoredType : Type 0 where
  pub shape : Shape
  pub nodes : ℕ
  pub layout : Layout

pub record Store : Type 0 where
  pub target : TargetInfo
  pub max_types : ℕ
  pub types : List StoredType
  pub index : List (ℕ × ℕ)

-- One of the eight rounds of `mix`, from the lowest byte on.
abbrev pub mix_bytes : ℕ → ℕ → ℕ → ℕ
mix_bytes zero hash value = hash
mix_bytes (suc n) hash value =
    mix_bytes n (bit_xor hash (value % 256) * 1099511628211 % 2 ^ 64) (value / 256)

abbrev pub mix : ℕ → ℕ → ℕ
mix hash value = mix_bytes 8 hash value

abbrev pub mix_all : ℕ → List ℕ → ℕ
mix_all hash [] = hash
mix_all hash (v ∷ vs) = mix_all (mix hash v) vs

abbrev pub bit_of : Bool → ℕ
bit_of b = if b then 1 else 0

unfoldable pub hash_of : Shape → ℕ
hash_of s = mix_all 1469598103934665603 (
    kind_code s.kind
    ∷ bit_of s.is_signed
    ∷ s.bits
    ∷ s.pointee
    ∷ s.count
    ∷ s.return_type
    ∷ length s.parts
    ∷ bit_of s.variadic
    ∷ s.name
    ∷ s.unit
    ∷ s.owner
    ∷ s.binder
    ∷ s.parts)

abbrev pub equal_fields : Shape → Shape → Bool
equal_fields a b =
    kind_code a.kind == kind_code b.kind
    && (same_bool a.is_signed b.is_signed
        && (a.bits == b.bits
            && (a.pointee == b.pointee
                && (a.count == b.count
                    && (a.return_type == b.return_type
                        && (a.name == b.name
                            && (same_bool a.variadic b.variadic
                                && (a.owner == b.owner
                                    && (a.binder == b.binder && a.unit == b.unit)))))))))

-- `equalParts` is the comparison of two lists of numbers.
abbrev pub equal_shape : Shape → Shape → Bool
equal_shape a b = equal_fields a b && same_bytes a.parts b.parts

abbrev pub child_nodes : List StoredType → ℕ → ℕ
child_nodes types id = elim (get_elem? types id) [ some t ↦ t.nodes | none ↦ 1 ]

abbrev pub max_type_nodes : ℕ
max_type_nodes = 2 ^ 16

-- The two loops of `nodesOf`, from a number of nodes on; past the bound the number is one above it.
abbrev pub add_nodes : List StoredType → ℕ → List ℕ → ℕ
add_nodes types nodes [] = nodes
add_nodes types nodes (id ∷ ids) =
    let more = nodes + child_nodes types id in
    let rest = add_nodes types more ids in
    if ltb max_type_nodes more then max_type_nodes + 1 else rest

-- The child outside the members.
abbrev pub single_child : Shape → List ℕ
single_child s = elim s.kind [
  | pointer_kind ↦ s.pointee ∷ []
  | array_kind ↦ s.pointee ∷ []
  | slice_kind ↦ s.pointee ∷ []
  | function_kind ↦ s.return_type ∷ []
  | _ ↦ []
]

unfoldable pub nodes_of : List StoredType → Shape → ℕ
nodes_of types s = add_nodes types 1 (single_child s ++ s.parts)

-- An id that is not known has the layout of no object.
abbrev pub child_layout : List StoredType → ℕ → Layout
child_layout types id = elim (get_elem? types id) [ some t ↦ t.layout | none ↦ no_object ]

unfoldable pub layout_of : TargetInfo → List StoredType → Shape → Layout
layout_of target types s = elim s.kind [
  | bool_kind ↦ known_layout 1 1
  | char_kind ↦ known_layout 1 1
  | int_kind ↦ int_layout target s.bits
  | float_kind ↦ float_layout target s.bits
  | str_kind ↦ pointer_layout target
  | pointer_kind ↦ pointer_layout target
  | slice_kind ↦ slice_layout target
  | array_kind ↦ array_layout (child_layout types s.pointee) s.count
  | tuple_kind ↦ tuple_layout (map (child_layout types) s.parts)
  | param_kind ↦ record { size = 0; align = 1; unknown_size = true }
  | _ ↦ no_object
]

-- The first entry with the hash whose type is the same.
abbrev pub find_candidate : List StoredType → ℕ → Shape → List (ℕ × ℕ) → Option ℕ
find_candidate types hash s [] = none
find_candidate types hash s (entry ∷ entries) =
    let rest = find_candidate types hash s entries in
    let found : Bool = elim (get_elem? types entry.1) [
      | some t ↦ equal_shape t.shape s
      | none ↦ false
    ] in
    if entry.0 == hash && found then some (entry.1) else rest

-- `internSequence`: `none` is `kInvalidType`.
unfoldable pub intern_sequence : Store → Shape → Option ℕ × Store
unfolding hash_of nodes_of layout_of
intern_sequence store s =
    let nodes = nodes_of store.types s in
    if ltb max_type_nodes nodes
    then (none, store)
    else elim (find_candidate store.types (hash_of s) s store.index) [
      | some id ↦ (some id, store)
      | none ↦
          if leb store.max_types (length store.types)
          then (none, store)
          else let id = length store.types in
            (
              some id,
              record store {
                types =
                    store.types
                    ++ (record {
                      shape = s;
                      nodes = nodes;
                      layout = layout_of store.target store.types s;
                    }
                        ∷ []);
                index = store.index ++ ((hash_of s, id) ∷ []);
              },
            )
    ]
