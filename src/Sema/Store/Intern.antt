-- ===== src/Sema/Store/Intern.antt =====
-- Interning a type (`internSequence`, src/sema/type_store.cc).
use mincplus.Prelude.{
  ℕ, ◌+◌, ◌≤◌, ◌<◌, ◌≡◌, refl, some, List, [], ◌∷◌, ◌++◌, length, get_elem?, All, map,
  get_elem?-append, get_elem?_defined,
}
use mincplus.Sema.Layout.{TargetInfo}
use mincplus.Sema.Store.{
  TypeKind, Shape, StoredType, Store, hash_of, single_child, child_layout, child_nodes, add_nodes,
  layout_of, nodes_of, max_type_nodes, error_kind, void_kind, never_kind, bool_kind, char_kind,
  int_kind, float_kind, str_kind, function_kind, pointer_kind, array_kind, slice_kind, tuple_kind,
  param_kind, int_literal_kind, float_literal_kind,
}
use mincplus.Sema.Store.Table.{Listed}

abbrev pub children : Shape → List ℕ
children s = single_child s ++ s.parts

abbrev pub IsKnown : List StoredType → List ℕ → Type 0
IsKnown types = All (λ c. c < length types)

module _ (types : List StoredType) (x : StoredType) where
  child_layout-append :
      (c : ℕ) → c < length types → child_layout (types ++ (x ∷ [])) c ≡ child_layout types c
  child_layout-append c h =
      let (a, e) = get_elem?_defined types c h in
      rw (child_layout, e, get_elem?-append types (x ∷ []) c e) refl

  map-child_layout :
      (cs : List ℕ)
      → IsKnown types cs
      → map (child_layout (types ++ (x ∷ []))) cs ≡ map (child_layout types) cs
  map-child_layout [] h = refl
  map-child_layout (c ∷ cs) h = rw (child_layout-append c h.0, map-child_layout cs h.1) refl

  -- A type's layout is not changed by a type that is added.
  pub layout_of-append :
      (target : TargetInfo) (k : TypeKind) (s : Shape)
      → IsKnown types (children (record s { kind = k }))
      → layout_of target (types ++ (x ∷ [])) (record s { kind = k })
        ≡ layout_of target types (record s { kind = k })
  unfolding layout_of
  layout_of-append target array_kind s h = rw (child_layout-append s.pointee h.0) refl
  layout_of-append target tuple_kind s h = rw (map-child_layout s.parts h) refl
  layout_of-append target error_kind s h = refl
  layout_of-append target void_kind s h = refl
  layout_of-append target never_kind s h = refl
  layout_of-append target bool_kind s h = refl
  layout_of-append target char_kind s h = refl
  layout_of-append target int_kind s h = refl
  layout_of-append target float_kind s h = refl
  layout_of-append target str_kind s h = refl
  layout_of-append target function_kind s h = refl
  layout_of-append target pointer_kind s h = refl
  layout_of-append target slice_kind s h = refl
  layout_of-append target param_kind s h = refl
  layout_of-append target int_literal_kind s h = refl
  layout_of-append target float_literal_kind s h = refl

module _ (types : List StoredType) (x : StoredType) where
  child_nodes-append :
      (c : ℕ) → c < length types → child_nodes (types ++ (x ∷ [])) c ≡ child_nodes types c
  child_nodes-append c h =
      let (a, e) = get_elem?_defined types c h in
      rw (child_nodes, e, get_elem?-append types (x ∷ []) c e) refl

  add_nodes-append :
      (nodes : ℕ) (cs : List ℕ)
      → IsKnown types cs
      → add_nodes (types ++ (x ∷ [])) nodes cs ≡ add_nodes types nodes cs
  add_nodes-append nodes [] h = refl
  add_nodes-append nodes (c ∷ cs) h =
      rw
        (add_nodes, child_nodes-append c h.0, add_nodes-append (nodes + child_nodes types c) cs h.1)
        refl

  -- Nor is its number of nodes.
  pub nodes_of-append :
      (s : Shape) → IsKnown types (children s) → nodes_of (types ++ (x ∷ [])) s ≡ nodes_of types s
  unfolding nodes_of
  nodes_of-append s h = add_nodes-append 1 (children s) h

abbrev pub IsIndexed : Store → Type 0
IsIndexed s =
    (i : ℕ) (t : StoredType) → get_elem? s.types i ≡ some t → Listed (hash_of t.shape) i s.index

-- No type is in the table twice.
abbrev pub IsDistinct : Store → Type 0
IsDistinct s =
    (i j : ℕ) (a b : StoredType)
    → get_elem? s.types i ≡ some a
    → get_elem? s.types j ≡ some b
    → a.shape ≡ b.shape
    → i ≡ j

-- Children are known.
abbrev pub IsClosed : Store → Type 0
IsClosed s =
    (i : ℕ) (t : StoredType) → get_elem? s.types i ≡ some t → IsKnown s.types (children t.shape)

-- What is stored with a type is what its children say.
abbrev pub IsLaidOut : Store → Type 0
IsLaidOut s =
    (i : ℕ) (t : StoredType)
    → get_elem? s.types i ≡ some t
    → (t.layout ≡ layout_of s.target s.types t.shape)
      × (t.nodes ≡ nodes_of s.types t.shape)
      × (t.nodes ≤ max_type_nodes)

abbrev pub IsValid : Store → Type 0
IsValid s = IsIndexed s × IsDistinct s × IsClosed s × IsLaidOut s

abbrev pub stored : Store → Shape → StoredType
stored store s = record {
  shape = s;
  nodes = nodes_of store.types s;
  layout = layout_of store.target store.types s;
}

abbrev pub with_type : Store → Shape → Store
with_type store s = record store {
  types = store.types ++ (stored store s ∷ []);
  index = store.index ++ ((hash_of s, length store.types) ∷ []);
}
