-- ===== src/Sema/Store/Start.antt =====
-- The store that the constructor makes (src/sema/type_store.cc).
use mincplus.Prelude.{
  ℕ, zero, suc, ◌≤◌, ◌≡◌, refl, Bool, true, ◌&&◌, none, some, List, [], ◌∷◌, length, arith, not,
  Option-cases, and_parts, get_elem?, ap, sym, ◌∙◌, inl, inr, ◌==◌,
}
use mincplus.Sema.Layout.{TargetInfo}
use mincplus.Sema.Store.{
  Shape, StoredType, Store, equal_shape, add_nodes, hash_of, nodes_of, find_candidate,
  max_type_nodes,
}
use mincplus.Sema.Store.Intern.{children, IsKnown, IsValid, with_type}
use mincplus.Sema.Types.{same_bool}
use mincplus.Sema.Store.Equality.{equal_shape_iff}
use mincplus.Sema.Store.Table.{find_candidate_sound}
use mincplus.Sema.Store.Grow.{with_type-IsValid}
use mincplus.Sema.Store.Build.{built_in_shapes, add_all, no_types, new_store}

no_types-IsValid : (target : TargetInfo) (max_types : ℕ) → IsValid (no_types target max_types)
no_types-IsValid target max_types =
    ((λ i t at. cc), (λ i j a b at bt e. cc), (λ i t at. cc), (λ i t at. cc))

abbrev absent : List StoredType → Shape → Bool
absent [] s = true
absent (t ∷ ts) s = not (equal_shape t.shape s) && absent ts s

absent_lem :
    (types : List StoredType) (s : Shape) (i : ℕ) (t : StoredType)
    → absent types s ≡ true
    → get_elem? types i ≡ some t
    → ¬ (t.shape ≡ s)
absent_lem [] s i t h at same = cc
absent_lem (u ∷ us) s zero t h at same =
    let one : u ≡ t = cc in
    let equal = (equal_shape_iff u.shape s).1 (ap (λ (r : StoredType). r.shape) one ∙ same) in
    let (new, rest) = and_parts (not (equal_shape u.shape s)) (absent us s) h in
    let wrong : not true ≡ true = ap not (sym equal) ∙ new in cc
absent_lem (u ∷ us) s (suc i) t h at same =
    let (new, rest) = and_parts (not (equal_shape u.shape s)) (absent us s) h in
    absent_lem us s i t rest at same

absent-find_candidate :
    (store : Store) (s : Shape)
    → absent store.types s ≡ true
    → find_candidate store.types (hash_of s) s store.index ≡ none
absent-find_candidate store s h =
    elim (Option-cases (find_candidate store.types (hash_of s) s store.index)) [
      | inl miss ↦ miss
      | inr (id, hit) ↦
          let (t, at, same) = find_candidate_sound store.types (hash_of s) s store.index id hit in
          absurd (absent_lem store.types s id t h at same)
    ]

-- Types without children, each new.
abbrev all_fresh : Store → List Shape → Bool
all_fresh store [] = true
all_fresh store (s ∷ ss) =
    absent store.types s && (length (children s) == 0 && all_fresh (with_type store s) ss)

no_children : (types : List StoredType) (cs : List ℕ) → (length cs == 0) ≡ true → IsKnown types cs
no_children types [] h = tt
no_children types (c ∷ cs) h = absurd (ground arith)

one_node :
    (types : List StoredType) (s : Shape)
    → (length (children s) == 0) ≡ true
    → nodes_of types s ≤ max_type_nodes
unfolding nodes_of
one_node types s h = by_children (children s) h
  where
    by_children : (cs : List ℕ) → (length cs == 0) ≡ true → add_nodes types 1 cs ≤ max_type_nodes
    by_children [] e = omega arith
    by_children (c ∷ cs) e = absurd (ground arith)

add_all-IsValid :
    (store : Store) (ss : List Shape)
    → IsValid store
    → all_fresh store ss ≡ true
    → IsValid (add_all store ss)
add_all-IsValid store [] valid h = valid
add_all-IsValid store (s ∷ ss) valid h =
    let (new, rest) =
      and_parts (absent store.types s)
        (length (children s) == 0 && all_fresh (with_type store s) ss) h in
    let (alone, others) =
      and_parts (length (children s) == 0) (all_fresh (with_type store s) ss) rest in
    add_all-IsValid (with_type store s) ss
      (with_type-IsValid store s valid (no_children store.types (children s) alone)
        (one_node store.types s alone) (absent-find_candidate store s new))
      others

-- The store that the constructor makes is valid and has the 21 built-in types.
pub new_store-IsValid :
    (target : TargetInfo) (max_types : ℕ)
    → IsValid (new_store target max_types) × (length (new_store target max_types).types ≡ 21)
unfolding new_store built_in_shapes same_bool
new_store-IsValid target max_types = (
  add_all-IsValid (no_types target max_types) (built_in_shapes target)
      (no_types-IsValid target max_types) refl,
  refl,
)
