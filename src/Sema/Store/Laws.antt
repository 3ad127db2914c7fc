-- ===== src/Sema/Store/Laws.antt =====
-- What `internSequence` of src/sema/type_store.cc promises.
use mincplus.Prelude.{
  ℕ, ◌≤◌, ◌<◌, ◌≡◌, ◌↔◌, inl, inr, refl, ltb, leb, Option, none, some, [], ◌∷◌, length, get_elem?,
  arith, ap, sym, ◌∙◌, Bool-cases, Option-cases, get_elem?-append, get_elem?_last,
}
use mincplus.Sema.Store.{
  Shape, StoredType, Store, hash_of, find_candidate, nodes_of, max_type_nodes, intern_sequence,
}
use mincplus.Sema.Store.Table.{find_candidate_sound, find_candidate_complete}
use mincplus.Sema.Store.Intern.{children, IsKnown, IsValid, stored, with_type}
use mincplus.Sema.Store.Grow.{with_type-IsValid}

-- What interning did: it refused, it found the type, or it added it.
data Interned (store : Store) (s : Shape) (r : Option ℕ × Store) : Type 0 where
  too_large : max_type_nodes < nodes_of store.types s → r ≡ (none, store) → Interned store s r
  full :
      nodes_of store.types s ≤ max_type_nodes
      → store.max_types ≤ length store.types
      → find_candidate store.types (hash_of s) s store.index ≡ none
      → r ≡ (none, store)
      → Interned store s r
  found :
      (id : ℕ)
      → nodes_of store.types s ≤ max_type_nodes
      → find_candidate store.types (hash_of s) s store.index ≡ some id
      → r ≡ (some id, store)
      → Interned store s r
  added :
      nodes_of store.types s ≤ max_type_nodes
      → length store.types < store.max_types
      → find_candidate store.types (hash_of s) s store.index ≡ none
      → r ≡ (some (length store.types), with_type store s)
      → Interned store s r

Interned-intern_sequence : (store : Store) (s : Shape) → Interned store s (intern_sequence store s)
unfolding intern_sequence
Interned-intern_sequence store s = elim (Bool-cases (ltb max_type_nodes (nodes_of store.types s))) [
  | inl large ↦ too_large (ground arith) (rw large refl)
  | inr small ↦ elim (Option-cases (find_candidate store.types (hash_of s) s store.index)) [
    | inr (id, hit) ↦ found id (ground arith) hit (rw (small, hit) refl)
    | inl miss ↦ elim (Bool-cases (leb store.max_types (length store.types))) [
      | inl no_room ↦ full (ground arith) (ground arith) miss (rw (small, miss, no_room) refl)
      | inr room ↦ added (ground arith) (ground arith) miss (rw (small, miss, room) refl)
    ]
  ]
]

-- Interning keeps a store valid, when the children are known.
pub intern_sequence-IsValid :
    (store : Store) (s : Shape)
    → IsValid store
    → IsKnown store.types (children s)
    → IsValid (intern_sequence store s).1
intern_sequence-IsValid store s valid known = by_outcome (Interned-intern_sequence store s)
  where
    by_outcome : {r : Option ℕ × Store} → Interned store s r → IsValid r.1
    by_outcome (too_large l e) = rw e valid
    by_outcome (full n l f e) = rw e valid
    by_outcome (found id n f e) = rw e valid
    by_outcome (added n l f e) = rw e (with_type-IsValid store s valid known n f)

-- An id that was given out keeps its type.
pub intern_sequence-get :
    (store : Store) (s : Shape) (i : ℕ) (t : StoredType)
    → get_elem? store.types i ≡ some t
    → get_elem? (intern_sequence store s).1.types i ≡ some t
intern_sequence-get store s i t at = by_outcome (Interned-intern_sequence store s)
  where
    by_outcome : {r : Option ℕ × Store} → Interned store s r → get_elem? r.1.types i ≡ some t
    by_outcome (too_large l e) = rw e at
    by_outcome (full n l f e) = rw e at
    by_outcome (found id n f e) = rw e at
    by_outcome (added n l f e) = rw e (get_elem?-append store.types (stored store s ∷ []) i at)

-- The id that interning yields names the type that was asked for.
pub intern_sequence_names :
    (store : Store) (s : Shape) (id : ℕ)
    → (intern_sequence store s).0 ≡ some id
    → (t : StoredType) × (get_elem? (intern_sequence store s).1.types id ≡ some t) × (t.shape ≡ s)
intern_sequence_names store s id h = by_outcome (Interned-intern_sequence store s) h
  where
    by_outcome :
        {r : Option ℕ × Store}
        → Interned store s r
        → r.0 ≡ some id
        → (t : StoredType) × (get_elem? r.1.types id ≡ some t) × (t.shape ≡ s)
    by_outcome (too_large l e) k =
        let no : none ≡ some id = ap (λ (p : Option ℕ × Store). p.0) (sym e) ∙ k in cc
    by_outcome (full n l f e) k =
        let no : none ≡ some id = ap (λ (p : Option ℕ × Store). p.0) (sym e) ∙ k in cc
    by_outcome (found i n f e) k =
        let same : some i ≡ some id = ap (λ (p : Option ℕ × Store). p.0) (sym e) ∙ k in
        rw e (find_candidate_sound store.types (hash_of s) s store.index id (f ∙ same))
    by_outcome (added n l f e) k =
        let same : some (length store.types) ≡ some id =
          ap (λ (p : Option ℕ × Store). p.0) (sym e) ∙ k in
        let last : length store.types ≡ id = cc in
        rw (e, sym last) (stored store s, get_elem?_last store.types (stored store s), refl)

-- Interning a type that is in a valid store finds it and changes nothing.
pub intern_sequence_again :
    (store : Store) (i : ℕ) (t : StoredType)
    → IsValid store
    → get_elem? store.types i ≡ some t
    → intern_sequence store t.shape ≡ (some i, store)
intern_sequence_again store i t valid at = by_outcome (Interned-intern_sequence store t.shape)
  where
    hit : (j : ℕ) × (find_candidate store.types (hash_of t.shape) t.shape store.index ≡ some j)
    hit = find_candidate_complete store.types t.shape store.index i t at refl (valid.0 i t at)

    by_outcome : {r : Option ℕ × Store} → Interned store t.shape r → r ≡ (some i, store)
    by_outcome (too_large l e) =
        let (laid, counted, few) = valid.3 i t at in absurd (omega (arith, l, counted, few))
    by_outcome (full n l f e) = let (j, k) = hit in cc
    by_outcome (found id n f e) =
        let (u, there, same) =
          find_candidate_sound store.types (hash_of t.shape) t.shape store.index id f in
        let one : id ≡ i = valid.1 id i u t there at same in e ∙ ap (λ (k : ℕ). (some k, store)) one
    by_outcome (added n l f e) = let (j, k) = hit in cc

-- Of two types that are interned one after the other, in a valid store that knows the children of the
-- first, and that both get an id, the ids are the same exactly when the types are.
pub intern_sequence_same_iff :
    (store : Store) (a b : Shape) (i j : ℕ)
    → IsValid store
    → IsKnown store.types (children a)
    → (intern_sequence store a).0 ≡ some i
    → (intern_sequence (intern_sequence store a).1 b).0 ≡ some j
    → (i ≡ j) ↔ (a ≡ b)
intern_sequence_same_iff store a b i j valid known h k =
    let next = (intern_sequence store a).1 in
    let (t, at, named) = intern_sequence_names store a i h in
    let (u, there, called) = intern_sequence_names next b j k in
    let kept = intern_sequence-get next b i t at in
    (
      λ e.
          (let one : some t ≡ some u =
              sym kept ∙ ap (λ n. get_elem? (intern_sequence next b).1.types n) e ∙ there in
            let same : t ≡ u = cc in sym named ∙ ap (λ (r : StoredType). r.shape) same ∙ called),
      λ e.
          (let again =
              intern_sequence_again next i t (intern_sequence-IsValid store a valid known) at in
            let found : (intern_sequence next b).0 ≡ some i =
              ap (λ s. (intern_sequence next s).0) (sym (named ∙ e))
              ∙ ap (λ (p : Option ℕ × Store). p.0) again in
            let one : some i ≡ some j = sym found ∙ k in cc),
    )

pub intern_sequence-target :
    (store : Store) (s : Shape) → (intern_sequence store s).1.target ≡ store.target
intern_sequence-target store s = by_outcome (Interned-intern_sequence store s)
  where
    by_outcome : {r : Option ℕ × Store} → Interned store s r → r.1.target ≡ store.target
    by_outcome (too_large l e) = rw e refl
    by_outcome (full n l f e) = rw e refl
    by_outcome (found id n f e) = rw e refl
    by_outcome (added n l f e) = rw e refl
