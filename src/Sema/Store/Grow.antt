-- ===== src/Sema/Store/Grow.antt =====
-- A type that is added to a valid store (src/sema/type_store.cc).
use mincplus.Prelude.{
  ℕ, ◌≤◌, ◌≡◌, inl, inr, none, some, List, [], ◌∷◌, ◌++◌, length, get_elem?, arith, ap, sym, ◌∙◌,
  subst, length-append, get_elem?-append_cases,
}
use mincplus.Sema.Store.{
  Shape, StoredType, Store, hash_of, find_candidate, layout_of, nodes_of, max_type_nodes,
}
use mincplus.Sema.Store.Table.{Listed, Listed-append, Listed-last, find_candidate_complete}
use mincplus.Sema.Store.Intern.{
  children, IsKnown, layout_of-append, nodes_of-append, IsIndexed, IsDistinct, IsClosed, IsLaidOut,
  IsValid, stored, with_type,
}

IsKnown-append :
    (types : List StoredType) (x : StoredType) (cs : List ℕ)
    → IsKnown types cs
    → IsKnown (types ++ (x ∷ [])) cs
IsKnown-append types x [] h = tt
IsKnown-append types x (c ∷ cs) h =
    (omega (arith, h.0, length-append types (x ∷ [])), IsKnown-append types x cs h.1)

module _ (store : Store) (s : Shape) (valid : IsValid store)
    (known : IsKnown store.types (children s)) (small : nodes_of store.types s ≤ max_type_nodes)
    (fresh : find_candidate store.types (hash_of s) s store.index ≡ none) where
  unlike : (i : ℕ) (t : StoredType) → get_elem? store.types i ≡ some t → ¬ (t.shape ≡ s)
  unlike i t at same =
      let listed = subst (λ h. Listed (hash_of h) i store.index) same (valid.0 i t at) in
      let (found, e) = find_candidate_complete store.types s store.index i t at same listed in cc

  with_type-IsIndexed : IsIndexed (with_type store s)
  with_type-IsIndexed i t at = elim (get_elem?-append_cases store.types (stored store s) t i at) [
    | inl old ↦
        Listed-append (hash_of t.shape) i store.index ((hash_of s, length store.types) ∷ [])
          (valid.0 i t old)
    | inr (last, same) ↦
        subst (λ (u : StoredType). Listed (hash_of u.shape) i (with_type store s).index) same
          (subst (λ j. Listed (hash_of s) j (with_type store s).index) (sym last)
            (Listed-last (hash_of s) (length store.types) store.index))
  ]

  with_type-IsDistinct : IsDistinct (with_type store s)
  with_type-IsDistinct i j a b at bt same =
      elim (get_elem?-append_cases store.types (stored store s) a i at) [
        | inl old ↦ elim (get_elem?-append_cases store.types (stored store s) b j bt) [
          | inl older ↦ valid.1 i j a b old older same
          | inr (last, new) ↦
              absurd (unlike i a old (same ∙ ap (λ (u : StoredType). u.shape) (sym new)))
        ]
        | inr (last, new) ↦ elim (get_elem?-append_cases store.types (stored store s) b j bt) [
          | inl old ↦
              absurd (unlike j b old (sym same ∙ ap (λ (u : StoredType). u.shape) (sym new)))
          | inr (end, newer) ↦ last ∙ sym end
        ]
      ]

  with_type-IsClosed : IsClosed (with_type store s)
  with_type-IsClosed i t at = elim (get_elem?-append_cases store.types (stored store s) t i at) [
    | inl old ↦ IsKnown-append store.types (stored store s) (children t.shape) (valid.2 i t old)
    | inr (last, same) ↦
        subst (λ (u : StoredType). IsKnown (with_type store s).types (children u.shape)) same
          (IsKnown-append store.types (stored store s) (children s) known)
  ]

  with_type-IsLaidOut : IsLaidOut (with_type store s)
  with_type-IsLaidOut i t at = elim (get_elem?-append_cases store.types (stored store s) t i at) [
    | inl old ↦
        let (laid, counted, few) = valid.3 i t old in
        (
          laid
              ∙ sym (
                  layout_of-append store.types (stored store s) store.target t.shape.kind t.shape
                    (valid.2 i t old)),
          counted ∙ sym (nodes_of-append store.types (stored store s) t.shape (valid.2 i t old)),
          few,
        )
    | inr (last, same) ↦
        subst
          (λ (u : StoredType).
            (u.layout ≡ layout_of store.target (with_type store s).types u.shape)
            × (u.nodes ≡ nodes_of (with_type store s).types u.shape)
            × (u.nodes ≤ max_type_nodes))
          same
          (
            sym (layout_of-append store.types (stored store s) store.target s.kind s known),
            sym (nodes_of-append store.types (stored store s) s known),
            small,
          )
  ]

  pub with_type-IsValid : IsValid (with_type store s)
  with_type-IsValid =
      (with_type-IsIndexed, with_type-IsDistinct, with_type-IsClosed, with_type-IsLaidOut)
