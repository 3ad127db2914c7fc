-- ===== src/Sema/Store/Operations.antt =====
-- The operations of the store (src/sema/type_store.cc) build the types of Sema/Types.
use mincplus.Prelude.{
  ℕ, ◌≡◌, Bool, not, ltb, ◌&&◌, Option, some, List, ◌∷◌, length, sym, subst, if_both,
}
use mincplus.Sema.Types.{
  Ty, Tys, error, void, never, bool, char, str, int_literal, float_literal, int, float, pointer,
  array, slice, tuple, function, param, nil, cons,
}
use mincplus.Sema.Layout.{array_size, tuple_size}
use mincplus.Sema.Store.{Shape, Store, child_layout, intern_sequence, add_nodes, max_type_nodes}
use mincplus.Sema.Store.Laws.{intern_sequence-get, intern_sequence_names, intern_sequence-target}
use mincplus.Sema.Store.Build.{
  char_shape, pointer_shape, array_shape, slice_shape, tuple_shape, function_shape, array_of,
  slice_of, pointer_to, tuple_of, function_of, is_object_id, all_objects, any_unknown, layouts_of,
  is_some,
}
use mincplus.Sema.Store.Denote.{HasShape, Denotes, DenoteAll}

module _ (store : Store) (s : Shape) where
  kept_shape : (u : Shape) (i : ℕ) → HasShape store u i → HasShape (intern_sequence store s).1 u i
  kept_shape u i (t, at, same) = (t, intern_sequence-get store s i t at, same)

  mutual
    -- An id goes on standing for its type.
    pub Denotes-kept :
        (t : Ty) (i : ℕ) → Denotes store t i → Denotes (intern_sequence store s).1 t i
    Denotes-kept error i h = kept_shape _ i h
    Denotes-kept void i h = kept_shape _ i h
    Denotes-kept never i h = kept_shape _ i h
    Denotes-kept bool i h = kept_shape _ i h
    Denotes-kept char i h =
        subst (λ target. HasShape (intern_sequence store s).1 (char_shape target) i)
          (sym (intern_sequence-target store s)) (kept_shape (char_shape store.target) i h)
    Denotes-kept str i h = kept_shape _ i h
    Denotes-kept int_literal i h = kept_shape _ i h
    Denotes-kept float_literal i h = kept_shape _ i h
    Denotes-kept (int g b) i h = kept_shape _ i h
    Denotes-kept (float b) i h = kept_shape _ i h
    Denotes-kept (param u o b) i h = kept_shape _ i h
    Denotes-kept (pointer a) i (p, d, h) = (p, Denotes-kept a p d, kept_shape (pointer_shape p) i h)
    Denotes-kept (array a n) i (p, d, h) = (p, Denotes-kept a p d, kept_shape (array_shape p n) i h)
    Denotes-kept (slice a) i (p, d, h) = (p, Denotes-kept a p d, kept_shape (slice_shape p) i h)
    Denotes-kept (tuple xs) i (ps, d, h) =
        (ps, DenoteAll-kept xs ps d, kept_shape (tuple_shape ps) i h)
    Denotes-kept (function xs r v) i (ps, q, d, e, h) =
        (ps, q, DenoteAll-kept xs ps d, Denotes-kept r q e, kept_shape (function_shape ps q v) i h)

    DenoteAll-kept :
        (xs : Tys) (ps : List ℕ)
        → DenoteAll store xs ps
        → DenoteAll (intern_sequence store s).1 xs ps
    DenoteAll-kept nil ps h = h
    DenoteAll-kept (cons x xs) ps (q, qs, e, d, h) =
        (q, qs, e, Denotes-kept x q d, DenoteAll-kept xs qs h)

-- What the store builds of ids that stand for types stands for the type that is made of those; all
-- ids that were given out before go on standing for theirs.
module _ (store : Store) where
  pub pointer_to-Denotes :
      (a : Ty) (p i : ℕ)
      → Denotes store a p
      → (pointer_to store p).0 ≡ some i
      → Denotes (pointer_to store p).1 (pointer a) i
  unfolding pointer_to
  pointer_to-Denotes a p i d h = (
    p,
    Denotes-kept store (pointer_shape p) a p d,
    intern_sequence_names store (pointer_shape p) i h,
  )

  pub array_of-Denotes :
      (a : Ty) (p n i : ℕ)
      → Denotes store a p
      → (array_of store p n).0 ≡ some i
      → Denotes (array_of store p n).1 (array a n) i
  unfolding array_of
  array_of-Denotes a p n i d =
      if_both (λ (r : Option ℕ × Store). r.0 ≡ some i → Denotes r.1 (array a n) i)
        (not (is_object_id store p)) (λ h. cc)
        (if_both (λ (r : Option ℕ × Store). r.0 ≡ some i → Denotes r.1 (array a n) i)
          (not (child_layout store.types p).unknown_size
            && not (is_some (array_size (is_object_id store p) (child_layout store.types p) n)))
          (λ h. cc)
          (λ h. (
            p,
            Denotes-kept store (array_shape p n) a p d,
            intern_sequence_names store (array_shape p n) i h,
          )))

  pub slice_of-Denotes :
      (a : Ty) (p i : ℕ)
      → Denotes store a p
      → (slice_of store p).0 ≡ some i
      → Denotes (slice_of store p).1 (slice a) i
  unfolding slice_of
  slice_of-Denotes a p i d =
      if_both (λ (r : Option ℕ × Store). r.0 ≡ some i → Denotes r.1 (slice a) i)
        (not (is_object_id store p)) (λ h. cc)
        (λ h. (
          p,
          Denotes-kept store (slice_shape p) a p d,
          intern_sequence_names store (slice_shape p) i h,
        ))

  pub tuple_of-Denotes :
      (xs : Tys) (ps : List ℕ) (i : ℕ)
      → DenoteAll store xs ps
      → (tuple_of store ps).0 ≡ some i
      → Denotes (tuple_of store ps).1 (tuple xs) i
  unfolding tuple_of
  tuple_of-Denotes xs ps i d =
      if_both Built (ltb (length ps) 2) (λ h. cc)
        (if_both Built (not (all_objects store ps)) (λ h. cc)
          (if_both Built (ltb max_type_nodes (add_nodes store.types 1 ps)) (λ h. cc)
            (if_both Built
              (not (any_unknown (layouts_of store ps))
                && not (is_some (tuple_size (layouts_of store ps))))
              (λ h. cc)
              (λ h. (
                ps,
                DenoteAll-kept store (tuple_shape ps) xs ps d,
                intern_sequence_names store (tuple_shape ps) i h,
              )))))
    where
      Built : Option ℕ × Store → Type 0
      Built r = r.0 ≡ some i → Denotes r.1 (tuple xs) i

  pub function_of-Denotes :
      (xs : Tys) (ps : List ℕ) (r : Ty) (q : ℕ) (v : Bool) (i : ℕ)
      → DenoteAll store xs ps
      → Denotes store r q
      → (function_of store q ps v).0 ≡ some i
      → Denotes (function_of store q ps v).1 (function xs r v) i
  unfolding function_of
  function_of-Denotes xs ps r q v i d e =
      if_both (λ (s : Option ℕ × Store). s.0 ≡ some i → Denotes s.1 (function xs r v) i)
        (ltb max_type_nodes (add_nodes store.types 1 (q ∷ ps))) (λ h. cc)
        (λ h. (
          ps,
          q,
          DenoteAll-kept store (function_shape ps q v) xs ps d,
          Denotes-kept store (function_shape ps q v) r q e,
          intern_sequence_names store (function_shape ps q v) i h,
        ))

-- What stood for a type in one store stands for it in another.
abbrev pub Keeps : Store → Store → Type 0
Keeps store next = (t : Ty) (i : ℕ) → Denotes store t i → Denotes next t i

module _ (store : Store) where
  unchanged : Keeps store store
  unchanged t i d = d

  pub pointer_to-Keeps : (p : ℕ) → Keeps store (pointer_to store p).1
  unfolding pointer_to
  pointer_to-Keeps p = Denotes-kept store (pointer_shape p)

  pub array_of-Keeps : (p n : ℕ) → Keeps store (array_of store p n).1
  unfolding array_of
  array_of-Keeps p n =
      if_both (λ (r : Option ℕ × Store). Keeps store r.1) (not (is_object_id store p)) unchanged
        (if_both (λ (r : Option ℕ × Store). Keeps store r.1)
          (not (child_layout store.types p).unknown_size
            && not (is_some (array_size (is_object_id store p) (child_layout store.types p) n)))
          unchanged (Denotes-kept store (array_shape p n)))

  pub slice_of-Keeps : (p : ℕ) → Keeps store (slice_of store p).1
  unfolding slice_of
  slice_of-Keeps p =
      if_both (λ (r : Option ℕ × Store). Keeps store r.1) (not (is_object_id store p)) unchanged
        (Denotes-kept store (slice_shape p))

  pub tuple_of-Keeps : (ps : List ℕ) → Keeps store (tuple_of store ps).1
  unfolding tuple_of
  tuple_of-Keeps ps = if_both Kept (ltb (length ps) 2) unchanged (
      if_both Kept (not (all_objects store ps)) unchanged (
        if_both Kept (ltb max_type_nodes (add_nodes store.types 1 ps)) unchanged (
          if_both Kept
            (not (any_unknown (layouts_of store ps))
              && not (is_some (tuple_size (layouts_of store ps))))
            unchanged (Denotes-kept store (tuple_shape ps)))))
    where
      Kept : Option ℕ × Store → Type 0
      Kept r = Keeps store r.1

  pub function_of-Keeps :
      (q : ℕ) (ps : List ℕ) (v : Bool) → Keeps store (function_of store q ps v).1
  unfolding function_of
  function_of-Keeps q ps v =
      if_both (λ (r : Option ℕ × Store). Keeps store r.1)
        (ltb max_type_nodes (add_nodes store.types 1 (q ∷ ps))) unchanged
        (Denotes-kept store (function_shape ps q v))

pub DenoteAll-Keeps :
    (store next : Store) (xs : Tys) (ps : List ℕ)
    → Keeps store next
    → DenoteAll store xs ps
    → DenoteAll next xs ps
DenoteAll-Keeps store next nil ps k h = h
DenoteAll-Keeps store next (cons x xs) ps k (q, qs, e, d, h) =
    (q, qs, e, k x q d, DenoteAll-Keeps store next xs qs k h)
