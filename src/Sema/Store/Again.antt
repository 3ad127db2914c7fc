-- ===== src/Sema/Store/Again.antt =====
-- Building a type that is in the store already (src/sema/type_store.cc).
use mincplus.Prelude.{
  ℕ, ◌≡◌, ◌∙◌, sym, ap, subst, none, Bool, not, ltb, ◌&&◌, Option, some, List, ◌∷◌, length, if_both,
}
use mincplus.Sema.Types.{Ty, Tys, pointer, array, slice, tuple, function}
use mincplus.Sema.Layout.{array_size, tuple_size}
use mincplus.Sema.Store.{Shape, Store, child_layout, intern_sequence, add_nodes, max_type_nodes}
use mincplus.Sema.Store.Intern.{IsValid}
use mincplus.Sema.Store.Laws.{intern_sequence_again}
use mincplus.Sema.Store.Build.{
  pointer_shape, array_shape, slice_shape, tuple_shape, function_shape, array_of, slice_of,
  pointer_to, tuple_of, function_of, is_object_id, all_objects, any_unknown, layouts_of, is_some,
}
use mincplus.Sema.Store.Denote.{HasShape, Denotes, DenoteAll, Denotes-unique, DenoteAll-unique}

-- A call of an operation that makes a type, with the ids that it is given and their types.
pub data Request : Type 0 where
  pointer_request slice_request : Ty → ℕ → Request
  array_request : Ty → ℕ → (count : ℕ) → Request
  tuple_request : Tys → List ℕ → Request
  function_request : Tys → List ℕ → Ty → ℕ → (variadic : Bool) → Request

abbrev pub serve : Store → Request → Option ℕ × Store
serve store (pointer_request a p) = pointer_to store p
serve store (slice_request a p) = slice_of store p
serve store (array_request a p n) = array_of store p n
serve store (tuple_request xs ps) = tuple_of store ps
serve store (function_request xs ps a p v) = function_of store p ps v

abbrev pub type_of : Request → Ty
type_of (pointer_request a p) = pointer a
type_of (slice_request a p) = slice a
type_of (array_request a p n) = array a n
type_of (tuple_request xs ps) = tuple xs
type_of (function_request xs ps a p v) = function xs a v

-- The ids stand for those types.
abbrev pub IsKnown : Store → Request → Type 0
IsKnown store (pointer_request a p) = Denotes store a p
IsKnown store (slice_request a p) = Denotes store a p
IsKnown store (array_request a p n) = Denotes store a p
IsKnown store (tuple_request xs ps) = DenoteAll store xs ps
IsKnown store (function_request xs ps a p v) = DenoteAll store xs ps × Denotes store a p

-- The result is refused, or is the id and the store.
abbrev GivesBack : Store → ℕ → Option ℕ × Store → Type 0
GivesBack store i r = (id : ℕ) → r.0 ≡ some id → (id ≡ i) × (r.1 ≡ store)

module _ (store : Store) (valid : IsValid store) where
  refused : (i : ℕ) → GivesBack store i (none, store)
  refused i id h = cc

  known_shape :
      (s : Shape) (i : ℕ) → HasShape store s i → GivesBack store i (intern_sequence store s)
  known_shape s i (t, there, same) id h =
      let again : intern_sequence store s ≡ (some i, store) =
        subst (λ (u : Shape). intern_sequence store u ≡ (some i, store)) same
          (intern_sequence_again store i t valid there) in
      let one : some i ≡ some id = ap (λ (r : Option ℕ × Store). r.0) (sym again) ∙ h in
      (cc, ap (λ (r : Option ℕ × Store). r.1) again)

  serve-GivesBack :
      (r : Request) (i : ℕ)
      → IsKnown store r
      → Denotes store (type_of r) i
      → GivesBack store i (serve store r)
  unfolding pointer_to slice_of array_of tuple_of function_of
  serve-GivesBack (pointer_request a p) i known (q, d, there) =
      known_shape (pointer_shape p) i (rw (Denotes-unique store valid a p q known d) there)
  serve-GivesBack (slice_request a p) i known (q, d, there) =
      if_both (GivesBack store i) (not (is_object_id store p)) (refused i)
        (known_shape (slice_shape p) i (rw (Denotes-unique store valid a p q known d) there))
  serve-GivesBack (array_request a p n) i known (q, d, there) =
      if_both (GivesBack store i) (not (is_object_id store p)) (refused i) (
        if_both (GivesBack store i)
          (not (child_layout store.types p).unknown_size
            && not (is_some (array_size (is_object_id store p) (child_layout store.types p) n)))
          (refused i)
          (known_shape (array_shape p n) i (rw (Denotes-unique store valid a p q known d) there)))
  serve-GivesBack (tuple_request xs ps) i known (qs, d, there) =
      if_both (GivesBack store i) (ltb (length ps) 2) (refused i) (
        if_both (GivesBack store i) (not (all_objects store ps)) (refused i) (
          if_both (GivesBack store i) (ltb max_type_nodes (add_nodes store.types 1 ps)) (refused i)
            (if_both (GivesBack store i)
              (not (any_unknown (layouts_of store ps))
                && not (is_some (tuple_size (layouts_of store ps))))
              (refused i)
              (known_shape (tuple_shape ps) i
                (rw (DenoteAll-unique store valid xs ps qs known d) there)))))
  serve-GivesBack (function_request xs ps a p v) i (known, returns) (qs, q, d, e, there) =
      if_both (GivesBack store i) (ltb max_type_nodes (add_nodes store.types 1 (p ∷ ps)))
        (refused i)
        (known_shape (function_shape ps p v) i (
          rw
            (
              DenoteAll-unique store valid xs ps qs known d,
              Denotes-unique store valid a p q returns e,
            )
            there))

-- Where an id of a valid store stands for a type, an operation that makes the type of ids that stand
-- for its parts, and yields an id, yields that one and leaves the store as it was.
pub serve_again :
    (store : Store) (r : Request) (i id : ℕ)
    → IsValid store
    → IsKnown store r
    → Denotes store (type_of r) i
    → (serve store r).0 ≡ some id
    → (id ≡ i) × ((serve store r).1 ≡ store)
serve_again store r i id valid known there h = serve-GivesBack store valid r i known there id h
