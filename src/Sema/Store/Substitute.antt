-- ===== src/Sema/Store/Substitute.antt =====
-- `substitute` of src/sema/type_store.cc: the type arguments of a declaration put in the place of
-- its binders. It is on fuel, and `none` is a run that is out of it. The arguments are valid ids.
pub mod Members
pub mod Parts
pub mod Refine
use mincplus.Prelude.{
  ℕ, zero, suc, Bool, true, false, not, ◌&&◌, ◌||◌, leb, ◌==◌, if◌then◌else◌, Option, none, some,
  List, [], ◌∷◌, length, get_elem?,
}
use mincplus.Sema.Store.{
  Shape, StoredType, Store, function_kind, pointer_kind, array_kind, slice_kind, tuple_kind,
  param_kind,
}
use mincplus.Sema.Store.Build.{array_of, slice_of, pointer_to, tuple_of, function_of}

-- What a substitution yields: an id or `kInvalidType`, and the store.
abbrev pub Outcome : Type 0
Outcome = Option (Option ℕ × Store)

abbrev pub Substitution : Type 0
Substitution = Store → ℕ → Outcome

-- What is built of a part that has been substituted.
abbrev pub then_build : Outcome → (Store → ℕ → Option ℕ × Store) → Outcome
then_build none build = none
then_build (some (none, store)) build = some (none, store)
then_build (some (some id, store)) build = some (build store id)

abbrev pub put_in_front : ℕ → Option (Option (List ℕ) × Store) → Option (Option (List ℕ) × Store)
put_in_front id none = none
put_in_front id (some (none, store)) = some (none, store)
put_in_front id (some (some ids, store)) = some (some (id ∷ ids), store)

-- The loop over the members, which ends at the first that is refused.
abbrev pub substitute_all : Substitution → Store → List ℕ → Option (Option (List ℕ) × Store)
substitute_all one store [] = some (some [], store)
substitute_all one store (id ∷ ids) = elim (one store id) [
  | none ↦ none
  | some r ↦ elim r.0 [
    | none ↦ some (none, r.1)
    | some replaced ↦ put_in_front replaced (substitute_all one r.1 ids)
  ]
]

abbrev pub then_tuple : Option (Option (List ℕ) × Store) → Outcome
then_tuple none = none
then_tuple (some (none, store)) = some (none, store)
then_tuple (some (some members, store)) = some (tuple_of store members)

abbrev pub then_function : Substitution → ℕ → Bool → Option (Option (List ℕ) × Store) → Outcome
then_function one returns variadic none = none
then_function one returns variadic (some (none, store)) = some (none, store)
then_function one returns variadic (some (some params, store)) =
    then_build (one store returns) (λ s r. function_of s r params variadic)

-- The `switch` over the kind.
abbrev pub rebuild : Substitution → List ℕ → ℕ → ℕ → Store → ℕ → Shape → Outcome
rebuild one args unit owner store subject s = elim s.kind [
  | param_kind ↦
      if not (s.unit == unit) || (not (s.owner == owner) || leb (length args) s.binder)
      then some (some subject, store)
      else some (get_elem? args s.binder, store)
  | pointer_kind ↦ then_build (one store s.pointee) pointer_to
  | array_kind ↦ then_build (one store s.pointee) (λ r id. array_of r id s.count)
  | slice_kind ↦ then_build (one store s.pointee) slice_of
  | tuple_kind ↦ then_tuple (substitute_all one store s.parts)
  | function_kind ↦ then_function one s.return_type s.variadic (substitute_all one store s.parts)
  | _ ↦ some (some subject, store)
]

unfoldable pub substitute : ℕ → List ℕ → ℕ → ℕ → Substitution
unfolding array_of slice_of pointer_to tuple_of function_of
substitute zero args unit owner store subject = none
substitute (suc fuel) args unit owner store subject = elim (get_elem? store.types subject) [
  | none ↦ some (some subject, store)
  | some t ↦ rebuild (substitute fuel args unit owner) args unit owner store subject t.shape
]
