-- ===== src/Sema/Store/Denote.antt =====
-- The types that ids stand for: the store (src/sema/type_store.cc) as a representation of the types
-- of Sema/Types.
use mincplus.Prelude.{ℕ, ◌≡◌, refl, some, List, [], ◌∷◌, get_elem?, sym, ◌∙◌}
use mincplus.Sema.Types.{
  Ty, Tys, error, void, never, bool, char, str, int_literal, float_literal, int, float, pointer,
  array, slice, tuple, function, param, nil, cons,
}
use mincplus.Sema.Store.{
  Shape, StoredType, Store, plain, bool_kind, str_kind, int_literal_kind, float_literal_kind,
  error_kind, void_kind, never_kind,
}
use mincplus.Sema.Store.Intern.{IsValid}
use mincplus.Sema.Store.Build.{
  int_shape, float_shape, char_shape, pointer_shape, array_shape, slice_shape, tuple_shape,
  function_shape, param_shape,
}

abbrev pub HasShape : Store → Shape → ℕ → Type 0
HasShape store s i = (t : StoredType) × (get_elem? store.types i ≡ some t) × (t.shape ≡ s)

-- `Denotes store t i`: the id `i` stands for the type `t`.
abbrev mutual
  pub Denotes : Store → Ty → ℕ → Type 0
  Denotes store error i = HasShape store (plain error_kind) i
  Denotes store void i = HasShape store (plain void_kind) i
  Denotes store never i = HasShape store (plain never_kind) i
  Denotes store bool i = HasShape store (plain bool_kind) i
  Denotes store char i = HasShape store (char_shape store.target) i
  Denotes store str i = HasShape store (plain str_kind) i
  Denotes store int_literal i = HasShape store (plain int_literal_kind) i
  Denotes store float_literal i = HasShape store (plain float_literal_kind) i
  Denotes store (int s b) i = HasShape store (int_shape s b) i
  Denotes store (float b) i = HasShape store (float_shape b) i
  Denotes store (pointer a) i = (p : ℕ) × Denotes store a p × HasShape store (pointer_shape p) i
  Denotes store (array a n) i = (p : ℕ) × Denotes store a p × HasShape store (array_shape p n) i
  Denotes store (slice a) i = (p : ℕ) × Denotes store a p × HasShape store (slice_shape p) i
  Denotes store (tuple xs) i =
      (ps : List ℕ) × DenoteAll store xs ps × HasShape store (tuple_shape ps) i
  Denotes store (function xs r v) i =
      (ps : List ℕ) × (q : ℕ) × DenoteAll store xs ps
      × Denotes store r q
      × HasShape store (function_shape ps q v) i
  Denotes store (param u o b) i = HasShape store (param_shape u o b) i

  pub DenoteAll : Store → Tys → List ℕ → Type 0
  DenoteAll store nil ps = ps ≡ []
  DenoteAll store (cons x xs) ps =
      (q : ℕ) × (qs : List ℕ) × (ps ≡ q ∷ qs) × Denotes store x q × DenoteAll store xs qs

module _ (store : Store) (valid : IsValid store) where
  one_id : (s : Shape) (i j : ℕ) → HasShape store s i → HasShape store s j → i ≡ j
  one_id s i j (a, at, same) (b, there, equal) = valid.1 i j a b at there (same ∙ sym equal)

  mutual
    same_id : (t : Ty) (i j : ℕ) → Denotes store t i → Denotes store t j → i ≡ j
    same_id error i j h k = one_id (plain error_kind) i j h k
    same_id void i j h k = one_id (plain void_kind) i j h k
    same_id never i j h k = one_id (plain never_kind) i j h k
    same_id bool i j h k = one_id (plain bool_kind) i j h k
    same_id char i j h k = one_id (char_shape store.target) i j h k
    same_id str i j h k = one_id (plain str_kind) i j h k
    same_id int_literal i j h k = one_id (plain int_literal_kind) i j h k
    same_id float_literal i j h k = one_id (plain float_literal_kind) i j h k
    same_id (int s b) i j h k = one_id (int_shape s b) i j h k
    same_id (float b) i j h k = one_id (float_shape b) i j h k
    same_id (param u o b) i j h k = one_id (param_shape u o b) i j h k
    same_id (pointer a) i j (p, d, h) (q, e, k) =
        one_id (pointer_shape p) i j h (rw (same_id a p q d e) k)
    same_id (array a n) i j (p, d, h) (q, e, k) =
        one_id (array_shape p n) i j h (rw (same_id a p q d e) k)
    same_id (slice a) i j (p, d, h) (q, e, k) =
        one_id (slice_shape p) i j h (rw (same_id a p q d e) k)
    same_id (tuple xs) i j (ps, d, h) (qs, e, k) =
        one_id (tuple_shape ps) i j h (rw (same_ids xs ps qs d e) k)
    same_id (function xs r v) i j (ps, p, d, f, h) (qs, q, e, g, k) =
        one_id (function_shape ps p v) i j h (rw (same_ids xs ps qs d e, same_id r p q f g) k)

    same_ids : (xs : Tys) (ps qs : List ℕ) → DenoteAll store xs ps → DenoteAll store xs qs → ps ≡ qs
    same_ids nil ps qs h k = h ∙ sym k
    same_ids (cons x xs) ps qs (p, ps', e, d, h) (q, qs', f, g, k) =
        e ∙ rw (same_id x p q d g, same_ids xs ps' qs' h k) refl ∙ sym f

  -- In a valid store two ids that stand for one type are the same.
  pub Denotes-unique : (t : Ty) (i j : ℕ) → Denotes store t i → Denotes store t j → i ≡ j
  Denotes-unique t i j h k = same_id t i j h k

  pub DenoteAll-unique :
      (xs : Tys) (ps qs : List ℕ) → DenoteAll store xs ps → DenoteAll store xs qs → ps ≡ qs
  DenoteAll-unique xs ps qs h k = same_ids xs ps qs h k
