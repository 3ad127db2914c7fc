-- ===== src/Sema/Store/Substitute/Parts.antt =====
-- The steps of `substitute` (src/sema/type_store.cc), each with what it yields.
use mincplus.Prelude.{
  ℕ, zero, suc, ◌≤◌, ◌<◌, ◌≡◌, refl, Bool, Option, none, some, List, ◌∷◌, length, get_elem?, arith,
  ap,
}
use mincplus.Sema.Types.{
  Ty, Tys, error, void, never, bool, char, str, int_literal, float_literal, int, float, pointer,
  array, slice, tuple, function, param, nil, cons,
}
use mincplus.Sema.Store.{Shape, Store}
use mincplus.Sema.Store.Build.{tuple_of, function_of}
use mincplus.Sema.Store.Denote.{HasShape, Denotes, DenoteAll}
use mincplus.Sema.Store.Operations.{
  Keeps, tuple_of-Denotes, function_of-Denotes, tuple_of-Keeps, function_of-Keeps, DenoteAll-Keeps,
}
use mincplus.Sema.Store.Substitute.{
  Outcome, Substitution, then_build, put_in_front, substitute_all, then_tuple, then_function,
  rebuild, substitute,
}
use mincplus.Sema.Store.Substitute.Members.{nth, number_of, depth}

-- A run that ends in a store that keeps what stood for a type, and whose id stands for a type.
abbrev pub Good : Store → Ty → Outcome → Type 0
Good store t o =
    (r : Option ℕ × Store) × (o ≡ some r)
    × Keeps store r.1
    × ((j : ℕ) → r.0 ≡ some j → Denotes r.1 t j)

abbrev pub GoodAll : Store → Tys → Option (Option (List ℕ) × Store) → Type 0
GoodAll store xs o =
    (r : Option (List ℕ) × Store) × (o ≡ some r)
    × Keeps store r.1
    × ((js : List ℕ) → r.0 ≡ some js → DenoteAll r.1 xs js)

pub then_build-Good :
    (store : Store) (a t : Ty) (o : Outcome) (build : Store → ℕ → Option ℕ × Store)
    → Good store a o
    → ((s : Store) (q : ℕ) → Keeps s (build s q).1)
    → ((s : Store) (q j : ℕ)
        → Keeps store s
        → Denotes s a q
        → (build s q).0 ≡ some j
        → Denotes (build s q).1 t j)
    → Good store t (then_build o build)
then_build-Good store a t o build ((none, s), e, keeps, good) kept made =
    ((none, s), rw e refl, keeps, λ j h. cc)
then_build-Good store a t o build ((some q, s), e, keeps, good) kept made = (
  build s q,
  rw e refl,
  (λ u i d. kept s q u i (keeps u i d)),
  λ j h. made s q j keeps (good q refl) h,
)

-- The binder that an argument stands for.
pub nth-Denotes :
    (store : Store) (args : Tys) (ps : List ℕ) (b : ℕ)
    → DenoteAll store args ps
    → b < number_of args
    → (p : ℕ) × (get_elem? ps b ≡ some p) × Denotes store (nth args b) p
nth-Denotes store nil ps b e h = absurd (omega arith)
nth-Denotes store (cons x xs) ps zero (q, qs, e, d, all) h = (q, rw e refl, d)
nth-Denotes store (cons x xs) ps (suc b) (q, qs, e, d, all) h =
    let (p, at, dp) = nth-Denotes store xs qs b all (omega arith) in (p, rw e at, dp)

pub length-DenoteAll :
    (store : Store) (args : Tys) (ps : List ℕ)
    → DenoteAll store args ps
    → length ps ≡ number_of args
length-DenoteAll store nil ps e = rw e refl
length-DenoteAll store (cons x xs) ps (q, qs, e, d, all) =
    rw (e, length-DenoteAll store xs qs all) refl

module _ (unit owner : ℕ) (fuel : ℕ) (ids : List ℕ) (store : Store) where
  pub read_shape :
      (s : Shape) (i : ℕ)
      → HasShape store s i
      → substitute (suc fuel) ids unit owner store i
        ≡ rebuild (substitute fuel ids unit owner) ids unit owner store i s
  unfolding substitute
  read_shape s i (t, at, same) =
      rw (substitute, at)
        (ap (rebuild (substitute fuel ids unit owner) ids unit owner store i) same)

pub put_in_front-GoodAll :
    (store s : Store) (x : Ty) (xs : Tys) (p : ℕ) (o : Option (Option (List ℕ) × Store))
    → Keeps store s
    → Denotes s x p
    → GoodAll s xs o
    → GoodAll store (cons x xs) (put_in_front p o)
put_in_front-GoodAll store s x xs p o k d ((none, u), e, keeps, good) =
    ((none, u), rw e refl, (λ t i h. keeps t i (k t i h)), λ js h. cc)
put_in_front-GoodAll store s x xs p o k d ((some qs, u), e, keeps, good) = (
  (some (p ∷ qs), u),
  rw e refl,
  (λ t i h. keeps t i (k t i h)),
  λ js h. (p, qs, cc, keeps x p d, good qs refl),
)

pub then_tuple-Good :
    (store : Store) (xs : Tys) (o : Option (Option (List ℕ) × Store))
    → GoodAll store xs o
    → Good store (tuple xs) (then_tuple o)
then_tuple-Good store xs o ((none, u), e, keeps, good) = ((none, u), rw e refl, keeps, λ j h. cc)
then_tuple-Good store xs o ((some qs, u), e, keeps, good) = (
  tuple_of u qs,
  rw e refl,
  (λ t i h. tuple_of-Keeps u qs t i (keeps t i h)),
  λ j h. tuple_of-Denotes u xs qs j (good qs refl) h,
)

pub then_function-Good :
    (one : Substitution) (store : Store) (xs : Tys) (r : Ty) (q : ℕ) (v : Bool)
    (o : Option (Option (List ℕ) × Store))
    → GoodAll store xs o
    → ((s : Store) → Keeps store s → Good s r (one s q))
    → Good store (function xs r v) (then_function one q v o)
then_function-Good one store xs r q v o ((none, u), e, keeps, good) returned =
    ((none, u), rw e refl, keeps, λ j h. cc)
then_function-Good one store xs r q v o ((some qs, u), e, keeps, good) returned =
    let (last, f, kept, made) =
      then_build-Good u r (function xs r v) (one u q) (λ s p. function_of s p qs v)
        (returned u keeps) (λ s p. function_of-Keeps s p qs v)
        (λ s p j k d h.
          function_of-Denotes s xs qs r p v j (DenoteAll-Keeps u s xs qs k (good qs refl)) d h) in
    (last, rw e f, (λ t i h. kept t i (keeps t i h)), made)

-- The first member, and then the others.
pub first_then :
    (one : Substitution) (store : Store) (x : Ty) (xs : Tys) (q : ℕ) (qs : List ℕ)
    → Good store x (one store q)
    → ((s : Store) → Keeps store s → GoodAll s xs (substitute_all one s qs))
    → GoodAll store (cons x xs) (substitute_all one store (q ∷ qs))
first_then one store x xs q qs ((none, s), e, keeps, good) rest =
    ((none, s), rw (substitute_all, e) refl, keeps, λ js h. cc)
first_then one store x xs q qs ((some p, s), e, keeps, good) rest =
    rw (substitute_all, e)
      (put_in_front-GoodAll store s x xs p (substitute_all one s qs) keeps (good p refl)
        (rest s keeps))

pub depth_positive : (t : Ty) → 1 ≤ depth t
depth_positive error = omega arith
depth_positive void = omega arith
depth_positive never = omega arith
depth_positive bool = omega arith
depth_positive char = omega arith
depth_positive str = omega arith
depth_positive int_literal = omega arith
depth_positive float_literal = omega arith
depth_positive (int s b) = omega arith
depth_positive (float b) = omega arith
depth_positive (pointer a) = omega arith
depth_positive (array a n) = omega arith
depth_positive (slice a) = omega arith
depth_positive (tuple xs) = omega arith
depth_positive (function xs r v) = omega arith
depth_positive (param u o b) = omega arith
