-- ===== src/Sema/Store/Substitute/Refine.antt =====
-- `substitute` (src/sema/type_store.cc) builds the type with the arguments in the binders' place.
use mincplus.Prelude.{
  ℕ, zero, suc, ◌≤◌, ◌≡◌, refl, not, ◌||◌, leb, ◌==◌, Option, some, List, [], length, arith, ap,
  sym, ◌∙◌, Bool-cases, subst, inl, inr,
}
use mincplus.Sema.Types.{
  Ty, Tys, error, void, never, bool, char, str, int_literal, float_literal, int, float, pointer,
  array, slice, tuple, function, param, nil, cons,
}
use mincplus.Sema.Store.{Shape, Store}
use mincplus.Sema.Store.Build.{
  pointer_shape, array_shape, slice_shape, tuple_shape, function_shape, param_shape, array_of,
  slice_of, pointer_to,
}
use mincplus.Sema.Store.Denote.{HasShape, Denotes, DenoteAll}
use mincplus.Sema.Store.Operations.{
  pointer_to-Denotes, array_of-Denotes, slice_of-Denotes, pointer_to-Keeps, array_of-Keeps,
  slice_of-Keeps, DenoteAll-Keeps,
}
use mincplus.Sema.Store.Substitute.{substitute_all, rebuild, substitute}
use mincplus.Sema.Store.Substitute.Members.{nth, replace, replace_all, depth, depth_all}
use mincplus.Sema.Store.Substitute.Parts.{
  Good, GoodAll, read_shape, then_build-Good, nth-Denotes, length-DenoteAll, then_tuple-Good,
  then_function-Good, first_then, depth_positive,
}

module _ (args : Tys) (unit owner : ℕ) (ids : List ℕ) where
  leaf-Good :
      (fuel : ℕ) (store : Store) (s : Shape) (t : Ty) (i : ℕ)
      → HasShape store s i
      → rebuild (substitute fuel ids unit owner) ids unit owner store i s ≡ some (some i, store)
      → Denotes store t i
      → Good store t (substitute (suc fuel) ids unit owner store i)
  leaf-Good fuel store s t i h e d = (
    (some i, store),
    read_shape unit owner fuel ids store s i h ∙ e,
    (λ u k x. x),
    λ j eq. (let one : i ≡ j = cc in subst (Denotes store t) one d),
  )

  param-Good :
      (fuel : ℕ) (store : Store) (u o b i : ℕ)
      → DenoteAll store args ids
      → HasShape store (param_shape u o b) i
      → Good store
          (replace args unit owner (param u o b))
          (substitute (suc fuel) ids unit owner store i)
  param-Good fuel store u o b i all h =
      elim (Bool-cases (not (u == unit) || (not (o == owner) || leb (length ids) b))) [
        | inl other ↦
            let kept : replace args unit owner (param u o b) ≡ param u o b =
              rw (sym (length-DenoteAll store args ids all), other) refl in
            subst (λ t. Good store t (substitute (suc fuel) ids unit owner store i)) (sym kept)
              (leaf-Good fuel store (param_shape u o b) (param u o b) i h (rw other refl) h)
        | inr own ↦
            let (p, at, d) =
              nth-Denotes store args ids b all
                (ground (arith, length-DenoteAll store args ids all, own)) in
            let replaced : replace args unit owner (param u o b) ≡ nth args b =
              rw (sym (length-DenoteAll store args ids all), own) refl in
            subst (λ t. Good store t (substitute (suc fuel) ids unit owner store i)) (sym replaced)
              (
                (some p, store),
                read_shape unit owner fuel ids store (param_shape u o b) i h ∙ rw (own, at) refl,
                (λ t k x. x),
                λ j eq. (let one : p ≡ j = cc in subst (Denotes store (nth args b)) one d),
              )
      ]

  Good-read :
      (fuel : ℕ) (store : Store) (s : Shape) (t : Ty) (i : ℕ)
      → HasShape store s i
      → Good store t (rebuild (substitute fuel ids unit owner) ids unit owner store i s)
      → Good store t (substitute (suc fuel) ids unit owner store i)
  Good-read fuel store s t i h g =
      subst (Good store t) (sym (read_shape unit owner fuel ids store s i h)) g

  mutual
    pub substitute-Good :
        (t : Ty) (fuel : ℕ) (store : Store) (i : ℕ)
        → depth t ≤ fuel
        → DenoteAll store args ids
        → Denotes store t i
        → Good store (replace args unit owner t) (substitute fuel ids unit owner store i)
    substitute-Good t zero store i h all d = absurd (omega (arith, depth_positive t, h))
    substitute-Good error (suc f) store i h all d = leaf-Good f store _ error i d refl d
    substitute-Good void (suc f) store i h all d = leaf-Good f store _ void i d refl d
    substitute-Good never (suc f) store i h all d = leaf-Good f store _ never i d refl d
    substitute-Good bool (suc f) store i h all d = leaf-Good f store _ bool i d refl d
    substitute-Good char (suc f) store i h all d = leaf-Good f store _ char i d refl d
    substitute-Good str (suc f) store i h all d = leaf-Good f store _ str i d refl d
    substitute-Good int_literal (suc f) store i h all d = leaf-Good f store _ int_literal i d refl d
    substitute-Good float_literal (suc f) store i h all d =
        leaf-Good f store _ float_literal i d refl d
    substitute-Good (int s b) (suc f) store i h all d = leaf-Good f store _ (int s b) i d refl d
    substitute-Good (float b) (suc f) store i h all d = leaf-Good f store _ (float b) i d refl d
    substitute-Good (param u o b) (suc f) store i h all d = param-Good f store u o b i all d
    substitute-Good (pointer a) (suc f) store i h all (p, d, s) =
        Good-read f store (pointer_shape p) (replace args unit owner (pointer a)) i s (
          then_build-Good store (replace args unit owner a) (pointer (replace args unit owner a)) _
            pointer_to (substitute-Good a f store p (omega arith) all d) pointer_to-Keeps
            (λ u q j k e. pointer_to-Denotes u (replace args unit owner a) q j e))
    substitute-Good (array a n) (suc f) store i h all (p, d, s) =
        Good-read f store (array_shape p n) (replace args unit owner (array a n)) i s (
          then_build-Good store (replace args unit owner a) (array (replace args unit owner a) n) _
            (λ u q. array_of u q n) (substitute-Good a f store p (omega arith) all d)
            (λ u q. array_of-Keeps u q n)
            (λ u q j k e. array_of-Denotes u (replace args unit owner a) q n j e))
    substitute-Good (slice a) (suc f) store i h all (p, d, s) =
        Good-read f store (slice_shape p) (replace args unit owner (slice a)) i s (
          then_build-Good store (replace args unit owner a) (slice (replace args unit owner a)) _
            slice_of (substitute-Good a f store p (omega arith) all d) slice_of-Keeps
            (λ u q j k e. slice_of-Denotes u (replace args unit owner a) q j e))
    substitute-Good (tuple xs) (suc f) store i h all (ps, d, s) =
        Good-read f store (tuple_shape ps) (replace args unit owner (tuple xs)) i s (
          then_tuple-Good store (replace_all args unit owner xs) _
            (substitute_all-GoodAll xs f store ps (omega arith) all d))
    substitute-Good (function xs r v) (suc f) store i h all (ps, q, d, e, s) =
        Good-read f store (function_shape ps q v) (replace args unit owner (function xs r v)) i s (
          then_function-Good (substitute f ids unit owner) store (replace_all args unit owner xs)
            (replace args unit owner r) q v _
            (substitute_all-GoodAll xs f store ps (omega arith) all d)
            (λ u k.
              substitute-Good r f u q (omega arith) (DenoteAll-Keeps store u args ids k all)
                (k r q e)))

    pub substitute_all-GoodAll :
        (xs : Tys) (fuel : ℕ) (store : Store) (ps : List ℕ)
        → depth_all xs ≤ fuel
        → DenoteAll store args ids
        → DenoteAll store xs ps
        → GoodAll store
            (replace_all args unit owner xs)
            (substitute_all (substitute fuel ids unit owner) store ps)
    substitute_all-GoodAll nil fuel store ps h all d =
        ((some [], store), rw d refl, (λ t i k. k), λ js e. cc)
    substitute_all-GoodAll (cons x xs) fuel store ps h all (q, qs, e, d, rest) = rw e (
        first_then (substitute fuel ids unit owner) store (replace args unit owner x)
          (replace_all args unit owner xs) q qs (substitute-Good x fuel store q (omega arith) all d)
          (λ s k.
            substitute_all-GoodAll xs fuel s qs (omega arith)
              (DenoteAll-Keeps store s args ids k all) (DenoteAll-Keeps store s xs qs k rest)))

  -- A substitution ends within fuel for the depth of the type that its subject stands for, when the
  -- arguments stand for types.
  pub substitute-enough_fuel :
      (t : Ty) (fuel : ℕ) (store : Store) (i : ℕ)
      → depth t ≤ fuel
      → DenoteAll store args ids
      → Denotes store t i
      → (r : Option ℕ × Store) × (substitute fuel ids unit owner store i ≡ some r)
  substitute-enough_fuel t fuel store i h all d =
      let (r, e, keeps, good) = substitute-Good t fuel store i h all d in (r, e)

  -- With such fuel the id that a substitution yields stands, in the store that it leaves, for the
  -- type with the arguments in the place of the declaration's binders.
  pub substitute-Denotes :
      (t : Ty) (fuel : ℕ) (store next : Store) (i j : ℕ)
      → depth t ≤ fuel
      → DenoteAll store args ids
      → Denotes store t i
      → substitute fuel ids unit owner store i ≡ some (some j, next)
      → Denotes next (replace args unit owner t) j
  substitute-Denotes t fuel store next i j h all d yields =
      let (r, e, keeps, good) = substitute-Good t fuel store i h all d in
      let same : r ≡ (some j, next) = some_path r (some j, next) (sym e ∙ yields) in
      subst (λ (s : Store). Denotes s (replace args unit owner t) j)
        (ap (λ (p : Option ℕ × Store). p.1) same) (good j (ap (λ (p : Option ℕ × Store). p.0) same))
    where
      some_path : (a b : Option ℕ × Store) → some a ≡ some b → a ≡ b
      some_path a b k = cc
