-- ===== src/Sema/Types/Equality.antt =====
-- `same` decides equality of types.
use mincplus.Prelude.{◌≡◌, ◌↔◌, refl, Bool, true, ◌&&◌, and_parts, ==_iff, arith, ◌==◌}
use mincplus.Sema.Types.{
  Ty, Tys, error, void, never, bool, char, str, int_literal, float_literal, int, float, pointer,
  array, slice, tuple, function, param, nil, cons, same, same_all, same_bool,
}

pub same_bool_iff : (b c : Bool) → (same_bool b c ≡ true) ↔ (b ≡ c)
unfolding same_bool
same_bool_iff b c = ground arith

pub same_bool_refl : (b : Bool) → same_bool b b ≡ true
unfolding same_bool
same_bool_refl b = ground arith

mutual
  unfolding same

  same_self : (t : Ty) → same t t ≡ true
  same_self error = refl
  same_self void = refl
  same_self never = refl
  same_self bool = refl
  same_self char = refl
  same_self str = refl
  same_self int_literal = refl
  same_self float_literal = refl
  same_self (int s b) = ground (arith, same_bool_refl s)
  same_self (float b) = ground arith
  same_self (pointer a) = same_self a
  same_self (array a n) = ground (arith, same_self a)
  same_self (slice a) = same_self a
  same_self (tuple xs) = same_all_self xs
  same_self (function xs r v) = ground (arith, same_all_self xs, same_self r, same_bool_refl v)
  same_self (param u o b) = ground arith

  same_all_self : (xs : Tys) → same_all xs xs ≡ true
  same_all_self nil = refl
  same_all_self (cons x xs) = ground (arith, same_self x, same_all_self xs)

mutual
  unfolding same

  same_eq : (t u : Ty) → same t u ≡ true → t ≡ u
  same_eq (int s b) (int t c) h = ground (arith, (same_bool_iff s t).0)
  same_eq (pointer a) (pointer b) h = cc (same_eq a b h)
  same_eq (array a m) (array b n) h =
      let (ha, hn) = and_parts (same a b) (m == n) h in cc (same_eq a b ha, (==_iff m n).0 hn)
  same_eq (slice a) (slice b) h = cc (same_eq a b h)
  same_eq (tuple xs) (tuple ys) h = cc (same_all_eq xs ys h)
  same_eq (function xs r v) (function ys s w) h =
      let (hx, rest) = and_parts (same_all xs ys) (same r s && same_bool v w) h in
      let (hr, hv) = and_parts (same r s) (same_bool v w) rest in
      cc (same_all_eq xs ys hx, same_eq r s hr, (same_bool_iff v w).0 hv)
  same_eq error error h = refl
  same_eq void void h = refl
  same_eq never never h = refl
  same_eq bool bool h = refl
  same_eq char char h = refl
  same_eq str str h = refl
  same_eq int_literal int_literal h = refl
  same_eq float_literal float_literal h = refl
  same_eq (float b) (float c) h = ground arith
  same_eq (param u o b) (param v p c) h = ground arith
  same_eq _ _ h = cc

  same_all_eq : (xs ys : Tys) → same_all xs ys ≡ true → xs ≡ ys
  same_all_eq (cons x xs) (cons y ys) h =
      let (hx, hs) = and_parts (same x y) (same_all xs ys) h in
      cc (same_eq x y hx, same_all_eq xs ys hs)
  same_all_eq nil nil h = refl
  same_all_eq _ _ h = cc

pub same_refl : (t : Ty) → same t t ≡ true
same_refl t = same_self t

-- Two ids are one exactly where the types are equal.
pub same_iff : (t u : Ty) → (same t u ≡ true) ↔ (t ≡ u)
same_iff t u = (same_eq t u, λ e. rw (← e) (same_self t))

same_comm_eq : (b c : Bool) → ((b ≡ true) ↔ (c ≡ true)) → b ≡ c
same_comm_eq b c h = ground arith

pub same_comm : (t u : Ty) → same t u ≡ same u t
same_comm t u =
    same_comm_eq _ _ (λ h. rw (same_eq t u h) (same_self u), λ h. rw (same_eq u t h) (same_self t))
