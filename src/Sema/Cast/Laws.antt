-- ===== src/Sema/Cast/Laws.antt =====
-- `castResult` as a table: what an answer consists of, and which casts there are.
use mincplus.Prelude.{
  ℕ, ◌≡◌, ◌≢◌, ◌⊎◌, inl, inr, refl, Bool, true, false, ◌&&◌, ◌||◌, not, if_both, arith, none,
}
use mincplus.Sema.Types.{
  Ty, never, void, pointer, int, char, float, same, is_error, is_deferred, is_never, is_void,
  is_bool, is_float, is_function, is_array, is_slice,
}
use mincplus.Sema.Types.Equality.{same_refl}
use mincplus.Sema.Convert.{convertible, integer_side, float_side}
use mincplus.Sema.Convert.Relation.{
  Converts, from_error, to_error, here, from_never, forget, recall, integers, floats,
  convertible_iff,
}
use mincplus.Sema.Cast.{
  CastKind, CastResult, no_cast, cast_address, cast_number, cast_scalar, cast_object, cast_result,
  loss_none, accepted, refused, identity, bool_to_integer, integer_to_float, integer_to_bool,
  Refusal, into_never, void_source, void_target, bool_to_address, float_to_bool, address_to_bool,
  of_function, array_source, slice_source, aggregate_target, is_whole, is_address,
}

-- An answer is a cast without a sentence, or a refusal with one and without a loss.
abbrev pub IsAnswer : CastResult → Type 0
IsAnswer r =
    ((r.ok ≡ true) × (r.kind ≢ no_cast) × (r.message ≡ none))
    ⊎ ((r.ok ≡ false) × (r.kind ≡ no_cast) × (r.message ≢ none) × (r.loss ≡ loss_none))

kept : (c : CastKind) (l : ℕ) → c ≢ no_cast → IsAnswer (accepted c l)
kept c l h = inl (refl, h, refl)

says : (m : Refusal) → IsAnswer (refused m)
says m = inr (refl, refl, λ e. cc, refl)

address-IsAnswer : (p : ℕ) (from to : Ty) → IsAnswer (cast_address p from to)
unfolding cast_address
address-IsAnswer p from to = ground arith

number-IsAnswer : (p : ℕ) (from to : Ty) → IsAnswer (cast_number p from to)
unfolding cast_number
number-IsAnswer p from to = ground (arith, address-IsAnswer p from to)

scalar-IsAnswer : (p : ℕ) (from to : Ty) → IsAnswer (cast_scalar p from to)
unfolding cast_scalar
scalar-IsAnswer p from to =
    if_both IsAnswer (is_bool from && is_whole to) (kept bool_to_integer loss_none (λ e. cc)) (
      if_both IsAnswer (is_bool from && is_float to) (kept integer_to_float loss_none (λ e. cc)) (
        if_both IsAnswer (is_bool from && is_address to) (says bool_to_address) (
          if_both IsAnswer (is_bool to && is_whole from) (kept integer_to_bool loss_none (λ e. cc))
            (if_both IsAnswer (is_bool to && is_float from) (says float_to_bool) (
              if_both IsAnswer (is_bool to && is_address from) (says address_to_bool)
                (number-IsAnswer p from to))))))

object-IsAnswer : (p : ℕ) (from to : Ty) → IsAnswer (cast_object p from to)
unfolding cast_object
object-IsAnswer p from to =
    if_both IsAnswer (is_function from || is_function to) (says of_function) (
      if_both IsAnswer (is_array from) (says array_source) (
        if_both IsAnswer (is_slice from) (says slice_source) (
          if_both IsAnswer (is_array to || is_slice to) (says aggregate_target)
            (scalar-IsAnswer p from to))))

-- Between two types that are not the poison, `castResult` gives a cast with no sentence or refuses
-- with one, and then without a loss.
pub cast_result-IsAnswer :
    (p : ℕ) (from to : Ty)
    → is_error from ≡ false
    → is_error to ≡ false
    → IsAnswer (cast_result p from to)
unfolding cast_result
cast_result-IsAnswer p from to h k =
    rw (h, k)
      (if_both IsAnswer (same from to) unchanged (
        if_both IsAnswer (is_never from) unchanged (
          if_both IsAnswer (is_never to) (says into_never) (
            if_both IsAnswer (is_void from) (says void_source)
              (if_both IsAnswer (is_void to) (says void_target) (object-IsAnswer p from to))))))
  where
    unchanged : IsAnswer (accepted identity loss_none)
    unchanged = kept identity loss_none (λ e. cc)

-- The types whose values have a width: neither the poison nor an undecided literal.
abbrev pub decided : Ty → Bool
decided t = not (is_error t) && not (is_deferred t)

whole_cast :
    (p : ℕ) (a b : Ty)
    → decided a ≡ true
    → decided b ≡ true
    → integer_side a ≡ true
    → integer_side b ≡ true
    → (cast_result p a b).ok ≡ true
unfolding cast_result same
whole_cast p (int s b) (int t c) da db ha hb = ground arith
whole_cast p (int s b) char da db ha hb = ground arith
whole_cast p char (int s b) da db ha hb = ground arith
whole_cast p char char da db ha hb = refl
whole_cast p _ _ da db ha hb = absurd (ground arith)

float_cast :
    (p : ℕ) (a b : Ty)
    → decided a ≡ true
    → decided b ≡ true
    → float_side a ≡ true
    → float_side b ≡ true
    → (cast_result p a b).ok ≡ true
unfolding cast_result same
float_cast p (float b) (float c) da db ha hb = ground arith
float_cast p _ _ da db ha hb = absurd (ground arith)

pointer_cast : (p : ℕ) (a b : Ty) → (cast_result p (pointer a) (pointer b)).ok ≡ true
unfolding cast_result same
pointer_cast p a b = ground arith

self_cast : (p : ℕ) (a : Ty) → is_error a ≡ false → (cast_result p a a).ok ≡ true
unfolding cast_result
self_cast p a h = ground (arith, same_refl a)

never_cast : (p : ℕ) (b : Ty) → is_error b ≡ false → (cast_result p never b).ok ≡ true
unfolding cast_result same
never_cast p b h = ground arith

rule_cast :
    {a b : Ty} (p : ℕ)
    → Converts a b
    → decided a ≡ true
    → decided b ≡ true
    → (cast_result p a b).ok ≡ true
rule_cast p from_error da db = absurd (ground arith)
rule_cast p to_error da db = absurd (ground arith)
rule_cast p (here {a}) da db = self_cast p a (ground arith)
rule_cast p (from_never {b}) da db = never_cast p b (ground arith)
rule_cast p (forget {a}) da db = pointer_cast p a void
rule_cast p (recall {b}) da db = pointer_cast p void b
rule_cast p (integers {a} {b} h k) da db = whole_cast p a b da db h k
rule_cast p (floats {a} {b} h k) da db = float_cast p a b da db h k

-- What converts implicitly may also be written as a cast, on every target.
pub cast_result-convertible :
    (p : ℕ) (a b : Ty)
    → decided a ≡ true
    → decided b ≡ true
    → convertible a b ≡ true
    → (cast_result p a b).ok ≡ true
cast_result-convertible p a b da db h = rule_cast p ((convertible_iff a b).0 h) da db
