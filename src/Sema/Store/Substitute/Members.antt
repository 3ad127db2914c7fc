-- ===== src/Sema/Store/Substitute/Members.antt =====
-- The types of which `substitute` (src/sema/type_store.cc) builds the ids.
use mincplus.Prelude.{ℕ, zero, suc, not, ◌||◌, leb, ◌==◌, if◌then◌else◌}
use Prim.Native.Nat.{max}
use mincplus.Sema.Types.{
  Ty, Tys, error, void, never, bool, char, str, int_literal, float_literal, int, float, pointer,
  array, slice, tuple, function, param, nil, cons,
}

abbrev pub nth : Tys → ℕ → Ty
nth nil i = error
nth (cons x xs) zero = x
nth (cons x xs) (suc i) = nth xs i

abbrev pub number_of : Tys → ℕ
number_of nil = 0
number_of (cons x xs) = suc (number_of xs)

-- A type with arguments for the binders of one declaration.
module _ (args : Tys) (unit owner : ℕ) where
  abbrev mutual
    pub replace : Ty → Ty
    replace (param u o b) =
        if not (u == unit) || (not (o == owner) || leb (number_of args) b)
        then param u o b
        else nth args b
    replace (pointer a) = pointer (replace a)
    replace (array a n) = array (replace a) n
    replace (slice a) = slice (replace a)
    replace (tuple xs) = tuple (replace_all xs)
    replace (function xs r v) = function (replace_all xs) (replace r) v
    replace error = error
    replace void = void
    replace never = never
    replace bool = bool
    replace char = char
    replace str = str
    replace int_literal = int_literal
    replace float_literal = float_literal
    replace (int s b) = int s b
    replace (float b) = float b

    pub replace_all : Tys → Tys
    replace_all nil = nil
    replace_all (cons x xs) = cons (replace x) (replace_all xs)

-- How deep a type is.
abbrev mutual
  pub depth : Ty → ℕ
  depth (pointer a) = suc (depth a)
  depth (array a n) = suc (depth a)
  depth (slice a) = suc (depth a)
  depth (tuple xs) = suc (depth_all xs)
  depth (function xs r v) = suc (max (depth_all xs) (depth r))
  depth (param u o b) = 1
  depth error = 1
  depth void = 1
  depth never = 1
  depth bool = 1
  depth char = 1
  depth str = 1
  depth int_literal = 1
  depth float_literal = 1
  depth (int s b) = 1
  depth (float b) = 1

  pub depth_all : Tys → ℕ
  depth_all nil = 0
  depth_all (cons x xs) = max (depth x) (depth_all xs)
