-- ===== src/Sema/Store/Equality.antt =====
-- `equalFields` and `equalParts` of src/sema/type_store.cc decide equality.
use mincplus.Prelude.{
  ℕ, ◌≡◌, ◌∙◌, refl, ap, sym, Bool, true, false, List, [], ◌∷◌, some, none, get_elem?, arith, ◌↔◌,
  same_bytes_iff,
}
use mincplus.Sema.Types.{same_bool}
use mincplus.Sema.Store.{
  TypeKind, kind_code, Shape, equal_shape, error_kind, void_kind, never_kind, bool_kind, char_kind,
  int_kind, float_kind, str_kind, function_kind, pointer_kind, array_kind, slice_kind, tuple_kind,
  param_kind, int_literal_kind, float_literal_kind,
}

-- The kind of a number.
kinds : List TypeKind
kinds =
    error_kind ∷ void_kind ∷ never_kind ∷ bool_kind ∷ char_kind ∷ int_kind ∷ float_kind ∷ str_kind
    ∷ function_kind ∷ int_literal_kind ∷ float_literal_kind ∷ pointer_kind ∷ array_kind ∷ slice_kind
    ∷ tuple_kind ∷ param_kind ∷ []

kind_of : ℕ → TypeKind
unfolding kinds
kind_of n = elim (get_elem? kinds n) [ some k ↦ k | none ↦ error_kind ]

kind_of-kind_code : (k : TypeKind) → kind_of (kind_code k) ≡ k
unfolding kind_of kinds
kind_of-kind_code error_kind = refl
kind_of-kind_code void_kind = refl
kind_of-kind_code never_kind = refl
kind_of-kind_code bool_kind = refl
kind_of-kind_code char_kind = refl
kind_of-kind_code int_kind = refl
kind_of-kind_code float_kind = refl
kind_of-kind_code str_kind = refl
kind_of-kind_code function_kind = refl
kind_of-kind_code pointer_kind = refl
kind_of-kind_code array_kind = refl
kind_of-kind_code slice_kind = refl
kind_of-kind_code tuple_kind = refl
kind_of-kind_code param_kind = refl
kind_of-kind_code int_literal_kind = refl
kind_of-kind_code float_literal_kind = refl

same_kind : (k l : TypeKind) → kind_code k ≡ kind_code l → k ≡ l
same_kind k l e = sym (kind_of-kind_code k) ∙ ap kind_of e ∙ kind_of-kind_code l

same_bool_lem : (a b : Bool) → same_bool a b ≡ true → a ≡ b
unfolding same_bool
same_bool_lem true b h = ground arith
same_bool_lem false b h = ground arith

same_bool_refl : (a : Bool) → same_bool a a ≡ true
unfolding same_bool
same_bool_refl true = refl
same_bool_refl false = refl

equal_shape_sound : (a b : Shape) → equal_shape a b ≡ true → a ≡ b
equal_shape_sound a b h =
    let kind = same_kind a.kind b.kind (ground arith) in
    let signed = same_bool_lem a.is_signed b.is_signed (ground arith) in
    let variadic = same_bool_lem a.variadic b.variadic (ground arith) in
    let parts = (same_bytes_iff a.parts b.parts).0 (ground arith) in
    let bits : a.bits ≡ b.bits = ground arith in
    let pointee : a.pointee ≡ b.pointee = ground arith in
    let count : a.count ≡ b.count = ground arith in
    let returned : a.return_type ≡ b.return_type = ground arith in
    let name : a.name ≡ b.name = ground arith in
    let unit : a.unit ≡ b.unit = ground arith in
    let owner : a.owner ≡ b.owner = ground arith in
    let binder : a.binder ≡ b.binder = ground arith in
    λ i. record {
      kind = kind i;
      is_signed = signed i;
      bits = bits i;
      pointee = pointee i;
      count = count i;
      return_type = returned i;
      variadic = variadic i;
      name = name i;
      unit = unit i;
      owner = owner i;
      binder = binder i;
      parts = parts i;
    }

equal_shape_refl : (a : Shape) → equal_shape a a ≡ true
equal_shape_refl a = ground (
  arith,
  same_bool_refl a.is_signed,
  same_bool_refl a.variadic,
  (same_bytes_iff a.parts a.parts).1 refl,
)

pub equal_shape_iff : (a b : Shape) → (equal_shape a b ≡ true) ↔ (a ≡ b)
equal_shape_iff a b = (equal_shape_sound a b, λ e. rw e (equal_shape_refl b))
