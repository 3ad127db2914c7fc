-- ===== src/Sema/Store/Refine.antt =====
-- The operations of the store (src/sema/type_store.cc) implement the types of Sema/Types.
use mincplus.Prelude.{ℕ, ◌≡◌, refl, List, map, ap, ◌∙◌}
use mincplus.Sema.Types.{
  Ty, Tys, error, void, never, bool, char, str, int_literal, float_literal, int, float, pointer,
  array, slice, tuple, function, param, nil, cons,
}
use mincplus.Sema.Layout.{Layout, layout, layouts, array_layout, tuple_layout}
use mincplus.Sema.Store.{
  Shape, Store, plain, layout_of, child_layout, bool_kind, str_kind, int_literal_kind,
  float_literal_kind, error_kind, void_kind, never_kind,
}
use mincplus.Sema.Store.Intern.{IsValid}
use mincplus.Sema.Store.Build.{
  int_shape, float_shape, char_shape, pointer_shape, array_shape, slice_shape, tuple_shape,
  function_shape, param_shape,
}
use mincplus.Sema.Store.Denote.{HasShape, Denotes, DenoteAll}

module _ (store : Store) (valid : IsValid store) where
  shape_layout :
      (s : Shape) (i : ℕ)
      → HasShape store s i
      → child_layout store.types i ≡ layout_of store.target store.types s
  shape_layout s i (t, at, same) =
      rw (child_layout, at) ((valid.3 i t at).0 ∙ ap (layout_of store.target store.types) same)

  mutual
    unfolding layout_of

    stored_layout :
        (t : Ty) (i : ℕ) → Denotes store t i → child_layout store.types i ≡ layout store.target t
    stored_layout error i h = shape_layout (plain error_kind) i h
    stored_layout void i h = shape_layout (plain void_kind) i h
    stored_layout never i h = shape_layout (plain never_kind) i h
    stored_layout bool i h = shape_layout (plain bool_kind) i h
    stored_layout char i h = shape_layout (char_shape store.target) i h
    stored_layout str i h = shape_layout (plain str_kind) i h
    stored_layout int_literal i h = shape_layout (plain int_literal_kind) i h
    stored_layout float_literal i h = shape_layout (plain float_literal_kind) i h
    stored_layout (int s b) i h = shape_layout (int_shape s b) i h
    stored_layout (float b) i h = shape_layout (float_shape b) i h
    stored_layout (param u o b) i h = shape_layout (param_shape u o b) i h
    stored_layout (pointer a) i (p, d, h) = shape_layout (pointer_shape p) i h
    stored_layout (slice a) i (p, d, h) = shape_layout (slice_shape p) i h
    stored_layout (function xs r v) i (ps, q, d, e, h) = shape_layout (function_shape ps q v) i h
    stored_layout (array a n) i (p, d, h) =
        shape_layout (array_shape p n) i h
        ∙ ap (λ (l : Layout). array_layout l n) (stored_layout a p d)
    stored_layout (tuple xs) i (ps, d, h) =
        shape_layout (tuple_shape ps) i h ∙ ap tuple_layout (stored_layouts xs ps d)

    stored_layouts :
        (xs : Tys) (ps : List ℕ)
        → DenoteAll store xs ps
        → map (child_layout store.types) ps ≡ layouts store.target xs
    stored_layouts nil ps h = ap (map (child_layout store.types)) h
    stored_layouts (cons x xs) ps (q, qs, e, d, h) =
        ap (map (child_layout store.types)) e
        ∙ rw (stored_layout x q d, stored_layouts xs qs h) refl

  -- In a valid store the layout that is stored with an id, made once of the layouts of its children,
  -- is the one that the recursion over the type gives for which the id stands.
  pub child_layout-layout :
      (t : Ty) (i : ℕ) → Denotes store t i → child_layout store.types i ≡ layout store.target t
  child_layout-layout t i h = stored_layout t i h
