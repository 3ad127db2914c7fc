-- ===== src/Sema/Flow/Sound.antt =====
-- Where the pass of src/sema/check_flow.cc reports nothing, no path of an expression reads what is
-- not assigned.
use mincplus.Prelude.{
  ℕ, ◌≡◌, refl, sym, ◌∙◌, Bool, true, false, ◌&&◌, Option, none, some, List, [], ◌∷◌, ◌++◌, length,
  get_elem?, get_or, arith, Bool-cases, inl, inr,
}
use mincplus.Sema.Flow.{
  Def, Expr, absent, literal, in_error, path, paren, binary, conditional, assign, address, prefix,
  postfix, slice, index, operands, Exprs, Condition, no_condition, condition, AssignmentSet, Flow,
  store_target, can_be_unassigned, mark, mark_assigned, report_if_unassigned, merge_assigned,
  intersect_with, flow, flow_operands, flow_condition,
}
use mincplus.Sema.Flow.Paths.{MayRead, Post, Runs, RunsAll, RunsCondition}
use mincplus.Sema.Flow.Growth.{
  Covers, IsClean, mark_mono, mark_size, intersect_with-both, intersect_with-size, append_not_empty,
  report_if_unassigned-Grows, flow-Grows, flow_operands-Grows,
}

pub Covers-intersect :
    (a b c : AssignmentSet) → length a ≡ length b → Covers a c → Covers (intersect_with a b) c
Covers-intersect a b c size k = record {
  size = k.size ∙ sym (intersect_with-size a b);
  sub = λ d h. k.sub d ((intersect_with-both a b size d h).0);
}

pub Covers-intersect_right :
    (a b c : AssignmentSet) → length a ≡ length b → Covers b c → Covers (intersect_with a b) c
Covers-intersect_right a b c size k = record {
  size = k.size ∙ sym size ∙ sym (intersect_with-size a b);
  sub = λ d h. k.sub d ((intersect_with-both a b size d h).1);
}

pub Covers-mark : (d : Option ℕ) (a b : AssignmentSet) → Covers a b → Covers (mark d a) (mark d b)
Covers-mark d a b k = record {
  size = mark_size d b ∙ k.size ∙ sym (mark_size d a);
  sub = mark_mono d a b k.sub k.size;
}

-- What holds of every set that covers another.
abbrev pub Above : AssignmentSet → Post → Type 0
Above a P = (b : AssignmentSet) → Covers a b → P b

report_adds :
    (defs : List Def) (d : ℕ) (s : Flow)
    → can_be_unassigned (get_elem? defs d) ≡ true
    → get_or s.assigned d false ≡ false
    → get_or s.reported d false ≡ false
    → (report_if_unassigned defs d s).errors ≡ s.errors ++ (d ∷ [])
unfolding report_if_unassigned
report_adds defs d s can unassigned fresh = rw (can, unassigned, fresh) refl

read_sound :
    (defs : List Def) (d : ℕ) (s : Flow) (a : AssignmentSet)
    → IsClean (report_if_unassigned defs d s)
    → Covers s.assigned a
    → MayRead defs d a
read_sound defs d s a clean covers can = elim (Bool-cases (get_or s.assigned d false)) [
  | inl h ↦ covers.sub d h
  | inr no_value ↦
      let fresh = ((report_if_unassigned-Grows defs d s).clean clean).1 d in
      absurd (append_not_empty s.errors d (sym (report_adds defs d s can no_value fresh) ∙ clean.0))
]

report_keeps :
    (defs : List Def) (d : ℕ) (s : Flow) → (report_if_unassigned defs d s).assigned ≡ s.assigned
unfolding report_if_unassigned
report_keeps defs d s = ground arith

module _ (defs : List Def) where
  mutual
    unfolding flow Runs mark_assigned merge_assigned

    runs_sound :
        (store : Bool) (e : Expr) (P : Post) (s : Flow) (a : AssignmentSet)
        → IsClean (flow defs store e s)
        → Covers s.assigned a
        → Above (flow defs store e s).assigned P
        → Runs defs store e P a
    runs_sound store absent P s a clean covers above = above a covers
    runs_sound store literal P s a clean covers above = above a covers
    runs_sound store (in_error e) P s a clean covers above = above a covers
    runs_sound store (path none) P s a clean covers above = above a covers
    runs_sound true (path (some d)) P s a clean covers above = above a covers
    runs_sound false (path (some d)) P s a clean covers above =
        (read_sound defs d s a clean covers, above a (rw (report_keeps defs d s) covers))
    runs_sound store (paren e) P s a clean covers above =
        runs_sound store e P s a clean covers above
    runs_sound store (binary true l r) P s a clean covers above =
        let left = flow defs false l s in
        let grows = flow-Grows defs false r left in
        let right = flow defs false r left in
        runs_sound false l (λ b. P b × Runs defs false r P b) s a (grows.clean clean) covers
          λ b at_left. (
            above b (Covers-intersect_right right.assigned left.assigned b (grows.size) at_left),
            runs_sound false r P left b clean at_left (λ c at_right.
                above c (Covers-intersect right.assigned left.assigned c (grows.size) at_right)),
          )
    runs_sound store (binary false l r) P s a clean covers above =
        let left = flow defs false l s in
        runs_sound false l (Runs defs false r P) s a ((flow-Grows defs false r left).clean clean)
          covers λ b at_left. runs_sound false r P left b clean at_left above
    runs_sound store (conditional c l r) P s a clean covers above =
        let after = flow defs false c s in
        let then_side = flow defs false l after in
        let start : Flow = record then_side { assigned = after.assigned } in
        let other = flow defs false r start in
        let then_grows = flow-Grows defs false l after in
        let other_grows = flow-Grows defs false r start in
        let size = other_grows.size ∙ sym then_grows.size in
        let then_clean = other_grows.clean clean in
        runs_sound false c (λ b. Runs defs false l P b × Runs defs false r P b) s a
          (then_grows.clean then_clean) covers
          λ b at_condition. (
            runs_sound false l P after b then_clean at_condition (λ d at_then.
                above d (Covers-intersect_right other.assigned then_side.assigned d size at_then)),
            runs_sound false r P start b clean at_condition (λ d at_other.
                above d (Covers-intersect other.assigned then_side.assigned d size at_other)),
          )
    runs_sound store (assign plain target value) P s a clean covers above =
        let at_target = flow defs plain target s in
        let d = store_target target in
        runs_sound plain target (Runs defs false value (λ b. P (mark d b))) s a
          ((flow-Grows defs false value at_target).clean clean) covers
          λ b covered.
            runs_sound false value (λ b. P (mark d b)) at_target b clean covered
              λ c at_value.
                above (mark d c)
                  (Covers-mark d (flow defs false value at_target).assigned c at_value)
    runs_sound store (address e) P s a clean covers above =
        runs_sound true e P s a clean covers above
    runs_sound store (prefix true e) P s a clean covers above =
        let d = store_target e in
        runs_sound false e (λ b. P (mark d b)) s a clean covers
          λ b at_read. above (mark d b) (Covers-mark d (flow defs false e s).assigned b at_read)
    runs_sound store (prefix false e) P s a clean covers above =
        runs_sound false e P s a clean covers above
    runs_sound store (postfix e) P s a clean covers above =
        let d = store_target e in
        runs_sound false e (λ b. P (mark d b)) s a clean covers
          λ b at_read. above (mark d b) (Covers-mark d (flow defs false e s).assigned b at_read)
    runs_sound store (slice base_is_array base begin end) P s a clean covers above =
        let at_base = flow defs base_is_array base s in
        let at_begin = flow defs false begin at_base in
        let begin_clean = (flow-Grows defs false end at_begin).clean clean in
        runs_sound base_is_array base (Runs defs false begin (Runs defs false end P)) s a
          ((flow-Grows defs false begin at_base).clean begin_clean) covers
          λ b covered.
            runs_sound false begin (Runs defs false end P) at_base b begin_clean covered
              λ c at_end. runs_sound false end P at_begin c clean at_end above
    runs_sound store (index base_is_array base i) P s a clean covers above =
        let at_base = flow defs (store && base_is_array) base s in
        runs_sound (store && base_is_array) base (Runs defs false i P) s a
          ((flow-Grows defs false i at_base).clean clean) covers
          λ b covered. runs_sound false i P at_base b clean covered above
    runs_sound store (operands es) P s a clean covers above =
        runs_all_sound es P s a clean covers above

    runs_all_sound :
        (es : Exprs) (P : Post) (s : Flow) (a : AssignmentSet)
        → IsClean (flow_operands defs es s)
        → Covers s.assigned a
        → Above (flow_operands defs es s).assigned P
        → RunsAll defs es P a
    runs_all_sound Exprs.nil P s a clean covers above = above a covers
    runs_all_sound (Exprs.cons e es) P s a clean covers above =
        let at_first = flow defs false e s in
        runs_sound false e (RunsAll defs es P) s a
          ((flow_operands-Grows defs es at_first).clean clean) covers
          λ b covered. runs_all_sound es P at_first b clean covered above

  -- Where the pass reports nothing over an expression, every path of it reads only what is assigned,
  -- and leaves what the pass takes for assigned.
  pub flow-Runs :
      (store : Bool) (e : Expr) (P : Post) (s : Flow) (a : AssignmentSet)
      → IsClean (flow defs store e s)
      → Covers s.assigned a
      → Above (flow defs store e s).assigned P
      → Runs defs store e P a
  flow-Runs store e P s a clean covers above = runs_sound store e P s a clean covers above

  pub flow_condition-Runs :
      (c : Condition) (P : Post) (s : Flow) (a : AssignmentSet)
      → IsClean (flow_condition defs c s)
      → Covers s.assigned a
      → Above (flow_condition defs c s).assigned P
      → RunsCondition defs c P a
  flow_condition-Runs no_condition P s a clean covers above = above a covers
  flow_condition-Runs (condition e v) P s a clean covers above =
      runs_sound false e P s a clean covers above
