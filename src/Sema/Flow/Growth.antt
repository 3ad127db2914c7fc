-- ===== src/Sema/Flow/Growth.antt =====
-- An expression only adds to what is assigned, and never takes back a report
-- (src/sema/check_flow.cc).
use mincplus.Prelude.{
  ℕ, zero, suc, ◌≡◌, refl, ◌∙◌, ap, Bool, true, false, ◌&&◌, not, Option, none, some, List, [], ◌∷◌,
  ◌++◌, length, get_elem?, get_or, set, length-set, arith, if_both, ◌≢◌,
}
use mincplus.Sema.Flow.{
  Def, Expr, absent, literal, in_error, path, paren, binary, conditional, assign, address, prefix,
  postfix, slice, index, operands, Exprs, Condition, no_condition, condition, AssignmentSet, Flow,
  intersect_with, store_target, can_be_unassigned, mark, mark_assigned, report_if_unassigned,
  merge_assigned, flow, flow_operands, flow_condition,
}
use mincplus.Sema.Flow.Paths.{Assigned}

abbrev pub Sub : AssignmentSet → AssignmentSet → Type 0
Sub a b = (d : ℕ) → Assigned a d → Assigned b d

-- All that the pass takes for assigned is, in a set with a place for each definition.
pub record Covers (a b : AssignmentSet) : Type 0 where
  pub size : length b ≡ length a
  pub sub : Sub a b

pub Covers-refl : (a : AssignmentSet) → Covers a a
Covers-refl a = record { size = refl; sub = λ d h. h }

pub Covers-trans : {a b c : AssignmentSet} → Covers a b → Covers b c → Covers a c
Covers-trans f g = record { size = g.size ∙ f.size; sub = λ d h. g.sub d (f.sub d h) }

-- Nothing was reported.
abbrev pub IsClean : Flow → Type 0
IsClean s = (s.errors ≡ []) × ((d : ℕ) → get_or s.reported d false ≡ false)

-- Between two states that both report nothing no definition was marked as reported.
abbrev pub Quiet : Flow → Flow → Type 0
Quiet s t = t.errors ≡ [] → (s.errors ≡ []) × (t.reported ≡ s.reported)

pub Quiet-trans : (s t u : Flow) → Quiet s t → Quiet t u → Quiet s u
Quiet-trans s t u f g e = let (h, r) = g e in let (h', r') = f h in (h', r ∙ r')

pub record Grows (s t : Flow) : Type 0 where
  pub assigned : Sub s.assigned t.assigned
  pub size : length t.assigned ≡ length s.assigned
  pub stack : t.break_stack ≡ s.break_stack
  pub clean : IsClean t → IsClean s
  pub quiet : Quiet s t

pub Grows-refl : (s : Flow) → Grows s s
Grows-refl s = record {
  assigned = λ d h. h;
  size = refl;
  stack = refl;
  clean = λ h. h;
  quiet = λ h. (h, refl);
}

pub Grows-trans : {s t u : Flow} → Grows s t → Grows t u → Grows s u
Grows-trans {s} {t} {u} g h = record {
  assigned = λ d a. h.assigned d (g.assigned d a);
  size = h.size ∙ g.size;
  stack = h.stack ∙ g.stack;
  clean = λ c. g.clean (h.clean c);
  quiet = Quiet-trans s t u g.quiet h.quiet;
}

set_keeps : (a : AssignmentSet) (d i : ℕ) → Assigned a i → Assigned (set a d true) i
set_keeps [] d i h = h
set_keeps (b ∷ a) zero zero h = refl
set_keeps (b ∷ a) zero (suc i) h = h
set_keeps (b ∷ a) (suc d) zero h = h
set_keeps (b ∷ a) (suc d) (suc i) h = set_keeps a d i h

pub mark_keeps : (d : Option ℕ) (a : AssignmentSet) → Sub a (mark d a)
mark_keeps none a i h = h
mark_keeps (some d) a i h = set_keeps a d i h

-- What a mark adds it adds to any larger set of the same size too.
set_mono :
    (a b : AssignmentSet) (d : ℕ)
    → Sub a b
    → length b ≡ length a
    → Sub (set a d true) (set b d true)
set_mono [] b d sub size i h = absurd (nothing h)
  where
    nothing : false ≡ true → ⊥
    nothing e = cc
set_mono (x ∷ a) [] d sub size i h = absurd (omega arith)
set_mono (x ∷ a) (y ∷ b) zero sub size zero h = refl
set_mono (x ∷ a) (y ∷ b) zero sub size (suc i) h = sub (suc i) h
set_mono (x ∷ a) (y ∷ b) (suc d) sub size zero h = sub 0 h
set_mono (x ∷ a) (y ∷ b) (suc d) sub size (suc i) h =
    set_mono a b d (λ j. sub (suc j)) (omega (arith, size)) i h

pub mark_mono :
    (d : Option ℕ) (a b : AssignmentSet) → Sub a b → length b ≡ length a → Sub (mark d a) (mark d b)
mark_mono none a b sub size = sub
mark_mono (some d) a b sub size = set_mono a b d sub size

pub mark_size : (d : Option ℕ) (a : AssignmentSet) → length (mark d a) ≡ length a
mark_size none a = refl
mark_size (some d) a = length-set a d true

-- `&&` on the shared part.
pub intersect_with-Assigned :
    (a b : AssignmentSet) (d : ℕ) → Assigned a d → Assigned b d → Assigned (intersect_with a b) d
unfolding intersect_with
intersect_with-Assigned [] b d h k = h
intersect_with-Assigned (x ∷ a) [] d h k = h
intersect_with-Assigned (x ∷ a) (y ∷ b) zero h k = ground (arith, h, k)
intersect_with-Assigned (x ∷ a) (y ∷ b) (suc d) h k = intersect_with-Assigned a b d h k

pub intersect_with-both :
    (a b : AssignmentSet)
    → length a ≡ length b
    → (d : ℕ) → Assigned (intersect_with a b) d
    → Assigned a d × Assigned b d
unfolding intersect_with
intersect_with-both [] b e d h = absurd (cc)
intersect_with-both (x ∷ a) [] e d h = absurd (omega arith)
intersect_with-both (x ∷ a) (y ∷ b) e zero h = ground (arith, h)
intersect_with-both (x ∷ a) (y ∷ b) e (suc d) h = intersect_with-both a b (omega (arith, e)) d h

pub intersect_with-size : (a b : AssignmentSet) → length (intersect_with a b) ≡ length a
unfolding intersect_with
intersect_with-size [] b = refl
intersect_with-size (x ∷ a) [] = refl
intersect_with-size (x ∷ a) (y ∷ b) = ap suc (intersect_with-size a b)

pub Grows-merge :
    {s t : Flow} (other : AssignmentSet)
    → Grows s t
    → Sub s.assigned other
    → Grows s (merge_assigned other t)
unfolding merge_assigned
Grows-merge {s} {t} other g sub = record {
  assigned = λ d h. intersect_with-Assigned t.assigned other d (g.assigned d h) (sub d h);
  size = intersect_with-size t.assigned other ∙ g.size;
  stack = g.stack;
  clean = g.clean;
  quiet = g.quiet;
}

pub Grows-mark : (place : Expr) (s : Flow) → Grows s (mark_assigned place s)
unfolding mark_assigned
Grows-mark place s = record {
  assigned = mark_keeps (store_target place) s.assigned;
  size = mark_size (store_target place) s.assigned;
  stack = refl;
  clean = λ h. h;
  quiet = λ h. (h, refl);
}

-- From the set that a flow began with.
pub Grows-reset :
    {s t : Flow} → Grows s t → {u : Flow} → Grows (record t { assigned = s.assigned }) u → Grows s u
Grows-reset {s} {t} g {u} h = record {
  assigned = h.assigned;
  size = h.size;
  stack = h.stack ∙ g.stack;
  clean = λ c. g.clean (h.clean c);
  quiet = Quiet-trans s t u g.quiet h.quiet;
}

pub append_not_empty : (xs : List ℕ) (x : ℕ) → xs ++ (x ∷ []) ≢ []
append_not_empty [] x h = cc
append_not_empty (y ∷ xs) x h = cc

pub report_if_unassigned-Grows :
    (defs : List Def) (d : ℕ) (s : Flow) → Grows s (report_if_unassigned defs d s)
unfolding report_if_unassigned
report_if_unassigned-Grows defs d s =
    if_both (Grows s) (not (can_be_unassigned (get_elem? defs d))) (Grows-refl s) (
      if_both (Grows s) (get_or s.assigned d false) (Grows-refl s) (
        if_both (Grows s) (get_or s.reported d false) (Grows-refl s) (record {
          assigned = λ i h. h;
          size = refl;
          stack = refl;
          clean = λ c. absurd (append_not_empty s.errors d (c.0));
          quiet = λ e. absurd (append_not_empty s.errors d e);
        })))

module _ (defs : List Def) where
  mutual
    unfolding flow

    expression-Grows : (store : Bool) (e : Expr) (s : Flow) → Grows s (flow defs store e s)
    expression-Grows store absent s = Grows-refl s
    expression-Grows store literal s = Grows-refl s
    expression-Grows store (in_error e) s = Grows-refl s
    expression-Grows store (path none) s = Grows-refl s
    expression-Grows true (path (some d)) s = Grows-refl s
    expression-Grows false (path (some d)) s = report_if_unassigned-Grows defs d s
    expression-Grows store (paren e) s = expression-Grows store e s
    expression-Grows store (binary true a b) s =
        let left = expression-Grows false a s in
        Grows-merge (flow defs false a s).assigned
          (Grows-trans left (expression-Grows false b (flow defs false a s))) (left.assigned)
    expression-Grows store (binary false a b) s =
        Grows-trans (expression-Grows false a s) (expression-Grows false b (flow defs false a s))
    expression-Grows store (conditional c a b) s =
        let after = flow defs false c s in
        let then_side = flow defs false a after in
        let then_grows = expression-Grows false a after in
        let first = expression-Grows false c s in
        Grows-merge then_side.assigned
          (Grows-trans first (
            Grows-reset then_grows
              (expression-Grows false b (record then_side { assigned = after.assigned }))))
          (λ d h. then_grows.assigned d (first.assigned d h))
    expression-Grows store (assign plain target value) s =
        let at_target = flow defs plain target s in
        Grows-trans (expression-Grows plain target s) (
          Grows-trans (expression-Grows false value at_target)
            (Grows-mark target (flow defs false value at_target)))
    expression-Grows store (address e) s = expression-Grows true e s
    expression-Grows store (prefix true e) s =
        Grows-trans (expression-Grows false e s) (Grows-mark e (flow defs false e s))
    expression-Grows store (prefix false e) s = expression-Grows false e s
    expression-Grows store (postfix e) s =
        Grows-trans (expression-Grows false e s) (Grows-mark e (flow defs false e s))
    expression-Grows store (slice base_is_array base begin end) s =
        let at_base = flow defs base_is_array base s in
        Grows-trans (expression-Grows base_is_array base s) (
          Grows-trans (expression-Grows false begin at_base)
            (expression-Grows false end (flow defs false begin at_base)))
    expression-Grows store (index base_is_array base i) s =
        Grows-trans (expression-Grows (store && base_is_array) base s)
          (expression-Grows false i (flow defs (store && base_is_array) base s))
    expression-Grows store (operands es) s = operands-Grows es s

    operands-Grows : (es : Exprs) (s : Flow) → Grows s (flow_operands defs es s)
    operands-Grows Exprs.nil s = Grows-refl s
    operands-Grows (Exprs.cons e es) s =
        Grows-trans (expression-Grows false e s) (operands-Grows es (flow defs false e s))

  -- An expression adds to what is assigned, and leaves the rest but the reports alone.
  pub flow-Grows : (store : Bool) (e : Expr) (s : Flow) → Grows s (flow defs store e s)
  flow-Grows store e s = expression-Grows store e s

  pub flow_operands-Grows : (es : Exprs) (s : Flow) → Grows s (flow_operands defs es s)
  flow_operands-Grows es s = operands-Grows es s

  pub flow_condition-Grows : (c : Condition) (s : Flow) → Grows s (flow_condition defs c s)
  flow_condition-Grows no_condition s = Grows-refl s
  flow_condition-Grows (condition e v) s = expression-Grows false e s
