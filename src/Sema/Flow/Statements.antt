-- ===== src/Sema/Flow/Statements.antt =====
-- A statement only adds to what is assigned, and what it records at a break covers where it began
-- (src/sema/check_flow.cc).
use mincplus.Prelude.{ℕ, ◌≡◌, refl, sym, ◌∙◌, subst, false, Option, none, some, List, [], ◌∷◌, All}
use mincplus.Sema.Flow.{
  Def, Condition, Stmt, no_stmt, empty_stmt, break_stmt, continue_stmt, bind, return_stmt,
  expr_stmt, block, if_stmt, while_stmt, for_stmt, no_else, else_stmt, Stmts, AssignmentSet, Flow,
  mark, mark_all, merge_assigned, flow, flow_condition, push_breaks, top_breaks, pop_breaks,
  leave_loop, flow_statement, flow_statements,
}
use mincplus.Sema.Flow.Growth.{
  Covers, Covers-refl, Covers-trans, IsClean, Quiet, Quiet-trans, Grows, mark_keeps, mark_size,
  intersect_with-Assigned, intersect_with-size, flow-Grows, flow_condition-Grows,
}
use mincplus.Sema.Flow.Breaks.{
  BreaksGrow, BreaksGrow-refl, BreaksGrow-trans, BreaksGrow-add, loop_exit-Covers,
}

pub record Extends (s t : Flow) : Type 0 where
  pub covers : Covers s.assigned t.assigned
  pub breaks : BreaksGrow s.assigned s.break_stack t.break_stack
  pub clean : IsClean t → IsClean s
  pub quiet : Quiet s t

pub Extends-refl : (s : Flow) → Extends s s
Extends-refl s = record {
  covers = Covers-refl s.assigned;
  breaks = BreaksGrow-refl s.assigned s.break_stack;
  clean = λ h. h;
  quiet = λ h. (h, refl);
}

pub Extends-trans : {s t u : Flow} → Extends s t → Extends t u → Extends s u
Extends-trans {s} {t} {u} f g = record {
  covers = Covers-trans f.covers g.covers;
  breaks =
      BreaksGrow-trans s.assigned t.assigned s.break_stack t.break_stack u.break_stack f.covers
        f.breaks g.breaks;
  clean = λ h. f.clean (g.clean h);
  quiet = Quiet-trans s t u f.quiet g.quiet;
}

pub Extends-of_Grows : {s t : Flow} → Grows s t → Extends s t
Extends-of_Grows {s} {t} g = record {
  covers = record { size = g.size; sub = g.assigned };
  breaks =
      subst (BreaksGrow s.assigned s.break_stack) (sym g.stack)
        (BreaksGrow-refl s.assigned s.break_stack);
  clean = g.clean;
  quiet = g.quiet;
}

pub mark_all-Covers : (ds : List (Option ℕ)) (a : AssignmentSet) → Covers a (mark_all ds a)
mark_all-Covers [] a = Covers-refl a
mark_all-Covers (d ∷ ds) a =
    Covers-trans (record { size = mark_size d a; sub = mark_keeps d a })
      (mark_all-Covers ds (mark d a))

-- From the set that a statement began with.
Extends-reset :
    {s t u : Flow} → Extends s t → Extends (record t { assigned = s.assigned }) u → Extends s u
Extends-reset {s} {t} {u} f g = record {
  covers = g.covers;
  breaks =
      BreaksGrow-trans s.assigned s.assigned s.break_stack t.break_stack u.break_stack
        (Covers-refl s.assigned) f.breaks g.breaks;
  clean = λ h. f.clean (g.clean h);
  quiet = Quiet-trans s t u f.quiet g.quiet;
}

Extends-merge :
    {s t : Flow} (other : AssignmentSet)
    → Extends s t
    → Covers s.assigned other
    → Extends s (merge_assigned other t)
unfolding merge_assigned
Extends-merge {s} {t} other f k = record {
  covers = record {
    size = intersect_with-size t.assigned other ∙ f.covers.size;
    sub = λ d h. intersect_with-Assigned t.assigned other d (f.covers.sub d h) (k.sub d h);
  };
  breaks = f.breaks;
  clean = f.clean;
  quiet = f.quiet;
}

-- A loop's own states at its breaks are those that its body records.
pub BreaksGrow-inside :
    (a : AssignmentSet) (s t : List (List AssignmentSet))
    → BreaksGrow a ([] ∷ s) t
    → All (Covers a) (top_breaks t) × (pop_breaks t ≡ s)
BreaksGrow-inside a s [] g = absurd g
BreaksGrow-inside a s (top ∷ rest) (added, e, all, r) = (subst (All (Covers a)) (sym e) all, r)

leave_loop-Extends :
    (entry : Flow) (c : Condition) (body after : Flow)
    → BreaksGrow entry.assigned ([] ∷ entry.break_stack) body.break_stack
    → (IsClean after → IsClean entry)
    → Quiet entry after
    → Extends entry (leave_loop entry.assigned c body after)
leave_loop-Extends entry c body after grow clean quiet =
    let (all, rest) = BreaksGrow-inside entry.assigned entry.break_stack body.break_stack grow in
    record {
      covers = loop_exit-Covers entry.assigned (top_breaks body.break_stack) c all;
      breaks =
          subst (BreaksGrow entry.assigned entry.break_stack) (sym rest)
            (BreaksGrow-refl entry.assigned entry.break_stack);
      clean = clean;
      quiet = quiet;
    }

module _ (defs : List Def) where
  mutual
    unfolding flow_statement

    statement-Extends : (st : Stmt) (s : Flow) → Extends s (flow_statement defs st s)
    statement-Extends no_stmt s = Extends-refl s
    statement-Extends empty_stmt s = Extends-refl s
    statement-Extends continue_stmt s = Extends-refl s
    statement-Extends break_stmt s = record {
      covers = Covers-refl s.assigned;
      breaks = BreaksGrow-add s.assigned s.break_stack;
      clean = λ h. h;
      quiet = λ h. (h, refl);
    }
    statement-Extends (bind names none) s = Extends-refl s
    statement-Extends (bind names (some e)) s =
        let read = flow defs false e s in
        let first = Extends-of_Grows (flow-Grows defs false e s) in
        record {
          covers = Covers-trans first.covers (mark_all-Covers names read.assigned);
          breaks = first.breaks;
          clean = first.clean;
          quiet = first.quiet;
        }
    statement-Extends (return_stmt e) s = Extends-of_Grows (flow-Grows defs false e s)
    statement-Extends (expr_stmt e) s = Extends-of_Grows (flow-Grows defs false e s)
    statement-Extends (block ss) s = statements-Extend ss s
    statement-Extends (if_stmt c then_side no_else) s =
        let before = flow defs false c s in
        let side = statement-Extends then_side before in
        Extends-trans (Extends-of_Grows (flow-Grows defs false c s)) (record {
          covers = Covers-refl before.assigned;
          breaks = side.breaks;
          clean = side.clean;
          quiet = side.quiet;
        })
    statement-Extends (if_stmt c then_side (else_stmt other)) s =
        let before = flow defs false c s in
        let after_then = flow_statement defs then_side before in
        let side = statement-Extends then_side before in
        Extends-trans (Extends-of_Grows (flow-Grows defs false c s)) (
          Extends-merge after_then.assigned
            (Extends-reset side
              (statement-Extends other (record after_then { assigned = before.assigned })))
            side.covers)
    statement-Extends (while_stmt c body) s =
        let entry = flow_condition defs c s in
        let after = flow_statement defs body (push_breaks entry) in
        let inner = statement-Extends body (push_breaks entry) in
        Extends-trans (Extends-of_Grows (flow_condition-Grows defs c s)) (
          leave_loop-Extends entry c after after inner.breaks (λ h. inner.clean h)
            (λ h. inner.quiet h))
    statement-Extends (for_stmt init c step body) s =
        let entry = flow_statement defs init s in
        let tested = flow_condition defs c entry in
        let test = Extends-of_Grows (flow_condition-Grows defs c entry) in
        let after = flow_statement defs body (push_breaks tested) in
        let inner = statement-Extends body (push_breaks tested) in
        let stepped = flow-Grows defs false step after in
        Extends-trans (statement-Extends init s) (
          leave_loop-Extends entry c after (flow defs false step after)
            (BreaksGrow-trans entry.assigned tested.assigned ([] ∷ entry.break_stack)
              ([] ∷ tested.break_stack) after.break_stack test.covers
              ([], refl, tt, (flow_condition-Grows defs c entry).stack) inner.breaks)
            (λ h. test.clean (inner.clean (stepped.clean h)))
            (Quiet-trans entry tested (flow defs false step after) test.quiet (
              Quiet-trans tested after (flow defs false step after) (λ h. inner.quiet h)
                stepped.quiet)))

    statements-Extend : (ss : Stmts) (s : Flow) → Extends s (flow_statements defs ss s)
    statements-Extend Stmts.nil s = Extends-refl s
    statements-Extend (Stmts.cons st ss) s =
        Extends-trans (statement-Extends st s) (statements-Extend ss (flow_statement defs st s))

  -- A statement adds to what is assigned, and each state that it records at a break covers the
  -- state it began with.
  pub flow_statement-Extends : (st : Stmt) (s : Flow) → Extends s (flow_statement defs st s)
  flow_statement-Extends st s = statement-Extends st s

  pub flow_statements-Extend : (ss : Stmts) (s : Flow) → Extends s (flow_statements defs ss s)
  flow_statements-Extend ss s = statements-Extend ss s
