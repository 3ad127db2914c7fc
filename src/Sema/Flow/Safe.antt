-- ===== src/Sema/Flow/Safe.antt =====
-- Definite assignment is sound: where the pass of src/sema/check_flow.cc reports nothing, no path of a
-- body reads what is not assigned.
use mincplus.Prelude.{
  ℕ, zero, suc, ◌≡◌, refl, sym, ◌∙◌, subst, Bool, true, false, ◌||◌, not, Option, none, some, List,
  [], ◌∷◌, length, map, replicate, get_or, All, ◌⊎◌, inl, inr,
}
use mincplus.Sema.Flow.{
  Def, Expr, absent, Condition, Stmt, no_stmt, empty_stmt, break_stmt, continue_stmt, bind,
  return_stmt, expr_stmt, block, if_stmt, while_stmt, for_stmt, no_else, else_stmt, Stmts,
  AssignmentSet, Flow, mark, mark_all, merge_assigned, flow, flow_condition, loop_exit, always_true,
  push_breaks, top_breaks, flow_statement, flow_statements, is_parameter, at_start,
  check_definite_assignment,
}
use mincplus.Sema.Flow.Paths.{
  Post, When, Runs, RunsCondition, Turns, Executes, ExecutesAll, continues, any_continues, IsSteady,
  AreSteady,
}
use mincplus.Sema.Flow.Growth.{
  Covers, Covers-refl, Covers-trans, IsClean, flow-Grows, flow_condition-Grows,
}
use mincplus.Sema.Flow.Sound.{
  Above, Covers-mark, Covers-intersect, Covers-intersect_right, flow-Runs, flow_condition-Runs,
}
use mincplus.Sema.Flow.Breaks.{
  BreaksGrow, BreaksGrow-trans, AboveBreaks, AboveBreaks-earlier, AboveBreaks-add, loop_exit-breaks,
  loop_exit-entry, All-map,
}
use mincplus.Sema.Flow.Statements.{
  Extends-of_Grows, BreaksGrow-inside, flow_statement-Extends, flow_statements-Extend,
}

-- The exit of a loop that is not infinite.
When-not : (t : Bool) (X : Type 0) → (t ≡ false → X) → When (not t) X
When-not true X h = tt
When-not false X h = h refl

or_right : (b : Bool) {c : Bool} → c ≡ true → b || c ≡ true
or_right true h = refl
or_right false h = h

Covers-mark_all :
    (ds : List (Option ℕ)) (a b : AssignmentSet)
    → Covers a b
    → Covers (mark_all ds a) (mark_all ds b)
Covers-mark_all [] a b k = k
Covers-mark_all (d ∷ ds) a b k = Covers-mark_all ds (mark d a) (mark d b) (Covers-mark d a b k)

AboveBreaks-inside :
    (a : AssignmentSet) (P : Post) (s t : List (List AssignmentSet))
    → BreaksGrow a ([] ∷ s) t
    → All (λ n. Above n P) (top_breaks t)
    → AboveBreaks t P
AboveBreaks-inside a P s [] g h = absurd g
AboveBreaks-inside a P s (top ∷ rest) g h = h

-- A loop whose turns keep what holds at its head, `N`, turns any number of times.
turns_sound :
    (defs : List Def) (c : Condition) (P : Post) (body step : Post → Post)
    (head tested : AssignmentSet)
    → ((Q : Post) (b : AssignmentSet) → Covers head b → Above tested Q → RunsCondition defs c Q b)
    → (always_true c ≡ false → Above tested P)
    → ((N : Post) → Above head N → Above tested (body (step N)))
    → (n : ℕ) → Above head (Turns defs n c body step P)
turns_sound defs c P body step head tested test leave turn zero b k = tt
turns_sound defs c P body step head tested test leave turn (suc n) b k =
    test (λ e. When (not (always_true c)) (P e) × body (step (Turns defs n c body step P)) e) b k
      (λ e ke. (
        When-not (always_true c) (P e) (λ h. leave h e ke),
        turn (Turns defs n c body step P)
            (turns_sound defs c P body step head tested test leave turn n) e ke,
      ))

-- What holds above the exit of a loop holds above the states at its breaks, and behind its condition
-- where that may end it.
module _ (entry : AssignmentSet) (c : Condition) (P : Post) (s t : List (List AssignmentSet))
    (grow : BreaksGrow entry ([] ∷ s) t) (above : Above (loop_exit entry (top_breaks t) c) P) where
  exit_breaks : AboveBreaks t P
  exit_breaks =
      let all = (BreaksGrow-inside entry s t grow).0 in
      AboveBreaks-inside entry P s t grow (
        All-map (Covers (loop_exit entry (top_breaks t) c)) (λ n. Above n P) (top_breaks t)
          (λ n k b kb. above b (Covers-trans k kb)) (loop_exit-breaks entry (top_breaks t) c all))

  exit_entry : always_true c ≡ false → Above entry P
  exit_entry h b k =
      let all = (BreaksGrow-inside entry s t grow).0 in
      above b (Covers-trans (loop_exit-entry entry (top_breaks t) c all h) k)

-- The step is behind a `continue` only where the body has none or there is no step.
step_back :
    (defs : List Def) (step : Expr) {has : Bool}
    → (has ≡ false) ⊎ (step ≡ absent)
    → has ≡ true
    → (N : Post) (b : AssignmentSet) → N b
    → Runs defs false step N b
unfolding Runs
step_back defs step (inl none_there) there N b n = cc
step_back defs step (inr nothing) there N b n = rw nothing n

module _ (defs : List Def) where
  mutual
    unfolding flow_statement Executes merge_assigned Runs

    executes_sound :
        (st : Stmt) (P B C : Post) (s : Flow) (a : AssignmentSet)
        → IsSteady st
        → IsClean (flow_statement defs st s)
        → Covers s.assigned a
        → Above (flow_statement defs st s).assigned P
        → AboveBreaks (flow_statement defs st s).break_stack B
        → (continues st ≡ true → Above s.assigned C)
        → Executes defs st P B C a
    executes_sound no_stmt P B C s a steady clean covers above breaks conts = above a covers
    executes_sound empty_stmt P B C s a steady clean covers above breaks conts = above a covers
    executes_sound break_stmt P B C s a steady clean covers above breaks conts =
        AboveBreaks-add B s.assigned s.break_stack breaks a covers
    executes_sound continue_stmt P B C s a steady clean covers above breaks conts =
        conts refl a covers
    executes_sound (bind names none) P B C s a steady clean covers above breaks conts =
        above a covers
    executes_sound (bind names (some e)) P B C s a steady clean covers above breaks conts =
        flow-Runs defs false e (λ b. P (mark_all names b)) s a clean covers
          λ b k. above (mark_all names b) (Covers-mark_all names (flow defs false e s).assigned b k)
    executes_sound (return_stmt e) P B C s a steady clean covers above breaks conts =
        flow-Runs defs false e (λ b. Unit) s a clean covers (λ b k. tt)
    executes_sound (expr_stmt e) P B C s a steady clean covers above breaks conts =
        flow-Runs defs false e P s a clean covers above
    executes_sound (block ss) P B C s a steady clean covers above breaks conts =
        executes_all_sound ss P B C s a steady clean covers above breaks conts
    executes_sound (if_stmt c then_side no_else) P B C s a steady clean covers above breaks conts =
        let before = flow defs false c s in
        let test = Extends-of_Grows (flow-Grows defs false c s) in
        let side = flow_statement-Extends defs then_side before in
        flow-Runs defs false c (λ b. Executes defs then_side P B C b × P b) s a (side.clean clean)
          covers
          λ b k. (
            executes_sound then_side P B C before b steady clean k
                (λ d kd. above d (Covers-trans side.covers kd)) breaks
                (λ h d kd. conts h d (Covers-trans test.covers kd)),
            above b k,
          )
    executes_sound (if_stmt c then_side (else_stmt other)) P B C s a steady clean covers above
          breaks conts =
        let before = flow defs false c s in
        let after_then = flow_statement defs then_side before in
        let start : Flow = record after_then { assigned = before.assigned } in
        let after_else = flow_statement defs other start in
        let test = Extends-of_Grows (flow-Grows defs false c s) in
        let side = flow_statement-Extends defs then_side before in
        let arm = flow_statement-Extends defs other start in
        let size = arm.covers.size ∙ sym side.covers.size in
        let then_clean = arm.clean clean in
        flow-Runs defs false c (λ b. Executes defs then_side P B C b × Executes defs other P B C b)
          s a (side.clean then_clean) covers
          λ b k. (
            executes_sound then_side P B C before b (steady.0) then_clean k
                (λ d kd.
                  above d
                    (Covers-intersect_right after_else.assigned after_then.assigned d size kd))
                (AboveBreaks-earlier before.assigned B after_then.break_stack after_else.break_stack
                  arm.breaks breaks)
                (λ h d kd. conts (rw h refl) d (Covers-trans test.covers kd)),
            executes_sound other P B C start b (steady.1) clean k
                (λ d kd.
                  above d (Covers-intersect after_else.assigned after_then.assigned d size kd))
                breaks
                (λ h d kd.
                  conts (or_right (continues then_side) h) d (Covers-trans test.covers kd)),
          )
    executes_sound (while_stmt c body) P B C s a steady clean covers above breaks conts =
        let entry = flow_condition defs c s in
        let after = flow_statement defs body (push_breaks entry) in
        let test = Extends-of_Grows (flow_condition-Grows defs c s) in
        let inner = flow_statement-Extends defs body (push_breaks entry) in
        λ n.
          turns_sound defs c P (λ N b. Executes defs body N P N b) (λ N. N) s.assigned
            entry.assigned (λ Q b k q. flow_condition-Runs defs c Q s b (inner.clean clean) k q)
            (exit_entry entry.assigned c P entry.break_stack after.break_stack inner.breaks above)
            (λ N head b k.
              executes_sound body N P N (push_breaks entry) b steady clean k
                (λ d kd. head d (Covers-trans test.covers (Covers-trans inner.covers kd)))
                (exit_breaks entry.assigned c P entry.break_stack after.break_stack inner.breaks
                  above)
                (λ h d kd. head d (Covers-trans test.covers kd)))
            n a covers
    executes_sound (for_stmt init c step body) P B C s a steady clean covers above breaks conts =
        let entry = flow_statement defs init s in
        let tested = flow_condition defs c entry in
        let after = flow_statement defs body (push_breaks tested) in
        let test = Extends-of_Grows (flow_condition-Grows defs c entry) in
        let inner = flow_statement-Extends defs body (push_breaks tested) in
        let stepped = Extends-of_Grows (flow-Grows defs false step after) in
        let grow =
          BreaksGrow-trans entry.assigned tested.assigned ([] ∷ entry.break_stack)
            ([] ∷ tested.break_stack) after.break_stack test.covers
            ([], refl, tt, (flow_condition-Grows defs c entry).stack) inner.breaks in
        let body_clean = stepped.clean clean in
        let test_clean = inner.clean body_clean in
        let Back : Post → Post = Runs defs false step in
        executes_sound init
          (λ b. (n : ℕ) → Turns defs n c (λ N e. Executes defs body N P N e) Back P b) B C s a
          (steady.0) (test.clean test_clean) covers
          (λ b k n.
            turns_sound defs c P (λ N e. Executes defs body N P N e) Back entry.assigned
              tested.assigned (λ Q e ke q. flow_condition-Runs defs c Q entry e test_clean ke q)
              (λ h e ke.
                exit_entry entry.assigned c P entry.break_stack after.break_stack grow above h e
                  (Covers-trans test.covers ke))
              (λ N head e ke.
                executes_sound body (Back N) P (Back N) (push_breaks tested) e (steady.1) body_clean
                  ke
                  (λ d kd. flow-Runs defs false step N after d clean kd λ f kf. head f (
                    Covers-trans test.covers
                      (Covers-trans inner.covers (Covers-trans stepped.covers kf))))
                  (exit_breaks entry.assigned c P entry.break_stack after.break_stack grow above)
                  (λ h d kd.
                    step_back defs step (steady.2) h N d (head d (Covers-trans test.covers kd))))
              n b k)
          (subst (λ x. AboveBreaks x B)
            ((BreaksGrow-inside entry.assigned entry.break_stack after.break_stack grow).1) breaks)
          conts

    executes_all_sound :
        (ss : Stmts) (P B C : Post) (s : Flow) (a : AssignmentSet)
        → AreSteady ss
        → IsClean (flow_statements defs ss s)
        → Covers s.assigned a
        → Above (flow_statements defs ss s).assigned P
        → AboveBreaks (flow_statements defs ss s).break_stack B
        → (any_continues ss ≡ true → Above s.assigned C)
        → ExecutesAll defs ss P B C a
    executes_all_sound Stmts.nil P B C s a steady clean covers above breaks conts = above a covers
    executes_all_sound (Stmts.cons st ss) P B C s a steady clean covers above breaks conts =
        let first = flow_statement defs st s in
        let here = flow_statement-Extends defs st s in
        let behind = flow_statements-Extend defs ss first in
        executes_sound st (ExecutesAll defs ss P B C) B C s a (steady.0) (behind.clean clean) covers
          (λ b k.
            executes_all_sound ss P B C first b (steady.1) clean k above breaks
              (λ h d kd. conts (or_right (continues st) h) d (Covers-trans here.covers kd)))
          (AboveBreaks-earlier first.assigned B first.break_stack
            (flow_statements defs ss first).break_stack behind.breaks breaks)
          (λ h. conts (rw h refl))

abbrev pub Anything : Post
Anything a = Unit

none_reported : (n d : ℕ) → get_or (replicate n false) d false ≡ false
none_reported zero d = refl
none_reported (suc n) zero = refl
none_reported (suc n) (suc d) = none_reported n d

anything-Above : (ns : List AssignmentSet) → All (λ n. Above n Anything) ns
anything-Above [] = tt
anything-Above (n ∷ ns) = (λ b k. tt, anything-Above ns)

anywhere : (s : List (List AssignmentSet)) → AboveBreaks s Anything
anywhere [] = λ b. tt
anywhere (top ∷ rest) = anything-Above top

-- Where nothing is reported over a body in which no `for` with a step has a `continue` of its own, no
-- path through it, from the parameters on, reads a local variable that was never assigned.
pub check_definite_assignment-Executes :
    (defs : List Def) (body : Stmt)
    → IsSteady body
    → check_definite_assignment defs body ≡ []
    → Executes defs body Anything Anything Anything (map is_parameter defs)
unfolding check_definite_assignment
check_definite_assignment-Executes defs body steady silent =
    let start = at_start defs in
    let ends = flow_statement-Extends defs body start in
    let marks = (ends.quiet silent).1 in
    executes_sound defs body Anything Anything Anything start (map is_parameter defs) steady
      (silent, λ d. rw marks (none_reported (length defs) d)) (Covers-refl start.assigned)
      (λ b k. tt) (anywhere (flow_statement defs body start).break_stack) (λ h b k. tt)
