-- ===== src/Tests/Flow.antt =====
-- Runs of the definite assignment pass of src/sema/check_flow.cc, and of the source manager, at fixed
-- inputs.
use mincplus.Prelude.{◌≡◌, refl, true, false, none, some, List, [], ◌∷◌, map, codes, arith}
use mincplus.Sema.Flow.{
  Def, variable, Expr, literal, path, assign, condition, Stmt, continue_stmt, bind, expr_stmt,
  block, if_stmt, for_stmt, no_stmt, no_else, else_stmt, Stmts, intersect_with, mark_assigned,
  report_if_unassigned, merge_assigned, flow, loop_exit, flow_statement, is_parameter,
  check_definite_assignment,
}
use mincplus.Sema.Flow.Paths.{Executes}
use mincplus.Sema.Flow.Safe.{Anything, check_definite_assignment-Executes}
use mincplus.Support.Source.Manager.{Request, add, replace, serve_all, IsValid, serve_all-IsValid}

abbrev one_local : List Def
one_local = record { kind = variable; is_file_scope = false } ∷ []

abbrev read_it : Expr
read_it = path (some 0)

abbrev set_it : Stmt
set_it = expr_stmt (assign true read_it literal)

abbrev sequence : List Stmt → Stmts
sequence [] = Stmts.nil
sequence (st ∷ rest) = Stmts.cons st (sequence rest)

abbrev declare_it : Stmt
declare_it = bind (some 0 ∷ []) none

-- Both arms assign it.
abbrev both_arms : Stmt
both_arms =
    block
      (sequence (declare_it ∷ if_stmt literal set_it (else_stmt set_it) ∷ expr_stmt read_it ∷ []))

both_arms_silent : check_definite_assignment one_local both_arms ≡ []
unfolding check_definite_assignment flow_statement flow mark_assigned merge_assigned intersect_with
    report_if_unassigned
both_arms_silent = refl

-- One arm assigns it.
one_arm_reported :
    check_definite_assignment one_local
      (block (sequence (declare_it ∷ if_stmt literal set_it no_else ∷ expr_stmt read_it ∷ [])))
    ≡ 0 ∷ []
unfolding check_definite_assignment flow_statement flow mark_assigned merge_assigned intersect_with
    report_if_unassigned
one_arm_reported = refl

-- A `continue` that skips the assignment the step relies on is not seen.
skipped_step_silent :
    check_definite_assignment one_local (
      block (
        sequence (
          declare_it
          ∷ for_stmt no_stmt
              (condition literal none)
              read_it
              (block (sequence (if_stmt literal continue_stmt no_else ∷ set_it ∷ [])))
          ∷ [])))
    ≡ []
unfolding check_definite_assignment flow_statement flow mark_assigned merge_assigned intersect_with
    report_if_unassigned loop_exit
skipped_step_silent = refl

check_definite_assignment-Executes_example :
    Executes one_local both_arms Anything Anything Anything (map is_parameter one_local)
check_definite_assignment-Executes_example =
    check_definite_assignment-Executes one_local both_arms (tt, ((tt, tt), (tt, tt)))
      both_arms_silent

abbrev two_requests : List Request
two_requests = add (codes "a.mx") (codes "fn") ∷ replace 0 (codes "let") ∷ []

serve_all-IsValid_example : IsValid (serve_all two_requests [])
serve_all-IsValid_example =
    serve_all-IsValid two_requests
      ((omega arith, (omega arith, tt)), ((omega arith, (omega arith, (omega arith, tt))), tt))
