-- ===== src/Sema/Flow/Paths.antt =====
-- What a program does, apart from src/sema/check_flow.cc: every path through a body, on the set of the
-- definitions that were assigned so far. A condition may come out either way unless it is constantly
-- true, and a loop may turn any number of times.
use mincplus.Prelude.{
  ℕ, zero, suc, ◌≡◌, Bool, true, false, ◌&&◌, ◌||◌, ◌⊎◌, not, if◌then◌else◌, none, some, List,
  get_elem?, get_or,
}
use mincplus.Sema.Flow.{
  Def, Expr, absent, literal, in_error, path, paren, binary, conditional, assign, address, prefix,
  postfix, slice, index, operands, Exprs, Condition, no_condition, condition, Stmt, no_stmt,
  empty_stmt, break_stmt, continue_stmt, bind, return_stmt, expr_stmt, block, if_stmt, while_stmt,
  for_stmt, no_else, else_stmt, Stmts, AssignmentSet, store_target, can_be_unassigned, mark,
  mark_all, always_true,
}

abbrev pub Assigned : AssignmentSet → ℕ → Type 0
Assigned a d = get_or a d false ≡ true

-- A read of a definition that can be unassigned finds it assigned.
abbrev pub MayRead : List Def → ℕ → AssignmentSet → Type 0
MayRead defs d a = can_be_unassigned (get_elem? defs d) ≡ true → Assigned a d

abbrev pub Post : Type 1
Post = AssignmentSet → Type 0

abbrev pub BothIf : Bool → Type 0 → Type 0 → Type 0
BothIf true P Q = P × Q
BothIf false P Q = Q

abbrev pub When : Bool → Type 0 → Type 0
When true P = P
When false P = Unit

module _ (defs : List Def) where
  -- On every path through an expression no read is of an unassigned definition, and what is assigned
  -- behind it satisfies `P`. With `place` set the expression is only addressed: a name is not read.
  unfoldable mutual
    pub Runs : (place : Bool) → Expr → Post → Post
    Runs place absent P a = P a
    Runs place literal P a = P a
    Runs place (in_error e) P a = P a
    Runs place (path none) P a = P a
    Runs true (path (some d)) P a = P a
    Runs false (path (some d)) P a = MayRead defs d a × P a
    Runs place (paren e) P a = Runs place e P a
    Runs place (binary short_circuit l r) P a =
        Runs false l (λ b. BothIf short_circuit (P b) (Runs false r P b)) a
    Runs place (conditional c l r) P a = Runs false c (λ b. Runs false l P b × Runs false r P b) a
    Runs place (assign plain target value) P a =
        Runs plain target (Runs false value (λ b. P (mark (store_target target) b))) a
    Runs place (address e) P a = Runs true e P a
    Runs place (prefix increments e) P a =
        Runs false e (λ b. P (if increments then mark (store_target e) b else b)) a
    Runs place (postfix e) P a = Runs false e (λ b. P (mark (store_target e) b)) a
    Runs place (slice base_is_array base begin end) P a =
        Runs base_is_array base (Runs false begin (Runs false end P)) a
    Runs place (index base_is_array base i) P a =
        Runs (place && base_is_array) base (Runs false i P) a
    Runs place (operands es) P a = RunsAll es P a

    pub RunsAll : Exprs → Post → Post
    RunsAll Exprs.nil P a = P a
    RunsAll (Exprs.cons e es) P a = Runs false e (RunsAll es P) a

  abbrev pub RunsCondition : Condition → Post → Post
  RunsCondition no_condition P a = P a
  RunsCondition (condition e _) P a = Runs false e P a

  -- So many turns of a loop: the condition ends it, unless it is constantly true, or the body runs and
  -- then the step.
  abbrev pub Turns : ℕ → Condition → (Post → Post) → (Post → Post) → Post → Post
  Turns zero c body step P a = Unit
  Turns (suc n) c body step P a =
      RunsCondition c
        (λ b. When (not (always_true c)) (P b) × body (step (Turns n c body step P)) b) a

  -- The same for a statement, with what holds behind a `break` and a `continue` in it.
  unfoldable mutual
    pub Executes : Stmt → (normal at_break at_continue : Post) → Post
    Executes no_stmt P B C a = P a
    Executes empty_stmt P B C a = P a
    Executes break_stmt P B C a = B a
    Executes continue_stmt P B C a = C a
    Executes (bind names none) P B C a = P a
    Executes (bind names (some e)) P B C a = Runs false e (λ b. P (mark_all names b)) a
    Executes (return_stmt e) P B C a = Runs false e (λ b. Unit) a
    Executes (expr_stmt e) P B C a = Runs false e P a
    Executes (block ss) P B C a = ExecutesAll ss P B C a
    Executes (if_stmt c then_side no_else) P B C a =
        Runs false c (λ b. Executes then_side P B C b × P b) a
    Executes (if_stmt c then_side (else_stmt other)) P B C a =
        Runs false c (λ b. Executes then_side P B C b × Executes other P B C b) a
    Executes (while_stmt c body) P B C a =
        (n : ℕ) → Turns n c (λ N b. Executes body N P N b) (λ N. N) P a
    Executes (for_stmt init c step body) P B C a =
        Executes init
          (λ b. (n : ℕ) → Turns n c (λ N b. Executes body N P N b) (Runs false step) P b) B C a

    pub ExecutesAll : Stmts → (normal at_break at_continue : Post) → Post
    ExecutesAll Stmts.nil P B C a = P a
    ExecutesAll (Stmts.cons st ss) P B C a = Executes st (ExecutesAll ss P B C) B C a

-- Does a statement have a `continue` of the loop around it?
abbrev mutual
  pub continues : Stmt → Bool
  continues continue_stmt = true
  continues (block ss) = any_continues ss
  continues (if_stmt c then_side no_else) = continues then_side
  continues (if_stmt c then_side (else_stmt other)) = continues then_side || continues other
  continues (for_stmt init c step body) = continues init
  continues _ = false

  pub any_continues : Stmts → Bool
  any_continues Stmts.nil = false
  any_continues (Stmts.cons st ss) = continues st || any_continues ss

-- No `for` with a step has a `continue` of its own in its body.
abbrev mutual
  pub IsSteady : Stmt → Type 0
  IsSteady (block ss) = AreSteady ss
  IsSteady (if_stmt c then_side no_else) = IsSteady then_side
  IsSteady (if_stmt c then_side (else_stmt other)) = IsSteady then_side × IsSteady other
  IsSteady (while_stmt c body) = IsSteady body
  IsSteady (for_stmt init c step body) =
      IsSteady init × IsSteady body × ((continues body ≡ false) ⊎ (step ≡ absent))
  IsSteady _ = Unit

  pub AreSteady : Stmts → Type 0
  AreSteady Stmts.nil = Unit
  AreSteady (Stmts.cons st ss) = IsSteady st × AreSteady ss
