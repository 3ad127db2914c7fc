-- ===== src/Sema/Flow.antt =====
-- Definite assignment: src/sema/check_flow.cc. A node is given by its parts: `absent` stands for an
-- operand that is not there or a slice with no base, a construct with fewer operands than it has is
-- `operands`, and a statement in an error region is `no_stmt`.
pub mod Paths
pub mod Growth
pub mod Sound
pub mod Breaks
pub mod Statements
pub mod Safe
use mincplus.Prelude.{
  ℕ, zero, suc, Bool, true, false, ◌&&◌, ◌||◌, not, if◌then◌else◌, Option, none, some, List, [],
  ◌∷◌, ◌++◌, length, get_elem?, get_or, set, map, replicate,
}
use mincplus.Support.ConstInt.{ConstInt, truthy}

pub data DefKind : Type 0 where
  function variable constant parameter type_alias generic_param : DefKind

-- Of `resolve::Def` what the pass reads.
pub record Def : Type 0 where
  pub kind : DefKind
  pub is_file_scope : Bool

mutual
  pub data Expr : Type 0 where
    absent literal : Expr
    in_error : Expr → Expr
    path : Option ℕ → Expr
    paren : Expr → Expr
    binary : (short_circuit : Bool) → Expr → Expr → Expr
    conditional : Expr → Expr → Expr → Expr
    assign : (plain : Bool) → Expr → Expr → Expr
    address : Expr → Expr
    prefix : (increments : Bool) → Expr → Expr
    postfix : Expr → Expr
    slice : (base_is_array : Bool) → Expr → Expr → Expr → Expr
    index : (base_is_array : Bool) → Expr → Expr → Expr
    operands : Exprs → Expr

  pub data Exprs : Type 0 where
    nil : Exprs
    cons : Expr → Exprs → Exprs

-- A condition, with the value that it was folded to.
pub data Condition : Type 0 where
  no_condition : Condition
  condition : Expr → Option ConstInt → Condition

mutual
  pub data Stmt : Type 0 where
    no_stmt empty_stmt break_stmt continue_stmt : Stmt
    bind : (names : List (Option ℕ)) → (initializer : Option Expr) → Stmt
    return_stmt expr_stmt : Expr → Stmt
    block : Stmts → Stmt
    if_stmt : Expr → Stmt → ElseArm → Stmt
    while_stmt : Condition → Stmt → Stmt
    for_stmt : (init : Stmt) → Condition → (step : Expr) → (body : Stmt) → Stmt

  pub data ElseArm : Type 0 where
    no_else : ElseArm
    else_stmt : Stmt → ElseArm

  pub data Stmts : Type 0 where
    nil : Stmts
    cons : Stmt → Stmts → Stmts

abbrev pub AssignmentSet : Type 0
AssignmentSet = List Bool

pub record Flow : Type 0 where
  pub assigned : AssignmentSet
  pub reported : AssignmentSet
  pub break_stack : List (List AssignmentSet)
  pub errors : List ℕ

-- Only what both have in their shared part.
unfoldable pub intersect_with : AssignmentSet → AssignmentSet → AssignmentSet
intersect_with [] from = []
intersect_with (a ∷ into) [] = a ∷ into
intersect_with (a ∷ into) (b ∷ from) = (a && b) ∷ intersect_with into from

-- `defOfStoreTarget`: the path behind any parentheses.
abbrev pub store_target : Expr → Option ℕ
store_target (path d) = d
store_target (paren e) = store_target e
store_target (in_error e) = store_target e
store_target _ = none

-- Only a `let` inside a function can be read before it is assigned.
abbrev pub can_be_unassigned : Option Def → Bool
can_be_unassigned none = false
can_be_unassigned (some d) = elim d.kind [ variable ↦ not d.is_file_scope | _ ↦ false ]

-- A write out of range changes nothing, as the test of the source has it.
abbrev pub mark : Option ℕ → AssignmentSet → AssignmentSet
mark none a = a
mark (some d) a = set a d true

abbrev pub mark_all : List (Option ℕ) → AssignmentSet → AssignmentSet
mark_all [] a = a
mark_all (d ∷ ds) a = mark_all ds (mark d a)

unfoldable pub mark_assigned : Expr → Flow → Flow
mark_assigned place s = record s { assigned = mark (store_target place) s.assigned }

unfoldable pub report_if_unassigned : List Def → ℕ → Flow → Flow
report_if_unassigned defs d s =
    if not (can_be_unassigned (get_elem? defs d))
    then s
    else if get_or s.assigned d false
    then s
    else if get_or s.reported d false
    then s
    else record s { reported = set s.reported d true; errors = s.errors ++ (d ∷ []) }

unfoldable pub merge_assigned : AssignmentSet → Flow → Flow
merge_assigned other s = record s { assigned = intersect_with s.assigned other }

module _ (defs : List Def) where
  unfoldable mutual
    -- `flowExpression`, and `flowStoreTarget` where `store` is set: the two differ at a name and at
    -- an index, and at any other node the second calls the first.
    pub flow : (store : Bool) → Expr → Flow → Flow
    flow store absent s = s
    flow store literal s = s
    flow store (in_error e) s = s
    flow store (path none) s = s
    flow store (path (some d)) s = if store then s else report_if_unassigned defs d s
    flow store (paren e) s = flow store e s
    flow store (binary short_circuit a b) s =
        let left = flow false a s in
        let right = flow false b left in
        if short_circuit then merge_assigned left.assigned right else right
    flow store (conditional c a b) s =
        let after = flow false c s in
        let then_side = flow false a after in
        merge_assigned then_side.assigned
          (flow false b (record then_side { assigned = after.assigned }))
    flow store (assign plain target value) s =
        mark_assigned target (flow false value (flow plain target s))
    flow store (address e) s = flow true e s
    flow store (prefix increments e) s =
        let read = flow false e s in if increments then mark_assigned e read else read
    flow store (postfix e) s = mark_assigned e (flow false e s)
    flow store (slice base_is_array base begin end) s =
        flow false end (flow false begin (flow base_is_array base s))
    flow store (index base_is_array base i) s = flow false i (flow (store && base_is_array) base s)
    flow store (operands es) s = flow_operands es s

    pub flow_operands : Exprs → Flow → Flow
    flow_operands nil s = s
    flow_operands (cons e es) s = flow_operands es (flow false e s)

  abbrev pub flow_expression : Expr → Flow → Flow
  flow_expression = flow false

  abbrev pub flow_store_target : Expr → Flow → Flow
  flow_store_target = flow true

  abbrev pub flow_condition : Condition → Flow → Flow
  flow_condition no_condition s = s
  flow_condition (condition e _) s = flow false e s

abbrev pub constant_condition : Option ConstInt → Bool
constant_condition none = false
constant_condition (some v) = truthy v

abbrev pub always_true : Condition → Bool
always_true no_condition = true
always_true (condition _ v) = constant_condition v

abbrev pub intersect_all : AssignmentSet → List AssignmentSet → AssignmentSet
intersect_all out [] = out
intersect_all out (b ∷ breaks) = intersect_all (intersect_with out b) breaks

unfoldable pub loop_exit : AssignmentSet → List AssignmentSet → Condition → AssignmentSet
loop_exit entry breaks c =
    intersect_all (if always_true c then replicate (length entry) true else entry) breaks

abbrev pub push_breaks : Flow → Flow
push_breaks s = record s { break_stack = [] ∷ s.break_stack }

-- The states at the breaks of the innermost loop, and the stack without them.
abbrev pub top_breaks : List (List AssignmentSet) → List AssignmentSet
top_breaks [] = []
top_breaks (b ∷ _) = b

abbrev pub pop_breaks : List (List AssignmentSet) → List (List AssignmentSet)
pop_breaks [] = []
pop_breaks (_ ∷ rest) = rest

abbrev pub add_break : AssignmentSet → List (List AssignmentSet) → List (List AssignmentSet)
add_break a [] = []
add_break a (b ∷ rest) = (b ++ (a ∷ [])) ∷ rest

-- Behind the body of a loop.
abbrev pub leave_loop : AssignmentSet → Condition → (body after : Flow) → Flow
leave_loop entry c body after = record after {
  assigned = loop_exit entry (top_breaks body.break_stack) c;
  break_stack = pop_breaks body.break_stack;
}

module _ (defs : List Def) where
  unfoldable mutual
    pub flow_statement : Stmt → Flow → Flow
    flow_statement no_stmt s = s
    flow_statement empty_stmt s = s
    flow_statement continue_stmt s = s
    flow_statement break_stmt s = record s { break_stack = add_break s.assigned s.break_stack }
    flow_statement (bind names none) s = s
    flow_statement (bind names (some e)) s =
        let read = flow defs false e s in record read { assigned = mark_all names read.assigned }
    flow_statement (return_stmt e) s = flow defs false e s
    flow_statement (expr_stmt e) s = flow defs false e s
    flow_statement (block ss) s = flow_statements ss s
    flow_statement (if_stmt c then_side no_else) s =
        let before = flow defs false c s in
        record (flow_statement then_side before) { assigned = before.assigned }
    flow_statement (if_stmt c then_side (else_stmt other)) s =
        let before = flow defs false c s in
        let after_then = flow_statement then_side before in
        merge_assigned after_then.assigned
          (flow_statement other (record after_then { assigned = before.assigned }))
    flow_statement (while_stmt c body) s =
        let entry = flow_condition defs c s in
        let after = flow_statement body (push_breaks entry) in
        leave_loop entry.assigned c after after
    flow_statement (for_stmt init c step body) s =
        let entry = flow_statement init s in
        let after = flow_statement body (push_breaks (flow_condition defs c entry)) in
        leave_loop entry.assigned c after (flow defs false step after)

    pub flow_statements : Stmts → Flow → Flow
    flow_statements nil s = s
    flow_statements (cons st ss) s = flow_statements ss (flow_statement st s)

abbrev pub is_parameter : Def → Bool
is_parameter d = elim d.kind [ parameter ↦ true | _ ↦ false ]

abbrev pub at_start : List Def → Flow
at_start defs = record {
  assigned = map is_parameter defs;
  reported = replicate (length defs) false;
  break_stack = [];
  errors = [];
}

-- The definitions that the pass reports over a body, in order.
unfoldable pub check_definite_assignment : List Def → Stmt → List ℕ
check_definite_assignment defs body = (flow_statement defs body (at_start defs)).errors
