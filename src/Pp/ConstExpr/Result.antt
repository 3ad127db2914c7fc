-- ===== src/Pp/ConstExpr/Result.antt =====
-- What the result of `evaluateConstExpr` (src/pp/const_expr.cc) reports.
use mincplus.Prelude.{ℕ, zero, suc, ◌≤◌, ◌≡◌, ◌≢◌, ◌↔◌, true, false, none, List, length, arith}
use mincplus.Support.ConstInt.{ConstInt}
use mincplus.Pp.ConstExpr.{PpToken, State, Parser, Readers, zero_int, fail}
use mincplus.Pp.ConstExpr.Levels.{parse_logical_or}
use mincplus.Pp.ConstExpr.Grammar.{
  Production, conditional, unary, parse, parse_primary, ConstExprResult, start, enough_fuel, finish,
  evaluate_const_expr,
}
use mincplus.Pp.ConstExpr.Effects.{Keeps, AllKeeps, Keeps-refl}
use mincplus.Pp.ConstExpr.Run.{
  parse_logical_or-Keeps, parse_primary-Keeps, parse_unary-Keeps, parse_conditional-Keeps,
}

-- What `run` makes of the outcome of the outermost call, which kept the state well.
record Answers (s : State) (r : ConstExprResult) : Type 0 where
  pub ok_iff : r.ok ≡ true ↔ r.error ≡ none
  pub consumed : r.ok ≡ true → length s.tokens ≡ 0
  pub no_value : r.ok ≡ false → r.value ≡ zero_int
  pub names : r.undefined_names ≡ s.undefined_names

finish-Answers :
    (v : ConstInt) (s : State)
    → s.suppressed ≡ 0
    → (s.failed ≡ true ↔ s.error ≢ none)
    → Answers s (finish v s)
unfolding finish fail
finish-Answers v s unsuppressed failed_iff = record {
  ok_iff = ground arith;
  consumed = ground arith;
  no_value = ground arith;
  names = ground arith;
}

module _ (readers : Readers) (max_depth : ℕ) where
  pub parse-Keeps : (fuel : ℕ) (p : Production) → AllKeeps (parse readers max_depth fuel p)
  unfolding parse
  parse-Keeps zero p s = Keeps-refl s
  parse-Keeps (suc fuel) conditional s =
      parse_conditional-Keeps max_depth inner (parse_logical_or operand)
        (parse-Keeps fuel conditional) (parse_logical_or-Keeps operand (parse-Keeps fuel unary)) s
    where
      inner : Parser
      inner = parse readers max_depth fuel conditional

      operand : Parser
      operand = parse readers max_depth fuel unary
  parse-Keeps (suc fuel) unary s =
      parse_unary-Keeps max_depth operand (parse_primary readers inner) (parse-Keeps fuel unary)
        (parse_primary-Keeps readers inner (parse-Keeps fuel conditional)) s
    where
      inner : Parser
      inner = parse readers max_depth fuel conditional

      operand : Parser
      operand = parse readers max_depth fuel unary

  -- Every call of the parser leaves `depth_` and `suppressed` as it found them and gives no token
  -- back.
  pub parse-balanced :
      (fuel : ℕ) (p : Production) (s : State)
      → let t = (parse readers max_depth fuel p s).1 in
        t.depth ≡ s.depth × t.suppressed ≡ s.suppressed × length t.tokens ≤ length s.tokens
  unfolding parse
  parse-balanced fuel p s = (k.same_depth, k.same_suppressed, k.fewer)
    where
      k : Keeps s (parse readers max_depth fuel p s).1
      k = parse-Keeps fuel p s

  -- The first error stays: a call of the parser after a failure changes neither the failure nor its
  -- error.
  pub parse-after_failure :
      (fuel : ℕ) (p : Production) (s : State)
      → s.failed ≡ true
      → let t = (parse readers max_depth fuel p s).1 in t.failed ≡ true × t.error ≡ s.error
  unfolding parse
  parse-after_failure fuel p s failed = ground (arith, parse-Keeps fuel p s)

  -- A call of the parser that begins without a failure and ends with one has recorded an error.
  pub parse-failure :
      (fuel : ℕ) (p : Production) (s : State)
      → s.failed ≡ false
      → (parse readers max_depth fuel p s).1.failed ≡ true
      → (parse readers max_depth fuel p s).1.error ≢ none
  unfolding parse
  parse-failure fuel p s ready failed = (parse-Keeps fuel p s).told failed ready

  evaluate-Answers :
      (tokens : List PpToken)
      → Answers
          (parse readers max_depth (enough_fuel tokens) conditional (start tokens)).1
          (evaluate_const_expr readers max_depth tokens)
  unfolding evaluate_const_expr
  evaluate-Answers tokens = finish-Answers run.0 run.1 kept.same_suppressed (ground (arith, kept))
    where
      run : ConstInt × State
      run = parse readers max_depth (enough_fuel tokens) conditional (start tokens)

      kept : Keeps (start tokens) run.1
      kept = parse-Keeps (enough_fuel tokens) conditional (start tokens)

  -- The result of an `#if` is `ok` exactly when it holds no error.
  pub evaluate-ok_iff :
      (tokens : List PpToken)
      → let r = evaluate_const_expr readers max_depth tokens in (r.ok ≡ true) ↔ (r.error ≡ none)
  unfolding evaluate_const_expr
  evaluate-ok_iff tokens = (evaluate-Answers tokens).ok_iff

  -- An expression that is `ok` used up all the tokens.
  pub evaluate-consumed :
      (tokens : List PpToken)
      → (evaluate_const_expr readers max_depth tokens).ok ≡ true
      → length (parse readers max_depth (enough_fuel tokens) conditional (start tokens)).1.tokens
        ≡ 0
  unfolding evaluate_const_expr parse
  evaluate-consumed tokens h = (evaluate-Answers tokens).consumed h

  -- An expression that is not `ok` has the value zero and an error.
  pub evaluate-refused :
      (tokens : List PpToken)
      → (evaluate_const_expr readers max_depth tokens).ok ≡ false
      → let r = evaluate_const_expr readers max_depth tokens in
        (r.value ≡ zero_int) × (r.error ≢ none)
  unfolding evaluate_const_expr
  evaluate-refused tokens h =
      ground (arith, (evaluate-Answers tokens).no_value h, (evaluate-Answers tokens).ok_iff)
