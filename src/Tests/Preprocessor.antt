-- ===== src/Tests/Preprocessor.antt =====
-- The theorems on the preprocessor at fixed inputs.
use mincplus.Prelude.{◌≡◌, ◌≤◌, refl, true, false, none, List, [], ◌∷◌, length, arith}
use mincplus.Pp.Conditionals.{ConditionalStack}
use mincplus.Pp.Conditionals.Invariant.{IsValid, an_if, an_elif, an_endif, run, run-IsValid}
use mincplus.Pp.Conditionals.Chain.{branches, first_true, branches-first_true}
use mincplus.Pp.ConstExpr.{PpToken, State, plus, star}
use mincplus.Pp.ConstExpr.Grammar.{conditional, parse, start}
use mincplus.Pp.ConstExpr.Enough.{parse-enough_fuel}
use mincplus.Pp.ConstExpr.Result.{parse-after_failure}
use mincplus.Tests.ConstExpr.{digits_only, token, number}

-- An `#else` inside a live `#if`.
abbrev inside : ConditionalStack
inside = record { parent_live = true; live = false; taken = true; seen_else = true } ∷ []

run-IsValid_example :
    IsValid (run 2 (an_if true ∷ an_elif true ∷ an_endif ∷ []) inside)
    × (length (run 2 (an_if true ∷ an_elif true ∷ an_endif ∷ []) inside) ≤ 2)
run-IsValid_example =
    run-IsValid 2 (an_if true ∷ an_elif true ∷ an_endif ∷ []) inside (ground arith) (omega arith)

branches-first_true_example :
    branches 9 false (false ∷ true ∷ true ∷ []) []
    ≡ first_true true (false ∷ false ∷ true ∷ true ∷ [])
branches-first_true_example =
    branches-first_true 9 false (false ∷ true ∷ true ∷ []) [] (omega arith)

-- 1 + 2
abbrev sum : List PpToken
sum = number b'1' ∷ token plus ∷ number b'2' ∷ []

-- * 2
abbrev broken : List PpToken
broken = token star ∷ number b'2' ∷ []

parse-enough_fuel_example :
    parse digits_only 9 20 conditional (start sum) ≡ parse digits_only 9 8 conditional (start sum)
parse-enough_fuel_example = parse-enough_fuel digits_only 9 sum 20 (omega arith)

-- The parser inside an operand that is not evaluated.
abbrev unevaluated : State
unevaluated = record (start broken) { suppressed = 1 }

-- The parser after a failure.
abbrev after_failure : State
after_failure = record (start sum) { failed = true }

parse-after_failure_example :
    let t = (parse digits_only 9 8 conditional after_failure).1 in t.failed ≡ true × t.error ≡ none
parse-after_failure_example = parse-after_failure digits_only 9 8 conditional after_failure refl
