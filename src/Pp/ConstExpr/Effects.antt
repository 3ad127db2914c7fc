-- ===== src/Pp/ConstExpr/Effects.antt =====
-- What a parse function of src/pp/const_expr.cc does to the parser's state besides its value.
use mincplus.Prelude.{
  ℕ, zero, suc, ◌+◌, ◌≤◌, ◌<◌, ◌≡◌, ◌≢◌, Bool, true, false, ◌&&◌, not, Option, none, some, List, [],
  ◌∷◌, length, arith, Bool-cases, if_both, inl, inr,
}
use mincplus.Support.ConstInt.{ConstInt}
use mincplus.Support.Span.{Span}
use mincplus.Pp.ConstExpr.{PpToken, Message, State, Parser, peek, take, rest, fail, suppressing}
use mincplus.Pp.ConstExpr.Levels.{Level, Outcome, loop, parse_level, partial, going_on, returning}

pub record Keeps (s t : State) : Type 0 where
  pub same_depth : t.depth ≡ s.depth
  pub same_suppressed : t.suppressed ≡ s.suppressed
  pub fewer : length t.tokens ≤ length s.tokens
  pub silent_failed : 0 < s.suppressed → t.failed ≡ s.failed
  pub silent_names : 0 < s.suppressed → t.undefined_names ≡ s.undefined_names
  pub stays : s.failed ≡ true → t.failed ≡ true
  pub first_error : s.failed ≡ true → t.error ≡ s.error
  pub told : t.failed ≡ true → s.failed ≡ false → t.error ≢ none
  pub quiet : t.failed ≡ false → t.error ≡ s.error

abbrev pub AllKeeps : Parser → Type 0
AllKeeps p = (s : State) → Keeps s (p s).1

pub Keeps-refl : (s : State) → Keeps s s
Keeps-refl s = ground arith

pub Keeps-trans : {s t u : State} → Keeps s t → Keeps t u → Keeps s u
Keeps-trans {s} {t} {u} h k = ground arith

rest_fewer : (ts : List PpToken) → length (rest ts) ≤ length ts
rest_fewer [] = omega arith
rest_fewer (t ∷ ts) = omega arith

pub take-Keeps : (s : State) → Keeps s (take s)
take-Keeps s = ground (arith, rest_fewer s.tokens)

pub fail-Keeps : (p : Span) (m : Message) (s : State) → Keeps s (fail p m s)
unfolding fail
fail-Keeps p m s = ground arith

pub suppressing-Keeps : (skip : Bool) (p : Parser) → AllKeeps p → AllKeeps (suppressing skip p)
unfolding suppressing
suppressing-Keeps false p h s = h s
suppressing-Keeps true p h s = ground (arith, h (record s { suppressed = s.suppressed + 1 }))

-- What an operator of a level does to the state besides its value.
abbrev pub Combines : Level → Type 0
Combines l = (op : PpToken) (a b : ConstInt) (s : State) → Keeps s (l.combine op a b s).state

pub partial-Keeps :
    (r : Option ConstInt) (op : PpToken) (m : Message) (s : State)
    → Keeps s (partial r op m s).state
partial-Keeps r op m s =
    if_both (λ o. Keeps s (Outcome.state o)) s.failed (Keeps-refl s) (by_result r)
  where
    by_result :
        (r : Option ConstInt)
        → Keeps s (
            let o : Outcome = elim r [
              | some v ↦ going_on v s
              | none ↦ returning (fail op.span m s)
            ] in
            o.state)
    by_result (some v) = Keeps-refl s
    by_result none = fail-Keeps op.span m s

module _ (l : Level) (combines : Combines l) (operand : Parser) (h : AllKeeps operand) where
  loop-Keeps : (fuel : ℕ) (left : ConstInt) → AllKeeps (loop l operand fuel left)
  unfolding loop
  loop-Keeps zero left s = Keeps-refl s
  loop-Keeps (suc fuel) left s = elim (Bool-cases (not s.failed && l.takes (peek s).kind)) [
    | inr stop ↦ rw (stop, loop) (Keeps-refl s)
    | inl on ↦ rw (on, loop) (on_or_back (r.goes_on) (loop-Keeps fuel r.value r.state))
  ]
    where
      s' : State
      s' = (suppressing (l.skips left) operand (take s)).1

      right : ConstInt
      right = (suppressing (l.skips left) operand (take s)).0

      r : Outcome
      r = l.combine (peek s) left right s'

      so_far : Keeps s r.state
      so_far =
          Keeps-trans
            (Keeps-trans (take-Keeps s) (suppressing-Keeps (l.skips left) operand h (take s)))
            (combines (peek s) left right s')

      on_or_back :
          (b : Bool)
          → Keeps r.state (loop l operand fuel r.value r.state).1
          → Keeps s (
              let v : ConstInt × State = elim b [
                | true ↦ loop l operand fuel r.value r.state
                | false ↦ (r.value, r.state)
              ] in
              v.1)
      on_or_back true k = Keeps-trans so_far k
      on_or_back false k = so_far

  pub parse_level-Keeps : AllKeeps (parse_level l operand)
  unfolding parse_level
  parse_level-Keeps s =
      Keeps-trans (h s) (loop-Keeps (length (operand s).1.tokens) (operand s).0 (operand s).1)
