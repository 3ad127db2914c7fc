-- ===== src/Pp/ConstExpr/Fuel.antt =====
-- The fuel of `parse` (src/pp/const_expr.cc) is enough: more of it changes nothing.
use mincplus.Prelude.{
  ℕ, zero, suc, ◌+◌, ◌-◌, ◌≤◌, ◌≡◌, ◌∙◌, ap, refl, Bool, true, false, ◌&&◌, not, length, arith,
  Bool-cases, inl, inr,
}
use mincplus.Support.ConstInt.{ConstInt}
use mincplus.Pp.ConstExpr.{State, Parser, peek, take, suppressing}
use mincplus.Pp.ConstExpr.Levels.{
  Level, Outcome, loop, parse_level, logical_or_level, logical_and_level, bit_or_level,
  bit_xor_level, bit_and_level, equality_level, relational_level, shift_level, additive_level,
  multiplicative_level, parse_logical_or, parse_bit_or, parse_relational, parse_additive,
}
use mincplus.Pp.ConstExpr.Run.{
  logical_or-Combines, logical_and-Combines, bit_or-Combines, bit_xor-Combines, bit_and-Combines,
  equality-Combines, relational-Combines, shift-Combines, additive-Combines,
  multiplicative-Combines, parse_bit_or-Keeps, parse_bit_and-Keeps, parse_relational-Keeps,
  parse_additive-Keeps, bit_and_operand,
}
use mincplus.Pp.ConstExpr.Effects.{
  AllKeeps, take-Keeps, suppressing-Keeps, Combines, parse_level-Keeps,
}

-- Two parsers that give the same on every state of at most `n` tokens.
abbrev pub Agrees : ℕ → Parser → Parser → Type 0
Agrees n p q = (s : State) → length s.tokens ≤ n → p s ≡ q s

pub suppressing-Agrees :
    (n : ℕ) (p q : Parser) (skip : Bool)
    → Agrees n p q
    → Agrees n (suppressing skip p) (suppressing skip q)
unfolding suppressing
suppressing-Agrees n p q false h s few = h s few
suppressing-Agrees n p q true h s few =
    ap (λ (r : ConstInt × State). (r.0, record (r.1) { suppressed = r.1.suppressed - 1 }))
      (h (record s { suppressed = s.suppressed + 1 }) few)

module _ (n : ℕ) (l : Level) (combines : Combines l) (p q : Parser) (k : AllKeeps q)
    (h : Agrees n p q) where
  loop-Agrees : (fuel : ℕ) (left : ConstInt) → Agrees n (loop l p fuel left) (loop l q fuel left)
  unfolding loop
  loop-Agrees zero left s few = refl
  loop-Agrees (suc fuel) left s few = elim (Bool-cases (not s.failed && l.takes (peek s).kind)) [
    | inr stop ↦ rw (stop, loop) refl
    | inl on ↦
        rw (on, loop)
          (ap (λ (r : ConstInt × State). after p (l.combine (peek s) left r.0 r.1)) same_operand
            ∙ by_outcome combined.value combined.state combined.goes_on
                (loop-Agrees fuel combined.value combined.state few_left))
  ]
    where
      fewer : length (take s).tokens ≤ n
      fewer = omega (arith, (take-Keeps s).fewer, few)

      operand : ConstInt × State
      operand = suppressing (l.skips left) q (take s)

      same_operand : suppressing (l.skips left) p (take s) ≡ operand
      same_operand = suppressing-Agrees n p q (l.skips left) h (take s) fewer

      combined : Outcome
      combined = l.combine (peek s) left operand.0 operand.1

      few_left : length combined.state.tokens ≤ n
      few_left = omega (
        arith,
        fewer,
        (suppressing-Keeps (l.skips left) q k (take s)).fewer,
        (combines (peek s) left operand.0 operand.1).fewer,
      )

      after : Parser → Outcome → ConstInt × State
      after o r = elim r.goes_on [
        | true ↦ loop l o fuel r.value r.state
        | false ↦ (r.value, r.state)
      ]

      by_outcome :
          (v : ConstInt) (t : State) (b : Bool)
          → loop l p fuel v t ≡ loop l q fuel v t
          → after p (record { value = v; state = t; goes_on = b })
            ≡ after q (record { value = v; state = t; goes_on = b })
      by_outcome v t true same = same
      by_outcome v t false same = refl

  pub parse_level-Agrees : Agrees n (parse_level l p) (parse_level l q)
  unfolding parse_level
  parse_level-Agrees s few =
      ap (λ (r : ConstInt × State). loop l p (length r.1.tokens) r.0 r.1) (h s few)
      ∙ loop-Agrees (length (q s).1.tokens) (q s).0 (q s).1 (omega (arith, (k s).fewer, few))

-- Agreement up the levels, over operands that agree.
module _ (n : ℕ) (p q : Parser) (k : AllKeeps q) (h : Agrees n p q) where
  parse_additive-Agrees : Agrees n (parse_additive p) (parse_additive q)
  unfolding parse_additive
  parse_additive-Agrees =
      parse_level-Agrees n additive_level additive-Combines (parse_level multiplicative_level p)
        (parse_level multiplicative_level q)
        (parse_level-Keeps multiplicative_level multiplicative-Combines q k)
        (parse_level-Agrees n multiplicative_level multiplicative-Combines p q k h)

  parse_relational-Agrees : Agrees n (parse_relational p) (parse_relational q)
  unfolding parse_relational
  parse_relational-Agrees =
      parse_level-Agrees n relational_level relational-Combines
        (parse_level shift_level (parse_additive p)) (parse_level shift_level (parse_additive q))
        (parse_level-Keeps shift_level shift-Combines (parse_additive q) (parse_additive-Keeps q k))
        (parse_level-Agrees n shift_level shift-Combines (parse_additive p) (parse_additive q)
          (parse_additive-Keeps q k) parse_additive-Agrees)

  parse_bit_and-Agrees : Agrees n (bit_and_operand p) (bit_and_operand q)
  parse_bit_and-Agrees =
      parse_level-Agrees n bit_and_level bit_and-Combines
        (parse_level equality_level (parse_relational p))
        (parse_level equality_level (parse_relational q))
        (parse_level-Keeps equality_level equality-Combines (parse_relational q)
          (parse_relational-Keeps q k))
        (parse_level-Agrees n equality_level equality-Combines (parse_relational p)
          (parse_relational q) (parse_relational-Keeps q k) parse_relational-Agrees)

  parse_bit_or-Agrees : Agrees n (parse_bit_or p) (parse_bit_or q)
  unfolding parse_bit_or
  parse_bit_or-Agrees =
      parse_level-Agrees n bit_or_level bit_or-Combines
        (parse_level bit_xor_level (bit_and_operand p))
        (parse_level bit_xor_level (bit_and_operand q))
        (parse_level-Keeps bit_xor_level bit_xor-Combines (bit_and_operand q)
          (parse_bit_and-Keeps q k))
        (parse_level-Agrees n bit_xor_level bit_xor-Combines (bit_and_operand p) (bit_and_operand q)
          (parse_bit_and-Keeps q k) parse_bit_and-Agrees)

  pub parse_logical_or-Agrees : Agrees n (parse_logical_or p) (parse_logical_or q)
  unfolding parse_logical_or
  parse_logical_or-Agrees =
      parse_level-Agrees n logical_or_level logical_or-Combines
        (parse_level logical_and_level (parse_bit_or p))
        (parse_level logical_and_level (parse_bit_or q))
        (parse_level-Keeps logical_and_level logical_and-Combines (parse_bit_or q)
          (parse_bit_or-Keeps q k))
        (parse_level-Agrees n logical_and_level logical_and-Combines (parse_bit_or p)
          (parse_bit_or q) (parse_bit_or-Keeps q k) parse_bit_or-Agrees)
