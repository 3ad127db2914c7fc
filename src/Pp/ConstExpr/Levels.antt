-- ===== src/Pp/ConstExpr/Levels.antt =====
-- The binary levels of the grammar of src/pp/const_expr.cc, from `parseLogicalOr` down to
-- `parseMultiplicative`. Each is one loop over the operators of the level.
use mincplus.Prelude.{
  ℕ, zero, suc, Bool, true, false, ◌&&◌, ◌||◌, not, ltb, ◌==◌, if◌then◌else◌, Option, none, some,
  length,
}
use mincplus.Prelude.Int.{ℤ, pos, negsuc}
use mincplus.Support.ConstInt
use mincplus.Support.ConstInt.{ConstInt, truthy}
use mincplus.Pp.ConstExpr.{
  TokenKind, pipe_pipe, amp_amp, pipe, caret, amp, equal_equal, bang_equal, less, greater,
  less_equal, greater_equal, less_less, greater_greater, plus, minus, star, slash, percent, PpToken,
  Message, shift_out_of_range, division_by_zero, remainder_by_zero, State, Parser, zero_int,
  bool_int, peek, take, fail, suppressing,
}

-- What an operator does with its operands: the new left operand, the state, and whether the loop
-- goes on (`return` ends it).
pub record Outcome : Type 0 where
  pub value : ConstInt
  pub state : State
  pub goes_on : Bool

-- A level: its operators, when the right operand is parsed with errors suppressed, and what an
-- operator token does with the operands.
pub record Level : Type 0 where
  pub takes : TokenKind → Bool
  pub skips : ConstInt → Bool
  pub combine : PpToken → ConstInt → ConstInt → State → Outcome

abbrev pub going_on : ConstInt → State → Outcome
going_on v s = record { value = v; state = s; goes_on = true }

abbrev pub returning : State → Outcome
returning s = record { value = zero_int; state = s; goes_on = false }

-- The loop, with fuel for the tokens that are left: every round takes one.
unfoldable pub loop : Level → Parser → ℕ → ConstInt → Parser
unfolding suppressing
loop l operand zero left s = (left, s)
loop l operand (suc fuel) left s = elim (not s.failed && l.takes (peek s).kind) [
  | true ↦
      let op = peek s in
      let (right, s') = suppressing (l.skips left) operand (take s) in
      let r = l.combine op left right s' in
      elim r.goes_on [ true ↦ loop l operand fuel r.value r.state | false ↦ (r.value, r.state) ]
  | false ↦ (left, s)
]

unfoldable pub parse_level : Level → Parser → Parser
unfolding loop
parse_level l operand s = let (left, s') = operand s in loop l operand (length s'.tokens) left s'

abbrev pub never_skips : ConstInt → Bool
never_skips left = false

-- An operator that cannot fail.
abbrev pub pure :
    (TokenKind → ConstInt → ConstInt → ConstInt) → PpToken → ConstInt → ConstInt → State → Outcome
pure f op left right s = going_on (f op.kind left right) s

unfoldable pub logical_or_level : Level
unfolding truthy
logical_or_level = record {
  takes = elim [ pipe_pipe ↦ true | _ ↦ false ];
  skips = truthy;
  combine = pure (λ _ a b. bool_int (truthy a || truthy b));
}

unfoldable pub logical_and_level : Level
unfolding truthy
logical_and_level = record {
  takes = elim [ amp_amp ↦ true | _ ↦ false ];
  skips = λ a. not (truthy a);
  combine = pure (λ _ a b. bool_int (truthy a && truthy b));
}

unfoldable pub bit_or_level : Level
unfolding ConstInt.bit_or
bit_or_level = record {
  takes = elim [ pipe ↦ true | _ ↦ false ];
  skips = never_skips;
  combine = pure (λ _. ConstInt.bit_or);
}

unfoldable pub bit_xor_level : Level
unfolding ConstInt.bit_xor
bit_xor_level = record {
  takes = elim [ caret ↦ true | _ ↦ false ];
  skips = never_skips;
  combine = pure (λ _. ConstInt.bit_xor);
}

unfoldable pub bit_and_level : Level
unfolding ConstInt.bit_and
bit_and_level = record {
  takes = elim [ amp ↦ true | _ ↦ false ];
  skips = never_skips;
  combine = pure (λ _. ConstInt.bit_and);
}

abbrev pub equality : TokenKind → ConstInt → ConstInt → ConstInt
equality equal_equal a b = bool_int (a.bits == b.bits)
equality _ a b = bool_int (not (a.bits == b.bits))

unfoldable pub equality_level : Level
equality_level = record {
  takes = elim [ equal_equal ↦ true | bang_equal ↦ true | _ ↦ false ];
  skips = never_skips;
  combine = pure equality;
}

-- The test on the order, which is -1, 0 or 1.
abbrev pub order_holds : TokenKind → ℤ → Bool
order_holds less (negsuc n) = true
order_holds less (pos n) = false
order_holds greater (pos n) = ltb 0 n
order_holds greater (negsuc n) = false
order_holds less_equal (pos n) = n == 0
order_holds less_equal (negsuc n) = true
order_holds _ (pos n) = true
order_holds _ (negsuc n) = false

unfoldable pub relational_level : Level
unfolding ConstInt.compare
relational_level = record {
  takes = elim [
    | less ↦ true
    | greater ↦ true
    | less_equal ↦ true
    | greater_equal ↦ true
    | _ ↦ false
  ];
  skips = never_skips;
  combine = pure (λ kind a b. bool_int (order_holds kind (ConstInt.compare a b)));
}

-- An operator with no value fails at its own token and returns from the level; after an earlier
-- failure the level returns too.
abbrev pub partial : Option ConstInt → PpToken → Message → State → Outcome
partial result op message s =
    if s.failed
    then returning s
    else elim result [ some v ↦ going_on v s | none ↦ returning (fail op.span message s) ]

abbrev pub shifted : TokenKind → ConstInt → ConstInt → Option ConstInt
shifted less_less a b = ConstInt.shift_left a b
shifted _ a b = ConstInt.shift_right a b

unfoldable pub shift_level : Level
unfolding fail ConstInt.shift_left ConstInt.shift_right
shift_level = record {
  takes = elim [ less_less ↦ true | greater_greater ↦ true | _ ↦ false ];
  skips = never_skips;
  combine = λ op a b. partial (shifted op.kind a b) op shift_out_of_range;
}

abbrev pub added : TokenKind → ConstInt → ConstInt → ConstInt
added plus a b = ConstInt.add a b
added _ a b = ConstInt.sub a b

unfoldable pub additive_level : Level
unfolding ConstInt.add ConstInt.sub
additive_level = record {
  takes = elim [ plus ↦ true | minus ↦ true | _ ↦ false ];
  skips = never_skips;
  combine = pure added;
}

abbrev pub multiplied : TokenKind → ConstInt → ConstInt → Option ConstInt
multiplied star a b = some (ConstInt.mul a b)
multiplied slash a b = ConstInt.divide a b
multiplied _ a b = ConstInt.remainder a b

abbrev pub zero_message : TokenKind → Message
zero_message slash = division_by_zero
zero_message _ = remainder_by_zero

unfoldable pub multiplicative_level : Level
unfolding fail ConstInt.mul ConstInt.divide ConstInt.remainder
multiplicative_level = record {
  takes = elim [ star ↦ true | slash ↦ true | percent ↦ true | _ ↦ false ];
  skips = never_skips;
  combine = λ op a b. partial (multiplied op.kind a b) op (zero_message op.kind);
}

-- `parseMultiplicative` up to `parseLogicalOr`, over the parser of an operand.
unfoldable pub parse_additive : Parser → Parser
unfolding parse_level additive_level multiplicative_level
parse_additive unary = parse_level additive_level (parse_level multiplicative_level unary)

unfoldable pub parse_relational : Parser → Parser
unfolding parse_additive relational_level shift_level
parse_relational unary =
    parse_level relational_level (parse_level shift_level (parse_additive unary))

unfoldable pub parse_bit_or : Parser → Parser
unfolding parse_relational equality_level bit_and_level bit_xor_level bit_or_level
parse_bit_or unary = parse_level bit_or_level (
    parse_level bit_xor_level
      (parse_level bit_and_level (parse_level equality_level (parse_relational unary))))

unfoldable pub parse_logical_or : Parser → Parser
unfolding parse_bit_or logical_and_level logical_or_level
parse_logical_or unary =
    parse_level logical_or_level (parse_level logical_and_level (parse_bit_or unary))
