-- ===== src/Pp/ConstExpr/Run.antt =====
-- The state that each parse function of src/pp/const_expr.cc leaves behind.
use mincplus.Prelude.{
  ℕ, ◌+◌, ◌-◌, Bool, ◌&&◌, not, ltb, if◌then◌else◌, Option, none, some, List, length, arith,
  if_both,
}
use mincplus.Support.ConstInt.{ConstInt, truthy}
use mincplus.Support.Span.{no_span}
use mincplus.Pp.ConstExpr.{
  PpToken, Message, State, Parser, Readers, TokenKind, zero_int, peek, take, at_end, fail,
  suppressing, identifier, integer_literal, char_literal, l_paren, r_paren, question, colon,
  nests_too_deeply, expected_close, unterminated, expected_after_last, expected_primary,
  expected_colon, malformed_integer, malformed_char, shift_out_of_range,
}
use mincplus.Pp.ConstExpr.Levels.{
  parse_level, logical_or_level, logical_and_level, bit_or_level, bit_xor_level, bit_and_level,
  equality_level, relational_level, shift_level, additive_level, multiplicative_level,
  parse_logical_or, parse_bit_or, parse_relational, parse_additive, shifted, multiplied,
  zero_message,
}
use mincplus.Pp.ConstExpr.Grammar.{
  guarded, parse_literal, parse_identifier, parse_parenthesized, parse_primary, unary_operator,
  parse_unary, parse_branches, parse_conditional,
}
use mincplus.Pp.ConstExpr.Effects.{
  Keeps, AllKeeps, Keeps-refl, Keeps-trans, take-Keeps, fail-Keeps, suppressing-Keeps, Combines,
  partial-Keeps, parse_level-Keeps,
}

-- No operator of a level does more to the state than report an error.
pub logical_or-Combines : Combines logical_or_level
unfolding logical_or_level
logical_or-Combines op a b = Keeps-refl

pub logical_and-Combines : Combines logical_and_level
unfolding logical_and_level
logical_and-Combines op a b = Keeps-refl

pub bit_or-Combines : Combines bit_or_level
unfolding bit_or_level
bit_or-Combines op a b = Keeps-refl

pub bit_xor-Combines : Combines bit_xor_level
unfolding bit_xor_level
bit_xor-Combines op a b = Keeps-refl

pub bit_and-Combines : Combines bit_and_level
unfolding bit_and_level
bit_and-Combines op a b = Keeps-refl

pub equality-Combines : Combines equality_level
unfolding equality_level
equality-Combines op a b = Keeps-refl

pub relational-Combines : Combines relational_level
unfolding relational_level
relational-Combines op a b = Keeps-refl

pub additive-Combines : Combines additive_level
unfolding additive_level
additive-Combines op a b = Keeps-refl

pub shift-Combines : Combines shift_level
unfolding shift_level
shift-Combines op a b = partial-Keeps (shifted op.kind a b) op shift_out_of_range

pub multiplicative-Combines : Combines multiplicative_level
unfolding multiplicative_level
multiplicative-Combines op a b = partial-Keeps (multiplied op.kind a b) op (zero_message op.kind)

-- The operand of `parseBitXor`.
abbrev pub bit_and_operand : Parser → Parser
bit_and_operand operand =
    parse_level bit_and_level (parse_level equality_level (parse_relational operand))

-- The levels, over a parser of the operands.
module _ (operand : Parser) (h : AllKeeps operand) where
  pub parse_additive-Keeps : AllKeeps (parse_additive operand)
  unfolding parse_additive
  parse_additive-Keeps =
      parse_level-Keeps additive_level additive-Combines (parse_level multiplicative_level operand)
        (parse_level-Keeps multiplicative_level multiplicative-Combines operand h)

  pub parse_relational-Keeps : AllKeeps (parse_relational operand)
  unfolding parse_relational
  parse_relational-Keeps =
      parse_level-Keeps relational_level relational-Combines
        (parse_level shift_level (parse_additive operand))
        (parse_level-Keeps shift_level shift-Combines (parse_additive operand) parse_additive-Keeps)

  pub parse_bit_and-Keeps : AllKeeps (bit_and_operand operand)
  parse_bit_and-Keeps =
      parse_level-Keeps bit_and_level bit_and-Combines
        (parse_level equality_level (parse_relational operand))
        (parse_level-Keeps equality_level equality-Combines (parse_relational operand)
          parse_relational-Keeps)

  pub parse_bit_or-Keeps : AllKeeps (parse_bit_or operand)
  unfolding parse_bit_or
  parse_bit_or-Keeps =
      parse_level-Keeps bit_or_level bit_or-Combines
        (parse_level bit_xor_level (bit_and_operand operand))
        (parse_level-Keeps bit_xor_level bit_xor-Combines (bit_and_operand operand)
          parse_bit_and-Keeps)

  pub parse_logical_or-Keeps : AllKeeps (parse_logical_or operand)
  unfolding parse_logical_or
  parse_logical_or-Keeps =
      parse_level-Keeps logical_or_level logical_or-Combines
        (parse_level logical_and_level (parse_bit_or operand))
        (parse_level-Keeps logical_and_level logical_and-Combines (parse_bit_or operand)
          parse_bit_or-Keeps)

parse_literal-Keeps :
    (read : List ℕ → Option ConstInt) (n : ℕ) (m : Message) (t : PpToken)
    → AllKeeps (parse_literal read n m t)
unfolding parse_literal
parse_literal-Keeps read n m t s =
    if_both (λ (r : ConstInt × State). Keeps s r.1) (ltb (length t.text) n) (fail-Keeps t.span m s)
      (by_value (read t.text))
  where
    by_value :
        (r : Option ConstInt)
        → Keeps s (
            let v : ConstInt × State = elim r [
              | some v ↦ (v, s)
              | none ↦ (zero_int, fail t.span m s)
            ] in
            v.1)
    by_value (some v) = Keeps-refl s
    by_value none = fail-Keeps t.span m s

parse_identifier-Keeps : AllKeeps parse_identifier
unfolding parse_identifier
parse_identifier-Keeps s = ground (arith, take-Keeps s)

parse_parenthesized-Keeps : (inner : Parser) → AllKeeps inner → AllKeeps (parse_parenthesized inner)
unfolding parse_parenthesized
parse_parenthesized-Keeps inner h s =
    if_both (λ (r : ConstInt × State). Keeps s r.1) s'.failed inside (closed (peek s').kind)
  where
    s' : State
    s' = (inner (take s)).1

    inside : Keeps s s'
    inside = Keeps-trans (take-Keeps s) (h (take s))

    closed :
        (k : TokenKind)
        → Keeps s (
            let v : ConstInt × State = elim k [
              | r_paren ↦ ((inner (take s)).0, take s')
              | _ ↦ (
                zero_int,
                if not (at_end s')
                    then fail (peek s').span expected_close s'
                    else fail (peek s).span unterminated s',
              )
            ] in
            v.1)
    closed r_paren = Keeps-trans inside (take-Keeps s')
    closed _ = Keeps-trans inside (
        if_both (Keeps s') (not (at_end s')) (fail-Keeps (peek s').span expected_close s')
          (fail-Keeps (peek s).span unterminated s'))

-- The depth is back where it was when the guard goes out of scope.
leave-Keeps :
    (s t : State)
    → Keeps (record s { depth = s.depth + 1 }) t
    → Keeps s (record t { depth = t.depth - 1 })
leave-Keeps s t h = ground (arith, h)

guarded-Keeps : (max_depth : ℕ) (body : Parser) → AllKeeps body → AllKeeps (guarded max_depth body)
unfolding guarded
guarded-Keeps max_depth body h s = leave-Keeps s done.1 (
    Keeps-trans checks (
      if_both (λ (r : ConstInt × State). Keeps checked r.1) checked.failed (Keeps-refl checked)
        (h checked)))
  where
    inside : State
    inside = record s { depth = s.depth + 1 }

    checked : State
    checked = if ltb max_depth (s.depth + 1) then fail no_span nests_too_deeply inside else inside

    done : ConstInt × State
    done = if checked.failed then (zero_int, checked) else body checked

    checks : Keeps inside checked
    checks =
        if_both (Keeps inside) (ltb max_depth (s.depth + 1))
          (fail-Keeps no_span nests_too_deeply inside) (Keeps-refl inside)

module _ (readers : Readers) (inner : Parser) (h : AllKeeps inner) where
  by_kind-Keeps :
      (s : State) (k : TokenKind)
      → Keeps s (
          let v : ConstInt × State = elim k [
            | identifier ↦ parse_identifier s
            | integer_literal ↦ parse_literal readers.integer 1 malformed_integer (peek s) (take s)
            | char_literal ↦ parse_literal readers.character 2 malformed_char (peek s) (take s)
            | l_paren ↦ parse_parenthesized inner s
            | _ ↦ (
              zero_int,
              if at_end s
                  then fail (peek s).span expected_after_last s
                  else fail (peek s).span expected_primary s,
            )
          ] in
          v.1)
  by_kind-Keeps s identifier = parse_identifier-Keeps s
  by_kind-Keeps s integer_literal =
      Keeps-trans (take-Keeps s)
        (parse_literal-Keeps readers.integer 1 malformed_integer (peek s) (take s))
  by_kind-Keeps s char_literal =
      Keeps-trans (take-Keeps s)
        (parse_literal-Keeps readers.character 2 malformed_char (peek s) (take s))
  by_kind-Keeps s l_paren = parse_parenthesized-Keeps inner h s
  by_kind-Keeps s _ =
      if_both (Keeps s) (at_end s) (fail-Keeps (peek s).span expected_after_last s)
        (fail-Keeps (peek s).span expected_primary s)

  pub parse_primary-Keeps : AllKeeps (parse_primary readers inner)
  unfolding parse_primary
  parse_primary-Keeps s =
      if_both (λ (r : ConstInt × State). Keeps s r.1) s.failed (Keeps-refl s)
        (by_kind-Keeps s (peek s).kind)

pub parse_unary-Keeps :
    (max_depth : ℕ) (operand primary : Parser)
    → AllKeeps operand
    → AllKeeps primary
    → AllKeeps (parse_unary max_depth operand primary)
unfolding parse_unary
parse_unary-Keeps max_depth operand primary h k =
    guarded-Keeps max_depth body (λ s. by_operator s (unary_operator (peek s).kind))
  where
    body : Parser
    body s = elim (unary_operator (peek s).kind) [
      | some f ↦ let (v, s') = operand (take s) in (f v, s')
      | none ↦ primary s
    ]

    by_operator :
        (s : State) (o : Option (ConstInt → ConstInt))
        → Keeps s (
            let v : ConstInt × State = elim o [
              | some f ↦ let (v, s') = operand (take s) in (f v, s')
              | none ↦ primary s
            ] in
            v.1)
    by_operator s (some f) = Keeps-trans (take-Keeps s) (h (take s))
    by_operator s none = k s

module _ (inner : Parser) (h : AllKeeps inner) (condition : ConstInt) where
  after_colon-Keeps :
      (taken : Bool) (left : ConstInt) (s : State) (k : TokenKind)
      → Keeps s (
          let v : ConstInt × State = elim k [
            | colon ↦
                let (right, s'') = suppressing taken inner (take s) in
                (if taken then left else right, s'')
            | _ ↦ (
              zero_int,
              if not s.failed && not (at_end s) then fail (peek s).span expected_colon s else s,
            )
          ] in
          v.1)
  after_colon-Keeps taken left s colon =
      Keeps-trans (take-Keeps s) (suppressing-Keeps taken inner h (take s))
  after_colon-Keeps taken left s _ =
      if_both (Keeps s) (not s.failed && not (at_end s)) (fail-Keeps (peek s).span expected_colon s)
        (Keeps-refl s)

  parse_branches-Keeps : AllKeeps (parse_branches inner condition)
  unfolding parse_branches
  parse_branches-Keeps s = by_kind (peek s).kind
    where
      taken : Bool
      taken = truthy condition

      first_arm : ConstInt × State
      first_arm = suppressing (not taken) inner (take s)

      by_kind :
          (k : TokenKind)
          → Keeps s (
              let v : ConstInt × State = elim k [
                | question ↦
                    let (left, s') = suppressing (not taken) inner (take s) in
                    elim (peek s').kind [
                      | colon ↦
                          let (right, s'') = suppressing taken inner (take s') in
                          (if taken then left else right, s'')
                      | _ ↦ (
                        zero_int,
                        if not s'.failed && not (at_end s')
                            then fail (peek s').span expected_colon s'
                            else s',
                      )
                    ]
                | _ ↦ (condition, s)
              ] in
              v.1)
      by_kind question =
          Keeps-trans (Keeps-trans (take-Keeps s) (suppressing-Keeps (not taken) inner h (take s)))
            (after_colon-Keeps taken first_arm.0 first_arm.1 (peek first_arm.1).kind)
      by_kind _ = Keeps-refl s

pub parse_conditional-Keeps :
    (max_depth : ℕ) (inner logical_or : Parser)
    → AllKeeps inner
    → AllKeeps logical_or
    → AllKeeps (parse_conditional max_depth inner logical_or)
unfolding parse_conditional
parse_conditional-Keeps max_depth inner logical_or h k =
    guarded-Keeps max_depth body
      (λ s. Keeps-trans (k s) (parse_branches-Keeps inner h (logical_or s).0 (logical_or s).1))
  where
    body : Parser
    body s = let (condition, s') = logical_or s in parse_branches inner condition s'
