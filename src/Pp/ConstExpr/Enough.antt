-- ===== src/Pp/ConstExpr/Enough.antt =====
-- The nesting of the recursive productions of src/pp/const_expr.cc: two calls for each token.
use mincplus.Prelude.{
  ℕ, zero, suc, ◌+◌, ◌-◌, ◌*◌, ◌≤◌, ◌<◌, ◌≡◌, ◌∙◌, ap, refl, Bool, ◌&&◌, not, ltb, if◌then◌else◌,
  Option, none, some, List, [], ◌∷◌, length, arith, if_both,
}
use mincplus.Support.ConstInt.{ConstInt, truthy}
use mincplus.Support.Span.{no_span}
use mincplus.Pp.ConstExpr.{
  PpToken, State, Parser, Readers, TokenKind, zero_int, peek, take, at_end, fail, suppressing,
  identifier, integer_literal, char_literal, l_paren, r_paren, question, colon, expected_close,
  unterminated, expected_after_last, expected_primary, expected_colon, malformed_integer,
  malformed_char, nests_too_deeply,
}
use mincplus.Pp.ConstExpr.Levels.{parse_logical_or}
use mincplus.Pp.ConstExpr.Grammar.{
  guarded, parse_literal, parse_identifier, parse_parenthesized, parse_primary, unary_operator,
  parse_unary, parse_branches, parse_conditional, Production, conditional, unary, parse,
  enough_fuel, start,
}
use mincplus.Pp.ConstExpr.Effects.{AllKeeps, take-Keeps, fail-Keeps, suppressing-Keeps}
use mincplus.Pp.ConstExpr.Run.{parse_logical_or-Keeps}
use mincplus.Pp.ConstExpr.Result.{parse-Keeps}
use mincplus.Pp.ConstExpr.Fuel.{Agrees, suppressing-Agrees, parse_logical_or-Agrees}

guarded-Agrees :
    (n max_depth : ℕ) (p q : Parser)
    → Agrees n p q
    → Agrees n (guarded max_depth p) (guarded max_depth q)
unfolding guarded
guarded-Agrees n max_depth p q h s few = ap leave body
  where
    leave : ConstInt × State → ConstInt × State
    leave r = (r.0, record (r.1) { depth = r.1.depth - 1 })

    inside : State
    inside = record s { depth = s.depth + 1 }

    checked : State
    checked = if ltb max_depth (s.depth + 1) then fail no_span nests_too_deeply inside else inside

    few' : length checked.tokens ≤ n
    few' =
        if_both (λ (t : State). length t.tokens ≤ n) (ltb max_depth (s.depth + 1))
          (omega (arith, (fail-Keeps no_span nests_too_deeply inside).fewer, few)) few

    body :
        (if checked.failed then (zero_int, checked) else p checked)
        ≡ (if checked.failed then (zero_int, checked) else q checked)
    body =
        ap (λ (r : ConstInt × State). if checked.failed then (zero_int, checked) else r)
          (h checked few')

-- Two parsers that give the same on every state of fewer than `n` tokens.
abbrev Below : ℕ → Parser → Parser → Type 0
Below n p q = (s : State) → length s.tokens < n → p s ≡ q s

parse_primary-Agrees :
    (n : ℕ) (readers : Readers) (p q : Parser)
    → Below n p q
    → Agrees n (parse_primary readers p) (parse_primary readers q)
unfolding parse_primary parse_parenthesized
parse_primary-Agrees n readers p q h s few = by_tokens s.tokens few
  where
    on : Parser → List PpToken → ConstInt × State
    on o ts = parse_primary readers o (record s { tokens = ts })

    by_tokens : (ts : List PpToken) → length ts ≤ n → on p ts ≡ on q ts
    by_tokens [] few = refl
    by_tokens (t ∷ ts) few =
        ap
          (λ (r : ConstInt × State).
            if s.failed then (zero_int, record s { tokens = t ∷ ts }) else r)
          (by_kind t.kind)
      where
        with_kind : TokenKind → Parser → ConstInt × State
        with_kind k o = elim k [
          | identifier ↦ parse_identifier (record s { tokens = t ∷ ts })
          | integer_literal ↦
              parse_literal readers.integer 1 malformed_integer t (record s { tokens = ts })
          | char_literal ↦
              parse_literal readers.character 2 malformed_char t (record s { tokens = ts })
          | l_paren ↦ parse_parenthesized o (record s { tokens = t ∷ ts })
          | _ ↦ (
            zero_int,
            if at_end (record s { tokens = t ∷ ts })
                then fail t.span expected_after_last (record s { tokens = t ∷ ts })
                else fail t.span expected_primary (record s { tokens = t ∷ ts }),
          )
        ]

        closing : ConstInt × State → ConstInt × State
        closing r =
            let (v, s') = r in
            if s'.failed then (v, s') else elim (peek s').kind [
              | r_paren ↦ (v, take s')
              | _ ↦ (
                zero_int,
                if not (at_end s')
                    then fail (peek s').span expected_close s'
                    else fail t.span unterminated s',
              )
            ]

        by_kind : (k : TokenKind) → with_kind k p ≡ with_kind k q
        by_kind l_paren = ap closing (h (record s { tokens = ts }) few)
        by_kind _ = refl

parse_unary-Agrees :
    (n max_depth : ℕ) (p q primary primary' : Parser)
    → Below n p q
    → Agrees n primary primary'
    → Agrees n (parse_unary max_depth p primary) (parse_unary max_depth q primary')
unfolding parse_unary
parse_unary-Agrees n max_depth p q primary primary' h k =
    guarded-Agrees n max_depth (body p primary) (body q primary')
      (λ s few. by_tokens s s.tokens few)
  where
    body : Parser → Parser → Parser
    body o prim s = elim (unary_operator (peek s).kind) [
      | some f ↦ let (v, s') = o (take s) in (f v, s')
      | none ↦ prim s
    ]

    by_tokens :
        (s : State) (ts : List PpToken)
        → length ts ≤ n
        → body p primary (record s { tokens = ts }) ≡ body q primary' (record s { tokens = ts })
    by_tokens s [] few = k (record s { tokens = [] }) few
    by_tokens s (t ∷ ts) few = by_operator (unary_operator t.kind)
      where
        with_operator : Option (ConstInt → ConstInt) → Parser → Parser → ConstInt × State
        with_operator o operand prim = elim o [
          | some f ↦ let (v, s') = operand (record s { tokens = ts }) in (f v, s')
          | none ↦ prim (record s { tokens = t ∷ ts })
        ]

        by_operator :
            (o : Option (ConstInt → ConstInt))
            → with_operator o p primary ≡ with_operator o q primary'
        by_operator (some f) =
            ap (λ (r : ConstInt × State). (f r.0, r.1)) (h (record s { tokens = ts }) few)
        by_operator none = k (record s { tokens = t ∷ ts }) few

-- What follows the first branch of a conditional.
abbrev after_colon : Parser → Bool → ConstInt → Parser
after_colon o taken left s = elim (peek s).kind [
  | colon ↦ let (right, s'') = suppressing taken o (take s) in (if taken then left else right, s'')
  | _ ↦
      (zero_int, if not s.failed && not (at_end s) then fail (peek s).span expected_colon s else s)
]

suppressing-Below :
    (n : ℕ) (p q : Parser) (skip : Bool)
    → Below n p q
    → Below n (suppressing skip p) (suppressing skip q)
suppressing-Below n p q skip h s few =
    suppressing-Agrees (length s.tokens) p q skip (λ t fewer. h t (omega (arith, few, fewer))) s
      (omega arith)

after_colon-Agrees :
    (n : ℕ) (p q : Parser)
    → Below n p q
    → (taken : Bool) (left : ConstInt) (s : State) → length s.tokens < n
    → after_colon p taken left s ≡ after_colon q taken left s
after_colon-Agrees n p q h taken left s few = by_kind (peek s).kind
  where
    with_kind : TokenKind → Parser → ConstInt × State
    with_kind k o = elim k [
      | colon ↦
          let (right, s'') = suppressing taken o (take s) in (if taken then left else right, s'')
      | _ ↦ (
        zero_int,
        if not s.failed && not (at_end s) then fail (peek s).span expected_colon s else s,
      )
    ]

    by_kind : (k : TokenKind) → with_kind k p ≡ with_kind k q
    by_kind colon =
        ap (λ (r : ConstInt × State). (if taken then left else r.0, r.1))
          (suppressing-Below n p q taken h (take s) (omega (arith, few, (take-Keeps s).fewer)))
    by_kind _ = refl

parse_branches-Agrees :
    (n : ℕ) (p q : Parser) (condition : ConstInt)
    → AllKeeps q
    → Below n p q
    → Agrees n (parse_branches p condition) (parse_branches q condition)
unfolding parse_branches
parse_branches-Agrees n p q condition keeps h s few = by_tokens s.tokens few
  where
    taken : Bool
    taken = truthy condition

    by_tokens :
        (ts : List PpToken)
        → length ts ≤ n
        → parse_branches p condition (record s { tokens = ts })
          ≡ parse_branches q condition (record s { tokens = ts })
    by_tokens [] few = refl
    by_tokens (t ∷ ts) few = by_kind t.kind
      where
        left_of : Parser → ConstInt × State
        left_of o = suppressing (not taken) o (record s { tokens = ts })

        after_left : Parser → ConstInt × State → ConstInt × State
        after_left o r =
            let (left, s') = r in
            elim (peek s').kind [
              | colon ↦
                  let (right, s'') = suppressing taken o (take s') in
                  (if taken then left else right, s'')
              | _ ↦ (
                zero_int,
                if not s'.failed && not (at_end s')
                    then fail (peek s').span expected_colon s'
                    else s',
              )
            ]

        with_kind : TokenKind → Parser → ConstInt × State
        with_kind k o = elim k [
          | question ↦ after_left o (left_of o)
          | _ ↦ (condition, record s { tokens = t ∷ ts })
        ]

        same_after :
            (v : ConstInt) (u : State)
            → length u.tokens < n
            → after_left p (v, u) ≡ after_left q (v, u)
        same_after v u fewer = after_colon-Agrees n p q h taken v u fewer

        by_kind : (k : TokenKind) → with_kind k p ≡ with_kind k q
        by_kind question =
            ap (after_left p) (suppressing-Below n p q (not taken) h (record s { tokens = ts }) few)
            ∙ same_after (left_of q).0 (left_of q).1 (
                omega (
                  arith,
                  few,
                  (suppressing-Keeps (not taken) q keeps (record s { tokens = ts })).fewer,
                ))
        by_kind _ = refl

parse_conditional-Agrees :
    (n max_depth : ℕ) (p q operand operand' : Parser)
    → AllKeeps q
    → AllKeeps operand'
    → Below n p q
    → Agrees n operand operand'
    → Agrees n (parse_conditional max_depth p operand) (parse_conditional max_depth q operand')
unfolding parse_conditional
parse_conditional-Agrees n max_depth p q operand operand' keeps keeps' h k =
    guarded-Agrees n max_depth (body p operand) (body q operand') λ s few.
      ap (λ (r : ConstInt × State). parse_branches p r.0 r.1) (k s few)
      ∙ parse_branches-Agrees n p q (operand' s).0 keeps h (operand' s).1
          (omega (arith, (keeps' s).fewer, few))
  where
    body : Parser → Parser → Parser
    body o l s = let (condition, s') = l s in parse_branches o condition s'

module _ (readers : Readers) (max_depth : ℕ) where
  -- One more call does not matter.
  suc_enough :
      (fuel : ℕ) (n : ℕ)
      → (2 * n + 2 ≤ fuel
          → Agrees n
              (parse readers max_depth (suc fuel) conditional)
              (parse readers max_depth fuel conditional))
        × (2 * n + 1 ≤ fuel
            → Agrees n
                (parse readers max_depth (suc fuel) unary)
                (parse readers max_depth fuel unary))
  unfolding parse
  suc_enough zero n = ground arith
  suc_enough (suc fuel) n = (
    λ enough.
        parse_conditional-Agrees n max_depth (next conditional) (now conditional)
          (parse_logical_or (next unary)) (parse_logical_or (now unary))
          (parse-Keeps readers max_depth fuel conditional)
          (parse_logical_or-Keeps (now unary) (parse-Keeps readers max_depth fuel unary))
          (λ s fewer.
            (suc_enough fuel (length s.tokens)).0 (omega (arith, fewer, enough)) s (omega arith))
          (parse_logical_or-Agrees n (next unary) (now unary)
            (parse-Keeps readers max_depth fuel unary)
            ((suc_enough fuel n).1 (omega (arith, enough)))),
    λ enough.
        parse_unary-Agrees n max_depth (next unary) (now unary)
          (parse_primary readers (next conditional)) (parse_primary readers (now conditional))
          (λ s fewer.
            (suc_enough fuel (length s.tokens)).1 (omega (arith, fewer, enough)) s (omega arith))
          (parse_primary-Agrees n readers (next conditional) (now conditional) (λ s fewer.
            (suc_enough fuel (length s.tokens)).0 (omega (arith, fewer, enough)) s (omega arith))),
  )
    where
      next : Production → Parser
      next p = parse readers max_depth (suc fuel) p

      now : Production → Parser
      now p = parse readers max_depth fuel p

  more_fuel :
      (tokens : List PpToken) (more fuel : ℕ)
      → fuel ≡ more + enough_fuel tokens
      → parse readers max_depth fuel conditional (start tokens)
        ≡ parse readers max_depth (enough_fuel tokens) conditional (start tokens)
  more_fuel tokens zero fuel e =
      ap (λ (f : ℕ). parse readers max_depth f conditional (start tokens)) (omega (arith, e))
  more_fuel tokens (suc more) zero e = ground (arith, e)
  more_fuel tokens (suc more) (suc fuel) e =
      (suc_enough fuel (length tokens)).0 (omega (arith, e)) (start tokens) (omega arith)
      ∙ more_fuel tokens more fuel (omega (arith, e))

  -- The fuel of `evaluate_const_expr` is enough: any more of it gives the same value and state, so
  -- no run stops for want of fuel.
  pub parse-enough_fuel :
      (tokens : List PpToken) (fuel : ℕ)
      → enough_fuel tokens ≤ fuel
      → parse readers max_depth fuel conditional (start tokens)
        ≡ parse readers max_depth (enough_fuel tokens) conditional (start tokens)
  unfolding parse
  parse-enough_fuel tokens fuel enough =
      more_fuel tokens (fuel - enough_fuel tokens) fuel (omega (arith, enough))
