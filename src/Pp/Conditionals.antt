-- ===== src/Pp/Conditionals.antt =====
-- `ConditionalStack` of include/pp/conditionals.h and src/pp/conditionals.cc: the open `#if`s.
-- `frames_` is a list with the innermost conditional first. A method returns the stack and its
-- error, `none` for success.
pub mod Invariant
pub mod Chain
use mincplus.Prelude.{
  ℕ, Bool, true, false, ◌&&◌, ◌||◌, not, leb, if◌then◌else◌, Option, none, some, List, [], ◌∷◌,
  length,
}

pub data PpErrorCode : Type 0 where
  conditional_nesting_exceeded unexpected_conditional else_after_else : PpErrorCode

pub record Frame : Type 0 where
  pub parent_live : Bool
  pub live : Bool
  pub taken : Bool
  pub seen_else : Bool

abbrev pub ConditionalStack : Type 0
ConditionalStack = List Frame

abbrev pub emitting : ConditionalStack → Bool
emitting [] = true
emitting (f ∷ fs) = f.live

unfoldable pub open_if : Bool → ℕ → ConditionalStack → ConditionalStack × Option PpErrorCode
open_if condition limit s =
    if leb limit (length s)
    then (s, some conditional_nesting_exceeded)
    else let live = emitting s && condition in
      (record { parent_live = emitting s; live = live; taken = live; seen_else = false } ∷ s, none)

unfoldable pub should_evaluate_elif : ConditionalStack → Bool
should_evaluate_elif [] = false
should_evaluate_elif (f ∷ fs) = f.parent_live && (not f.taken && not f.seen_else)

unfoldable pub take_elif : Bool → ConditionalStack → ConditionalStack × Option PpErrorCode
take_elif condition [] = ([], some unexpected_conditional)
take_elif condition (f ∷ fs) =
    if f.seen_else
    then (f ∷ fs, some else_after_else)
    else let live = f.parent_live && (not f.taken && condition) in
      (record f { live = live; taken = f.taken || live } ∷ fs, none)

unfoldable pub take_else : ConditionalStack → ConditionalStack × Option PpErrorCode
take_else [] = ([], some unexpected_conditional)
take_else (f ∷ fs) = if f.seen_else then (f ∷ fs, some else_after_else) else (
  record f { seen_else = true; live = f.parent_live && not f.taken; taken = true } ∷ fs,
  none,
)

unfoldable pub close : ConditionalStack → ConditionalStack × Option PpErrorCode
close [] = ([], some unexpected_conditional)
close (f ∷ fs) = (fs, none)
