-- ===== src/Pp/Conditionals/Invariant.antt =====
-- What every stack of conditionals keeps, whatever directives come.
use mincplus.Prelude.{
  ℕ, ◌≤◌, ◌≡◌, refl, Bool, true, ◌&&◌, Option, some, List, [], ◌∷◌, length, arith,
}
use mincplus.Pp.Conditionals.{
  Frame, ConditionalStack, emitting, open_if, take_elif, take_else, close, PpErrorCode,
}

-- A frame holds what the frames under it say of its parent, and a region that emits has been taken.
abbrev pub Fits : Frame → ConditionalStack → Type 0
Fits f fs =
    (f.parent_live ≡ emitting fs)
    × (f.live ≡ true → f.parent_live ≡ true)
    × (f.live ≡ true → f.taken ≡ true)
    × (f.seen_else ≡ true → f.taken ≡ true)

abbrev pub IsValid : ConditionalStack → Type 0
IsValid [] = Unit
IsValid (f ∷ fs) = Fits f fs × IsValid fs

-- A directive line.
pub data Directive : Type 0 where
  an_if : Bool → Directive
  an_elif : Bool → Directive
  an_else an_endif : Directive

abbrev pub step : ℕ → Directive → ConditionalStack → ConditionalStack × Option PpErrorCode
step limit (an_if c) = open_if c limit
step limit (an_elif c) = take_elif c
step limit an_else = take_else
step limit an_endif = close

abbrev pub run : ℕ → List Directive → ConditionalStack → ConditionalStack
run limit [] s = s
run limit (d ∷ ds) s = run limit ds (step limit d s).0

step-IsValid :
    (limit : ℕ) (d : Directive) (s : ConditionalStack) → IsValid s → IsValid (step limit d s).0
unfolding open_if take_elif take_else close
step-IsValid limit (an_if c) s v = ground arith
step-IsValid limit (an_elif c) [] v = tt
step-IsValid limit (an_elif c) (f ∷ fs) v = ground arith
step-IsValid limit an_else [] v = tt
step-IsValid limit an_else (f ∷ fs) v = ground arith
step-IsValid limit an_endif [] v = tt
step-IsValid limit an_endif (f ∷ fs) v = v.1

step-bounded :
    (limit : ℕ) (d : Directive) (s : ConditionalStack)
    → length s ≤ limit
    → length (step limit d s).0 ≤ limit
unfolding open_if take_elif take_else close
step-bounded limit (an_if c) s v = ground arith
step-bounded limit (an_elif c) [] v = v
step-bounded limit (an_elif c) (f ∷ fs) v = ground arith
step-bounded limit an_else [] v = v
step-bounded limit an_else (f ∷ fs) v = ground arith
step-bounded limit an_endif [] v = v
step-bounded limit an_endif (f ∷ fs) v = omega arith

-- Whatever directives come, in whatever order, a stack that is well formed and within the limit
-- stays so.
pub run-IsValid :
    (limit : ℕ) (ds : List Directive) (s : ConditionalStack)
    → IsValid s
    → length s ≤ limit
    → IsValid (run limit ds s) × (length (run limit ds s) ≤ limit)
run-IsValid limit [] s v b = (v, b)
run-IsValid limit (d ∷ ds) s v b =
    run-IsValid limit ds (step limit d s).0 (step-IsValid limit d s v) (step-bounded limit d s b)

-- Every enclosing region emits.
abbrev pub all_live : ConditionalStack → Bool
all_live [] = true
all_live (f ∷ fs) = f.live && all_live fs

-- On a well formed stack the one bit that `emitting` reads says that every open conditional emits.
pub emitting-all_live : (s : ConditionalStack) → IsValid s → emitting s ≡ all_live s
emitting-all_live [] v = refl
emitting-all_live (f ∷ fs) v = ground (arith, emitting-all_live fs v.1)

-- A directive that gives an error leaves the stack as it was.
pub step-error :
    (limit : ℕ) (d : Directive) (s : ConditionalStack) {e : PpErrorCode}
    → (step limit d s).1 ≡ some e
    → (step limit d s).0 ≡ s
unfolding open_if take_elif take_else close
step-error limit (an_if c) s h = ground arith
step-error limit (an_elif c) [] h = refl
step-error limit (an_elif c) (f ∷ fs) h = ground arith
step-error limit an_else [] h = refl
step-error limit an_else (f ∷ fs) h = ground arith
step-error limit an_endif [] h = refl
step-error limit an_endif (f ∷ fs) h = cc
