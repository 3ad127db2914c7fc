-- ===== src/Pp/Conditionals/Chain.antt =====
-- One conditional from `#if` to `#endif`: which of its branches emits.
use mincplus.Prelude.{ℕ, ◌<◌, ◌≡◌, refl, Bool, false, ◌&&◌, ◌||◌, not, List, [], ◌∷◌, length, arith}
use mincplus.Pp.Conditionals.{Frame, ConditionalStack, emitting, open_if, take_elif, take_else}

-- Whether each branch emits: the `#elif`s with their conditions, then an `#else`.
abbrev pub elif_branches : List Bool → ConditionalStack → List Bool
elif_branches [] s = emitting (take_else s).0 ∷ []
elif_branches (c ∷ cs) s = let t = (take_elif c s).0 in emitting t ∷ elif_branches cs t

abbrev pub branches : ℕ → Bool → List Bool → ConditionalStack → List Bool
branches limit c cs s = let t = (open_if c limit s).0 in emitting t ∷ elif_branches cs t

-- The first true condition wins, and `#else` where there is none; `open` says that none has won yet.
abbrev pub first_true : Bool → List Bool → List Bool
first_true waiting [] = waiting ∷ []
first_true waiting (c ∷ cs) = (waiting && c) ∷ first_true (waiting && not c) cs

abbrev before_else : Bool → Bool → Bool → Frame
before_else p l t = record { parent_live = p; live = l; taken = t; seen_else = false }

elif_chain :
    (cs : List Bool) (p l t : Bool) (fs : ConditionalStack)
    → elif_branches cs (before_else p l t ∷ fs) ≡ first_true (p && not t) cs
unfolding take_elif take_else
elif_chain [] p l t fs = refl
elif_chain (c ∷ cs) p l t fs =
    let live = p && (not t && c) in ground (arith, elif_chain cs p live (t || live) fs)

-- Below the nesting limit, of the branches of one conditional exactly the first whose condition holds emits, the `#else` if
-- none does, and none at all in a region that is skipped.
pub branches-first_true :
    (limit : ℕ) (c : Bool) (cs : List Bool) (s : ConditionalStack)
    → length s < limit
    → branches limit c cs s ≡ first_true (emitting s) (c ∷ cs)
unfolding open_if
branches-first_true limit c cs s h =
    let live = emitting s && c in ground (arith, elif_chain cs (emitting s) live live s)
