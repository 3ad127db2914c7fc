-- ===== src/Sema/Flow/Breaks.antt =====
-- The states at the breaks of a loop, and the state behind it (src/sema/check_flow.cc).
use mathlib.Core.List.{append_assoc, append-nil}
use mincplus.Prelude.{
  ℕ, zero, suc, ◌≡◌, refl, sym, ◌∙◌, Bool, true, false, if◌then◌else◌, List, [], ◌∷◌, ◌++◌, length,
  replicate, length-replicate, arith, All, subst, ◌<◌,
}
use mincplus.Sema.Flow.{
  AssignmentSet, intersect_with, Condition, always_true, intersect_all, loop_exit, add_break,
}
use mincplus.Sema.Flow.Paths.{Assigned, Post}
use mincplus.Sema.Flow.Growth.{
  Covers, Covers-refl, Covers-trans, intersect_with-Assigned, intersect_with-size,
}
use mincplus.Sema.Flow.Sound.{Above, Covers-intersect, Covers-intersect_right}

-- Between two stacks only states that cover a set have come to the innermost loop.
abbrev pub BreaksGrow :
    AssignmentSet → List (List AssignmentSet) → List (List AssignmentSet) → Type 0
BreaksGrow a [] [] = Unit
BreaksGrow a [] (c ∷ rest) = ⊥
BreaksGrow a (b ∷ rest) [] = ⊥
BreaksGrow a (b ∷ rest) (c ∷ rest') =
    (added : List AssignmentSet) × (c ≡ b ++ added) × All (Covers a) added × (rest' ≡ rest)

pub BreaksGrow-refl : (a : AssignmentSet) (s : List (List AssignmentSet)) → BreaksGrow a s s
BreaksGrow-refl a [] = tt
BreaksGrow-refl a (b ∷ rest) = ([], sym (append-nil b), tt, refl)

pub All-append :
    (P : AssignmentSet → Type 0) (xs ys : List AssignmentSet)
    → All P xs
    → All P ys
    → All P (xs ++ ys)
All-append P [] ys hx hy = hy
All-append P (x ∷ xs) ys hx hy = (hx.0, All-append P xs ys (hx.1) hy)

pub All-map :
    (P Q : AssignmentSet → Type 0) (xs : List AssignmentSet)
    → ((x : AssignmentSet) → P x → Q x)
    → All P xs
    → All Q xs
All-map P Q [] f h = tt
All-map P Q (x ∷ xs) f h = (f x (h.0), All-map P Q xs f (h.1))

pub All-front :
    (P : AssignmentSet → Type 0) (xs ys : List AssignmentSet) → All P (xs ++ ys) → All P xs
All-front P [] ys h = tt
All-front P (x ∷ xs) ys h = (h.0, All-front P xs ys (h.1))

pub All-back :
    (P : AssignmentSet → Type 0) (xs ys : List AssignmentSet) → All P (xs ++ ys) → All P ys
All-back P [] ys h = h
All-back P (x ∷ xs) ys h = All-back P xs ys (h.1)

pub BreaksGrow-trans :
    (a b : AssignmentSet) (s t u : List (List AssignmentSet))
    → Covers a b
    → BreaksGrow a s t
    → BreaksGrow b t u
    → BreaksGrow a s u
BreaksGrow-trans a b [] [] [] sub g h = tt
BreaksGrow-trans a b [] [] (z ∷ u) sub g h = h
BreaksGrow-trans a b [] (y ∷ t) u sub g h = absurd g
BreaksGrow-trans a b (x ∷ s) [] u sub g h = absurd g
BreaksGrow-trans a b (x ∷ s) (y ∷ t) [] sub g h = h
BreaksGrow-trans a b (x ∷ s) (y ∷ t) (z ∷ u) sub (m, e, cm, r) (n, f, cn, q) = (
  m ++ n,
  rw (f, e) (append_assoc x m n),
  All-append (Covers a) m n cm (All-map (Covers b) (Covers a) n (λ v c. Covers-trans sub c) cn),
  q ∙ r,
)

pub BreaksGrow-add :
    (a : AssignmentSet) (s : List (List AssignmentSet)) → BreaksGrow a s (add_break a s)
BreaksGrow-add a [] = tt
BreaksGrow-add a (b ∷ rest) = (a ∷ [], refl, (Covers-refl a, tt), refl)

-- What holds above each state at a break of the innermost loop; outside any loop, everywhere.
abbrev pub AboveBreaks : List (List AssignmentSet) → Post → Type 0
AboveBreaks [] B = (b : AssignmentSet) → B b
AboveBreaks (top ∷ rest) B = All (λ n. Above n B) top

pub AboveBreaks-earlier :
    (a : AssignmentSet) (B : Post) (s t : List (List AssignmentSet))
    → BreaksGrow a s t
    → AboveBreaks t B
    → AboveBreaks s B
AboveBreaks-earlier a B [] [] g h = h
AboveBreaks-earlier a B [] (y ∷ t) g h = absurd g
AboveBreaks-earlier a B (x ∷ s) [] g h = absurd g
AboveBreaks-earlier a B (x ∷ s) (y ∷ t) (m, e, cm, r) h =
    All-front (λ n. Above n B) x m (subst (All (λ n. Above n B)) e h)

pub AboveBreaks-add :
    (B : Post) (a : AssignmentSet) (s : List (List AssignmentSet))
    → AboveBreaks (add_break a s) B
    → Above a B
AboveBreaks-add B a [] h b covers = h b
AboveBreaks-add B a (top ∷ rest) h b covers = (All-back (λ n. Above n B) top (a ∷ []) h).0 b covers

replicate-true : (n d : ℕ) → d < n → Assigned (replicate n true) d
replicate-true zero d h = absurd (omega arith)
replicate-true (suc n) zero h = refl
replicate-true (suc n) (suc d) h = replicate-true n d (omega arith)

Assigned-below : (a : AssignmentSet) (d : ℕ) → Assigned a d → d < length a
Assigned-below [] d h = absurd (nothing h)
  where
    nothing : false ≡ true → ⊥
    nothing e = cc
Assigned-below (x ∷ a) zero h = omega arith
Assigned-below (x ∷ a) (suc d) h = omega (arith, Assigned-below a d h)

Covers-all : (a : AssignmentSet) → Covers a (replicate (length a) true)
Covers-all a = record {
  size = length-replicate (length a) true;
  sub = λ d h. replicate-true (length a) d (Assigned-below a d h);
}

-- The start of an exit state covers the entry.
start-Covers :
    (entry : AssignmentSet) (b : Bool)
    → Covers entry (if b then replicate (length entry) true else entry)
start-Covers entry true = Covers-all entry
start-Covers entry false = Covers-refl entry

intersect_all-Covers :
    (entry out : AssignmentSet) (breaks : List AssignmentSet)
    → Covers entry out
    → All (Covers entry) breaks
    → Covers entry (intersect_all out breaks)
intersect_all-Covers entry out [] h all = h
intersect_all-Covers entry out (b ∷ breaks) h all =
    intersect_all-Covers entry (intersect_with out b) breaks
      (record {
        size = intersect_with-size out b ∙ h.size;
        sub = λ d e. intersect_with-Assigned out b d (h.sub d e) (all.0.sub d e);
      })
      (all.1)

-- The exit state is within its start and within each state at a break.
intersect_all-within :
    (entry out : AssignmentSet) (breaks : List AssignmentSet)
    → length out ≡ length entry
    → All (Covers entry) breaks
    → Covers (intersect_all out breaks) out × All (Covers (intersect_all out breaks)) breaks
intersect_all-within entry out [] size all = (Covers-refl out, tt)
intersect_all-within entry out (b ∷ breaks) size (cb, all) =
    let same : length out ≡ length b = size ∙ sym cb.size in
    let inner = intersect_with out b in
    let (to_start, to_breaks) =
      intersect_all-within entry inner breaks (intersect_with-size out b ∙ size) all in
    (
      Covers-trans to_start (Covers-intersect out b out same (Covers-refl out)),
      (Covers-trans to_start (Covers-intersect_right out b b same (Covers-refl b)), to_breaks),
    )

module _ (entry : AssignmentSet) (breaks : List AssignmentSet) (c : Condition)
    (all : All (Covers entry) breaks) where
  pub loop_exit-Covers : Covers entry (loop_exit entry breaks c)
  unfolding loop_exit
  loop_exit-Covers = intersect_all-Covers entry _ breaks (start-Covers entry (always_true c)) all

  pub loop_exit-breaks : All (Covers (loop_exit entry breaks c)) breaks
  unfolding loop_exit
  loop_exit-breaks =
      (intersect_all-within entry _ breaks ((start-Covers entry (always_true c)).size) all).1

  pub loop_exit-entry : always_true c ≡ false → Covers (loop_exit entry breaks c) entry
  unfolding loop_exit
  loop_exit-entry h = rw h ((intersect_all-within entry entry breaks refl all).0)
