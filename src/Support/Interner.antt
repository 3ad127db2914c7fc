-- ===== src/Support/Interner.antt =====
-- `Interner` of include/support/intern/interner.h and src/support/intern/interner.cc: a text is its
-- bytes, and the index is an association list.
pub mod Laws
use mincplus.Prelude.{
  ℕ, Bool, true, false, leb, ◌==◌, if◌then◌else◌, Option, none, some, List, [], ◌∷◌, ◌++◌, length,
  get_elem?, same_bytes,
}

pub record Interner : Type 0 where
  pub pool : List (List ℕ)
  pub index : List (List ℕ × ℕ)

abbrev pub find : List ℕ → List (List ℕ × ℕ) → Option ℕ
find text [] = none
find text (e ∷ es) = let rest = find text es in if same_bytes (e.0) text then some (e.1) else rest

-- `none` is `kInvalidSym`; the number of symbols is bounded.
unfoldable pub intern : ℕ → Interner → List ℕ → Option ℕ × Interner
intern max_symbols s text = elim (find text s.index) [
  | some id ↦ (some id, s)
  | none ↦
      if leb max_symbols (length s.pool)
      then (none, s)
      else let id = length s.pool in
        (some id, record { pool = s.pool ++ (text ∷ []); index = s.index ++ ((text, id) ∷ []) })
]

abbrev pub contains : Interner → List ℕ → Bool
contains s text = elim (find text s.index) [ some id ↦ true | none ↦ false ]

-- The empty text for an id that was not given out.
abbrev pub lookup_symbol : Interner → ℕ → List ℕ
lookup_symbol s id = elim (get_elem? s.pool id) [ some text ↦ text | none ↦ [] ]

abbrev pub clear : Interner
clear = record { pool = []; index = [] }
