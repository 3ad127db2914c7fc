-- ===== src/Support/Interner/Laws.antt =====
-- Interning and looking up (src/support/intern/interner.cc).
use mincplus.Prelude.{
  ℕ, ◌≡◌, ◌↔◌, inl, inr, refl, Bool, true, false, leb, if◌then◌else◌, Option, none, some, List, [],
  ◌∷◌, ◌++◌, length, get_elem?, same_bytes, same_bytes_iff, get_elem?-append, get_elem?_last,
  get_elem?-append_cases, ap, sym, ◌∙◌, subst, Option-cases, Bool-cases,
}
use mincplus.Support.Interner.{Interner, find, intern, lookup_symbol}

-- The index finds a text at an id exactly when the text stands there.
abbrev pub IsValid : Interner → Type 0
IsValid s =
    (text : List ℕ) (i : ℕ) → (find text s.index ≡ some i) ↔ (get_elem? s.pool i ≡ some text)

find-append :
    (text : List ℕ) (es fs : List (List ℕ × ℕ)) (i : ℕ)
    → find text es ≡ some i
    → find text (es ++ fs) ≡ some i
find-append text [] fs i h = cc
find-append text (e ∷ es) fs i h = by_test (same_bytes (e.0) text) h (find-append text es fs i)
  where
    by_test :
        (b : Bool)
        → (if b then some (e.1) else find text es) ≡ some i
        → (find text es ≡ some i → find text (es ++ fs) ≡ some i)
        → (if b then some (e.1) else find text (es ++ fs)) ≡ some i
    by_test true k rec = k
    by_test false k rec = rec k

find_behind :
    (text : List ℕ) (es fs : List (List ℕ × ℕ))
    → find text es ≡ none
    → find text (es ++ fs) ≡ find text fs
find_behind text [] fs h = refl
find_behind text (e ∷ es) fs h = by_test (same_bytes (e.0) text) h (find_behind text es fs)
  where
    by_test :
        (b : Bool)
        → (if b then some (e.1) else find text es) ≡ none
        → (find text es ≡ none → find text (es ++ fs) ≡ find text fs)
        → (if b then some (e.1) else find text (es ++ fs)) ≡ find text fs
    by_test true k rec = cc
    by_test false k rec = rec k

abbrev with_text : Interner → List ℕ → Interner
with_text s text = record {
  pool = s.pool ++ (text ∷ []);
  index = s.index ++ ((text, length s.pool) ∷ []);
}

with_text-IsValid :
    (s : Interner) (text : List ℕ)
    → IsValid s
    → find text s.index ≡ none
    → IsValid (with_text s text)
with_text-IsValid s text valid fresh t i = (sound, complete)
  where
    one : List (List ℕ × ℕ)
    one = (text, length s.pool) ∷ []

    by_test :
        (b : Bool)
        → (same_bytes text t ≡ b)
        → (if b then some (length s.pool) else none) ≡ some i
        → get_elem? (s.pool ++ (text ∷ [])) i ≡ some t
    by_test true e h =
        let same : text ≡ t = (same_bytes_iff text t).0 e in
        let last : length s.pool ≡ i = cc in
        subst (λ j. get_elem? (s.pool ++ (text ∷ [])) j ≡ some t) last
          (get_elem?_last s.pool text ∙ ap some same)
    by_test false e h = cc

    sound :
        find t (s.index ++ ((text, length s.pool) ∷ [])) ≡ some i
        → get_elem? (s.pool ++ (text ∷ [])) i ≡ some t
    sound h = elim (Option-cases (find t s.index)) [
      | inr (j, old) ↦
          let found = find-append t s.index one j old in
          let same : some j ≡ some i = sym found ∙ h in
          get_elem?-append s.pool (text ∷ []) i ((valid t i).0 (old ∙ same))
      | inl new ↦ by_test (same_bytes text t) refl (sym (find_behind t s.index one new) ∙ h)
    ]

    complete :
        get_elem? (s.pool ++ (text ∷ [])) i ≡ some t
        → find t (s.index ++ ((text, length s.pool) ∷ [])) ≡ some i
    complete h = elim (get_elem?-append_cases s.pool text t i h) [
      | inl old ↦ find-append t s.index one i ((valid t i).1 old)
      | inr (last, same) ↦
          subst (λ u. find u (s.index ++ ((text, length s.pool) ∷ [])) ≡ some i) same
            (find_behind text s.index one fresh ∙ hit last)
    ]
      where
        hit : i ≡ length s.pool → find text one ≡ some i
        hit last = let equal = (same_bytes_iff text text).1 refl in rw (equal, last) refl

-- Interning keeps the index and the pool inverse to each other.
pub intern-IsValid :
    (max_symbols : ℕ) (s : Interner) (text : List ℕ)
    → IsValid s
    → IsValid (intern max_symbols s text).1
unfolding intern
intern-IsValid max_symbols s text valid = elim (Option-cases (find text s.index)) [
  | inr (id, hit) ↦ rw (intern, hit) valid
  | inl miss ↦ elim (Bool-cases (leb max_symbols (length s.pool))) [
    | inl full ↦ rw (intern, miss, full) valid
    | inr room ↦ rw (intern, miss, room) (with_text-IsValid s text valid miss)
  ]
]

intern_names :
    (max_symbols : ℕ) (s : Interner) (text : List ℕ) (id : ℕ)
    → IsValid s
    → (intern max_symbols s text).0 ≡ some id
    → get_elem? (intern max_symbols s text).1.pool id ≡ some text
unfolding intern
intern_names max_symbols s text id valid h = elim (Option-cases (find text s.index)) [
  | inr (i, hit) ↦
      let there : intern max_symbols s text ≡ (some i, s) = rw (intern, hit) refl in
      let same : some i ≡ some id = ap (λ (r : Option ℕ × Interner). r.0) (sym there) ∙ h in
      rw there ((valid text id).0 (hit ∙ same))
  | inl miss ↦ elim (Bool-cases (leb max_symbols (length s.pool))) [
    | inl full ↦
        let there : intern max_symbols s text ≡ (none, s) = rw (intern, miss, full) refl in
        let no : none ≡ some id = ap (λ (r : Option ℕ × Interner). r.0) (sym there) ∙ h in cc
    | inr room ↦
        let there : intern max_symbols s text ≡ (some (length s.pool), with_text s text) =
          rw (intern, miss, room) refl in
        let same : some (length s.pool) ≡ some id =
          ap (λ (r : Option ℕ × Interner). r.0) (sym there) ∙ h in
        let last : length s.pool ≡ id = cc in rw (there, sym last) (get_elem?_last s.pool text)
  ]
]

found_again :
    (max_symbols : ℕ) (s : Interner) (text : List ℕ) (id : ℕ)
    → find text s.index ≡ some id
    → intern max_symbols s text ≡ (some id, s)
unfolding intern
found_again max_symbols s text id e = rw (intern, e) refl

-- In a valid interner the id that a text gets looks the text up, and interning the text again gives
-- the id and changes nothing.
pub lookup_symbol-intern :
    (max_symbols : ℕ) (s : Interner) (text : List ℕ) (id : ℕ)
    → IsValid s
    → (intern max_symbols s text).0 ≡ some id
    → let next = (intern max_symbols s text).1 in
      (lookup_symbol next id ≡ text) × (intern max_symbols next text ≡ (some id, next))
lookup_symbol-intern max_symbols s text id valid h =
    let at = intern_names max_symbols s text id valid h in
    let hit = (intern-IsValid max_symbols s text valid text id).1 at in
    (rw (lookup_symbol, at) refl, found_again max_symbols (intern max_symbols s text).1 text id hit)
