-- ===== src/Sema/Store/Table.antt =====
-- The table of the type store and its index (src/sema/type_store.cc).
use mincplus.Prelude.{
  ℕ, ◌≡◌, ◌⊎◌, inl, inr, refl, Bool, true, false, ◌&&◌, ◌==◌, if◌then◌else◌, Option, none, some,
  List, [], ◌∷◌, ◌++◌, get_elem?, arith, ap, sym, ◌∙◌,
}
use mincplus.Sema.Store.{Shape, StoredType, hash_of, equal_shape, find_candidate}
use mincplus.Sema.Store.Equality.{equal_shape_iff}

-- An entry of the index.
abbrev pub Listed : ℕ → ℕ → List (ℕ × ℕ) → Type 0
Listed hash id [] = ⊥
Listed hash id (e ∷ es) = ((e.0 ≡ hash) × (e.1 ≡ id)) ⊎ Listed hash id es

pub Listed-append :
    (hash id : ℕ) (es fs : List (ℕ × ℕ)) → Listed hash id es → Listed hash id (es ++ fs)
Listed-append hash id [] fs h = absurd h
Listed-append hash id (e ∷ es) fs (inl h) = inl h
Listed-append hash id (e ∷ es) fs (inr h) = inr (Listed-append hash id es fs h)

pub Listed-last : (hash id : ℕ) (es : List (ℕ × ℕ)) → Listed hash id (es ++ ((hash, id) ∷ []))
Listed-last hash id [] = inl (refl, refl)
Listed-last hash id (e ∷ es) = inr (Listed-last hash id es)

abbrev matches : List StoredType → Shape → ℕ → Bool
matches types s id = elim (get_elem? types id) [ some t ↦ equal_shape t.shape s | none ↦ false ]

matches_sound :
    (types : List StoredType) (s : Shape) (id : ℕ)
    → matches types s id ≡ true
    → (t : StoredType) × (get_elem? types id ≡ some t) × (t.shape ≡ s)
matches_sound types s id h = by_type (get_elem? types id) refl h
  where
    by_type :
        (o : Option StoredType)
        → get_elem? types id ≡ o
        → (let b : Bool = elim o [ some t ↦ equal_shape t.shape s | none ↦ false ] in b) ≡ true
        → (t : StoredType) × (get_elem? types id ≡ some t) × (t.shape ≡ s)
    by_type none e k = cc
    by_type (some t) e k = (t, e, (equal_shape_iff t.shape s).0 k)

-- What is found is in the table and is the type looked for.
pub find_candidate_sound :
    (types : List StoredType) (hash : ℕ) (s : Shape) (es : List (ℕ × ℕ)) (id : ℕ)
    → find_candidate types hash s es ≡ some id
    → (t : StoredType) × (get_elem? types id ≡ some t) × (t.shape ≡ s)
find_candidate_sound types hash s [] id h = cc
find_candidate_sound types hash s (e ∷ es) id h =
    by_test (e.0 == hash) (matches types s e.1) refl h (find_candidate_sound types hash s es id)
  where
    by_test :
        (same found : Bool)
        → matches types s e.1 ≡ found
        → (if same && found then some (e.1) else find_candidate types hash s es) ≡ some id
        → (find_candidate types hash s es ≡ some id
            → (t : StoredType) × (get_elem? types id ≡ some t) × (t.shape ≡ s))
        → (t : StoredType) × (get_elem? types id ≡ some t) × (t.shape ≡ s)
    by_test true true m k rec =
        let same_id : e.1 ≡ id = cc in
        matches_sound types s id (ap (matches types s) (sym same_id) ∙ m)
    by_test true false m k rec = rec k
    by_test false found m k rec = rec k

-- A listed type is found.
pub find_candidate_complete :
    (types : List StoredType) (s : Shape) (es : List (ℕ × ℕ)) (id : ℕ) (t : StoredType)
    → get_elem? types id ≡ some t
    → t.shape ≡ s
    → Listed (hash_of s) id es
    → (found : ℕ) × (find_candidate types (hash_of s) s es ≡ some found)
find_candidate_complete types s [] id t at same listed = absurd listed
find_candidate_complete types s (e ∷ es) id t at same (inl (h, i)) =
    let hit : matches types s e.1 ≡ true =
      rw (i, matches, at) ((equal_shape_iff t.shape s).1 same) in
    (e.1, ground (arith, hit))
find_candidate_complete types s (e ∷ es) id t at same (inr rest) =
    let (found, eq) = find_candidate_complete types s es id t at same rest in
    by_test (e.0 == hash_of s && matches types s e.1) found eq
  where
    by_test :
        (b : Bool) (found : ℕ)
        → find_candidate types (hash_of s) s es ≡ some found
        → (r : ℕ) × ((if b then some (e.1) else find_candidate types (hash_of s) s es) ≡ some r)
    by_test true found eq = (e.1, refl)
    by_test false found eq = (found, eq)
