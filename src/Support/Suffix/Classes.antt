-- ===== src/Support/Suffix/Classes.antt =====
-- What `classifySuffix` of src/support/consteval/suffix.cc answers.
use mincplus.Prelude.{
  All, ap, ◌∙◌, ℕ, ◌+◌, ◌≡◌, ◌≢◌, ◌⊎◌, inl, inr, refl, Bool, true, false, ◌&&◌, ◌||◌, not, ◌==◌,
  if◌then◌else◌, none, List, [], ◌∷◌, length, same_bytes, arith, Bool-cases, if_both,
}
use mincplus.Support.Suffix.{
  SuffixType, none_type, f32, f64, f80, f128, c_long_double, typed, refused, LiteralSuffix, absent,
  SuffixRow, suffix_rows, row_suffix, letters_suffix, search_suffix, classify_suffix,
  classify_letters, letters_type, count_letters, is_u, is_l, is_bit_precise_suffix,
}

-- The types that a float literal may have.
abbrev pub is_float_type : SuffixType → Bool
is_float_type f32 = true
is_float_type f64 = true
is_float_type f80 = true
is_float_type f128 = true
is_float_type c_long_double = true
is_float_type _ = false

-- A suffix is absent and says nothing, has a type and no message, or is refused with a message. On a
-- float literal the type is one of a float, and the suffix does not make it one.
abbrev pub IsAnswer : Bool → LiteralSuffix → Type 0
IsAnswer is_float s =
    (s ≡ absent)
    ⊎ (((s.status ≡ typed)
          × (s.type ≢ none_type)
          × (s.message ≡ none)
          × (not is_float || is_float_type s.type && not s.makes_float ≡ true))
        ⊎ ((s.status ≡ refused) × (s.type ≡ none_type) × (s.message ≢ none)))

letters-IsAnswer :
    (is_float : Bool) (t : SuffixType) → IsAnswer is_float (letters_suffix is_float t)
letters-IsAnswer is_float none_type = inl refl
letters-IsAnswer true _ = ground arith
letters-IsAnswer false _ = ground arith

search-IsAnswer :
    (is_float : Bool) (text : List ℕ) (rows : List SuffixRow)
    → All (λ r. IsAnswer is_float (row_suffix is_float r)) rows
    → IsAnswer is_float (search_suffix is_float text rows)
search-IsAnswer is_float text [] h = letters-IsAnswer is_float (classify_letters text)
search-IsAnswer is_float text (r ∷ rs) h =
    if_both (IsAnswer is_float) (same_bytes r.spelling text) h.0
      (search-IsAnswer is_float text rs h.1)

-- `classifySuffix` gives no suffix, a type, or a refusal with its message; on a float literal the
-- type is a float's.
pub classify_suffix-IsAnswer :
    (text : List ℕ) (is_float : Bool) → IsAnswer is_float (classify_suffix text is_float)
unfolding classify_suffix
classify_suffix-IsAnswer text true =
    if_both (IsAnswer true) (length text == 0) (inl refl)
      (search-IsAnswer true text suffix_rows (ground arith))
classify_suffix-IsAnswer text false = if_both (IsAnswer false) (length text == 0) (inl refl) (
    if_both (IsAnswer false) (is_bit_precise_suffix text) (ground arith)
      (search-IsAnswer false text suffix_rows (ground arith)))

-- How many bytes pass a test.
abbrev pub count : (ℕ → Bool) → List ℕ → ℕ
count p [] = 0
count p (c ∷ cs) = (if p c then 1 else 0) + count p cs

abbrev pub all_letters : List ℕ → Bool
all_letters [] = true
all_letters (c ∷ cs) = (is_u c || is_l c) && all_letters cs

count_letters_lem :
    (us ls : ℕ) (text : List ℕ)
    → count_letters us ls text ≡ (
        if all_letters text
        then letters_type (us + count is_u text) (ls + count is_l text)
        else none_type)
count_letters_lem us ls [] = ap (λ (p : ℕ × ℕ). letters_type p.0 p.1) (ground arith)
count_letters_lem us ls (c ∷ cs) = elim (Bool-cases (is_u c)) [
  | inl u ↦ ground (arith, u, count_letters_lem (us + 1) ls cs, regroup)
  | inr n ↦ ground (arith, n, count_letters_lem us (ls + 1) cs, regroup)
]
  where
    regroup : (a b : ℕ) → a + 1 + b ≡ a + (1 + b)
    regroup a b = omega arith

-- A run of the letters `u` and `l`, of either case and in any order, means the type that the number
-- of each says; a run with any other byte means none.
pub classify_letters_lem :
    (text : List ℕ)
    → classify_letters text
      ≡ (if all_letters text then letters_type (count is_u text) (count is_l text) else none_type)
unfolding classify_letters
classify_letters_lem text = count_letters_lem 0 0 text ∙ ground arith
