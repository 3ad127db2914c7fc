-- ===== src/Support/Source/Trusted.antt =====
-- Which texts the source manager accepts (src/support/source/source_manager.cc).
use mincplus.Prelude.{
  ℕ, zero, suc, ◌+◌, ◌≤◌, ◌<◌, ◌≡◌, refl, subst, Bool, true, false, ltb, ◌==◌, if◌then◌else◌,
  Option, none, some, List, [], ◌∷◌, length, drop, arith, All, IsByte, length-drop, if_cases,
}
use mincplus.Support.Utf8.{
  detect_byte_order_mark, is_unsupported_encoding, byte_order_mark_length, first_invalid_offset,
  first_invalid_from, is_valid,
}
use mincplus.Support.Utf8.Valid.{Encodes, is_valid_iff}
use mincplus.Support.Source.{
  Fallible, done, failed, max_source_bytes, find_nul, is_utf8_mark, strip_mark, check_text,
  normalize_source, too_large, unsupported_encoding, nul_byte, invalid_utf8,
}

-- What the stages behind the manager rely on.
pub record IsTrusted (text : List ℕ) : Type 0 where
  pub small : length text ≤ max_source_bytes
  pub no_nul : All (λ c. 0 < c) text
  pub encodes : Encodes text

All-drop : (P : ℕ → Type 0) (n : ℕ) (xs : List ℕ) → All P xs → All P (drop n xs)
All-drop P zero xs h = h
All-drop P (suc n) [] h = h
All-drop P (suc n) (x ∷ xs) h = All-drop P n xs (h.1)

find_nul-none : (i : ℕ) (text : List ℕ) → find_nul i text ≡ none → All (λ c. 0 < c) text
unfolding find_nul
find_nul-none i [] h = tt
find_nul-none i (c ∷ cs) h = by_byte (c == 0) refl (λ e. find_nul-none (i + 1) cs e) h
  where
    by_byte :
        (b : Bool)
        → (c == 0) ≡ b
        → (find_nul (i + 1) cs ≡ none → All (λ d. 0 < d) cs)
        → (if b then some i else find_nul (i + 1) cs) ≡ none
        → All (λ d. 0 < d) (c ∷ cs)
    by_byte true e rest h' = absurd (cc)
    by_byte false e rest h' = (ground arith, rest h')

strip_mark-bytes : (text : List ℕ) → All IsByte text → All IsByte (strip_mark text)
unfolding strip_mark
strip_mark-bytes text bytes =
    if_cases (λ (t : List ℕ). All IsByte t) (is_utf8_mark (detect_byte_order_mark text))
      (λ h. All-drop IsByte (byte_order_mark_length (detect_byte_order_mark text)) text bytes)
      (λ h. bytes)

strip_mark-shorter : (text : List ℕ) → length (strip_mark text) ≤ length text
unfolding strip_mark
strip_mark-shorter text =
    if_cases (λ (t : List ℕ). length t ≤ length text) (is_utf8_mark (detect_byte_order_mark text))
      (λ h. omega (arith, length-drop (byte_order_mark_length (detect_byte_order_mark text)) text))
      (λ h. omega arith)

valid_of_none : (text : List ℕ) → first_invalid_offset text ≡ none → is_valid text ≡ true
unfolding is_valid
valid_of_none text e =
    let nothing : first_invalid_from 0 0 text ≡ none = e in rw (is_valid, nothing) refl

check_text-IsTrusted :
    (text t : List ℕ)
    → All IsByte text
    → length text ≤ max_source_bytes
    → check_text text ≡ done t
    → IsTrusted t
check_text-IsTrusted text t bytes small h =
    by_nul (find_nul 0 text) (first_invalid_offset text) refl refl h
  where
    by_nul :
        (o p : Option ℕ)
        → find_nul 0 text ≡ o
        → first_invalid_offset text ≡ p
        → (let r : Fallible (List ℕ) = elim o [
          | some i ↦ failed (nul_byte i)
          | none ↦ elim p [ some i ↦ failed (invalid_utf8 i) | none ↦ done text ]
        ] in
            r)
          ≡ done t
        → IsTrusted t
    by_nul (some i) p e f r = absurd (cc)
    by_nul none (some i) e f r = absurd (cc)
    by_nul none none e f r =
        let same : text ≡ t = cc in
        let ok : is_valid text ≡ true = valid_of_none text f in
        subst IsTrusted same (record {
          small = small;
          no_nul = find_nul-none 0 text e;
          encodes = (is_valid_iff text bytes).0 ok;
        })

-- A text of bytes that is accepted is small, has no NUL byte, and encodes scalar values.
pub normalize_source-IsTrusted :
    (text t : List ℕ) → All IsByte text → normalize_source text ≡ done t → IsTrusted t
unfolding normalize_source
normalize_source-IsTrusted text t bytes h =
    by_test (ltb max_source_bytes (length text))
      (is_unsupported_encoding (detect_byte_order_mark text)) refl h
  where
    by_test :
        (b c : Bool)
        → ltb max_source_bytes (length text) ≡ b
        → (if b
            then failed too_large
            else if c
            then failed (unsupported_encoding (detect_byte_order_mark text))
            else check_text (strip_mark text))
          ≡ done t
        → IsTrusted t
    by_test true c e r = absurd (cc)
    by_test false true e r = absurd (cc)
    by_test false false e r =
        let fits : length text ≤ max_source_bytes = ground arith in
        check_text-IsTrusted (strip_mark text) t (strip_mark-bytes text bytes)
          (omega (arith, strip_mark-shorter text)) r
