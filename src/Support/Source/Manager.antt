-- ===== src/Support/Source/Manager.antt =====
-- Every source that the manager holds is trusted text (src/support/source/source_manager.cc).
use mincplus.Prelude.{
  ℕ, ◌≤◌, ◌≡◌, refl, sym, subst, false, leb, Option, none, some, List, [], ◌∷◌, ◌++◌, length,
  get_elem?, set, arith, All, IsByte, inl, inr, get_elem?-append_cases, get_elem?-set_self,
  get_elem?-set_ne, get_elem?_below, ℕ_discrete, if_cases, length-append, length-set, ◌⊎◌, ◌∙◌,
}
use mincplus.Support.LineTable.{rebuild}
use mincplus.Support.Source.{
  Fallible, done, failed, normalize_source, SourceFile, source_file, reset_text, SourceManager,
  add_file, load_from_disk, replace_text, find, max_source_files, no_such_file,
}
use mincplus.Support.Source.Trusted.{IsTrusted, normalize_source-IsTrusted}

-- A file at an index: its id, its text and its lines.
pub record IsLoaded (i : ℕ) (f : SourceFile) : Type 0 where
  pub same_id : f.id ≡ i
  pub trusted : IsTrusted f.text
  pub same_lines : f.lines ≡ rebuild f.text

pub record IsValid (files : SourceManager) : Type 0 where
  pub count : length files ≤ max_source_files
  pub loaded : (i : ℕ) (f : SourceFile) → find files i ≡ some f → IsLoaded i f

add_file-IsValid :
    (files : SourceManager) (path text : List ℕ)
    → All IsByte text
    → IsValid files
    → IsValid (add_file files path text).0
unfolding add_file find source_file
add_file-IsValid files path text bytes valid =
    if_cases (λ (r : SourceManager × Fallible ℕ). IsValid r.0) (leb max_source_files (length files))
      (λ h. valid) (λ room. by_text (normalize_source text) refl room)
  where
    by_text :
        (r : Fallible (List ℕ))
        → normalize_source text ≡ r
        → leb max_source_files (length files) ≡ false
        → IsValid (
            let s : SourceManager × Fallible ℕ = elim r [
              | failed m ↦ (files, failed m)
              | done t ↦ (files ++ (source_file (length files) path t ∷ []), done (length files))
            ] in
            s.0)
    by_text (failed m) e room = valid
    by_text (done t) e room = record {
      count =
          ground (arith, length-append files (source_file (length files) path t ∷ []), valid.count);
      loaded = λ i f found.
          by_place i f (get_elem?-append_cases files (source_file (length files) path t) f i found);
    }
      where
        by_place :
            (i : ℕ) (f : SourceFile)
            → (get_elem? files i ≡ some f)
              ⊎ ((i ≡ length files) × (source_file (length files) path t ≡ f))
            → IsLoaded i f
        by_place i f (inl old) = valid.loaded i f old
        by_place i f (inr (at_end, new)) = rw at_end (
            subst (IsLoaded (length files)) new (record {
              same_id = refl;
              trusted = normalize_source-IsTrusted text t bytes e;
              same_lines = refl;
            }))

replace_text-IsValid :
    (files : SourceManager) (id : ℕ) (text : List ℕ)
    → All IsByte text
    → IsValid files
    → IsValid (replace_text files id text).0
unfolding replace_text find reset_text
replace_text-IsValid files id text bytes valid = by_file (get_elem? files id) refl
  where
    by_text :
        (f : SourceFile) (r : Fallible (List ℕ))
        → get_elem? files id ≡ some f
        → normalize_source text ≡ r
        → IsValid (
            let s : SourceManager × Fallible (List ℕ) = elim r [
              | failed m ↦ (files, failed m)
              | done t ↦ (set files id (reset_text f t), done t)
            ] in
            s.0)
    by_text f (failed m) here e = valid
    by_text f (done t) here e = record {
      count = omega (arith, length-set files id (reset_text f t), valid.count);
      loaded = λ i g found. by_place i g found (ℕ_discrete id i);
    }
      where
        by_place :
            (i : ℕ) (g : SourceFile)
            → get_elem? (set files id (reset_text f t)) i ≡ some g
            → Dec (id ≡ i)
            → IsLoaded i g
        by_place i g found (no other) =
            valid.loaded i g (sym (get_elem?-set_ne files (reset_text f t) other) ∙ found)
        by_place i g found (yes same) =
            let put =
              get_elem?-set_self files id (reset_text f t) (get_elem?_below files id here) in
            let at_id : get_elem? (set files id (reset_text f t)) id ≡ some g =
              subst (λ j. get_elem? (set files id (reset_text f t)) j ≡ some g) (sym same) found in
            let new : reset_text f t ≡ g = cc in
            subst (λ j. IsLoaded j g) same
              (subst (IsLoaded id) new (record {
                same_id = (valid.loaded id f here).same_id;
                trusted = normalize_source-IsTrusted text t bytes e;
                same_lines = refl;
              }))

    by_file :
        (o : Option SourceFile)
        → get_elem? files id ≡ o
        → IsValid (
            let s : SourceManager × Fallible (List ℕ) = elim o [
              | none ↦ (files, failed no_such_file)
              | some f ↦ elim (normalize_source text) [
                | failed m ↦ (files, failed m)
                | done t ↦ (set files id (reset_text f t), done t)
              ]
            ] in
            s.0)
    by_file none e = valid
    by_file (some f) e = by_text f (normalize_source text) e refl

-- What is asked of the manager.
pub data Request : Type 0 where
  add : (path text : List ℕ) → Request
  load : (path : List ℕ) → (bytes : Fallible (List ℕ)) → Request
  replace : (id : ℕ) → (text : List ℕ) → Request

abbrev pub OfBytes : Request → Type 0
OfBytes (add path text) = All IsByte text
OfBytes (load path (failed m)) = Unit
OfBytes (load path (done text)) = All IsByte text
OfBytes (replace id text) = All IsByte text

abbrev pub serve : Request → SourceManager → SourceManager
serve (add path text) files = (add_file files path text).0
serve (load path bytes) files = (load_from_disk files path bytes).0
serve (replace id text) files = (replace_text files id text).0

abbrev pub serve_all : List Request → SourceManager → SourceManager
serve_all [] files = files
serve_all (r ∷ rs) files = serve_all rs (serve r files)

serve-IsValid :
    (r : Request) (files : SourceManager) → OfBytes r → IsValid files → IsValid (serve r files)
unfolding load_from_disk
serve-IsValid (add path text) files bytes valid = add_file-IsValid files path text bytes valid
serve-IsValid (load path (failed m)) files bytes valid = valid
serve-IsValid (load path (done text)) files bytes valid =
    add_file-IsValid files path text bytes valid
serve-IsValid (replace id text) files bytes valid = replace_text-IsValid files id text bytes valid

serve_all_from-IsValid :
    (rs : List Request) (files : SourceManager)
    → All OfBytes rs
    → IsValid files
    → IsValid (serve_all rs files)
serve_all_from-IsValid [] files bytes valid = valid
serve_all_from-IsValid (r ∷ rs) files bytes valid =
    serve_all_from-IsValid rs (serve r files) (bytes.1) (serve-IsValid r files (bytes.0) valid)

-- After any requests, whose texts are bytes, each file that the manager has is under its own id, is
-- small, has no NUL byte, encodes scalar values, and has the lines of its text; the files are within
-- the limit.
pub serve_all-IsValid : (rs : List Request) → All OfBytes rs → IsValid (serve_all rs [])
unfolding find
serve_all-IsValid rs bytes =
    serve_all_from-IsValid rs [] bytes
      (record { count = omega arith; loaded = λ i f h. absurd (cc) })
