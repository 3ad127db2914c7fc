-- ===== src/Support/Source.antt =====
-- The sources of a compilation: include/support/source, src/support/source/source_manager.cc and
-- source_file.cc. What reading a file yields is an argument; a message is an enumerator.
pub mod Trusted
pub mod Manager
use Prim.Native.Nat.{min}
use mincplus.Prelude.{
  ℕ, zero, suc, ◌+◌, ◌-◌, ◌*◌, ◌%◌, ◌^◌, Bool, true, false, ◌||◌, not, ltb, leb, ◌==◌,
  if◌then◌else◌, Option, none, some, List, [], ◌∷◌, ◌++◌, length, get_elem?, set, take, drop,
}
use mincplus.Support.LineTable.{LineCol, rebuild, lookup, line_text}
use mincplus.Support.Span.{Span, valid}
use mincplus.Support.Utf8.{
  ByteOrderMark, utf8, detect_byte_order_mark, is_unsupported_encoding, byte_order_mark_length,
  first_invalid_offset,
}

abbrev pub max_source_bytes : ℕ
max_source_bytes = 64 * 1024 * 1024

abbrev pub max_source_files : ℕ
max_source_files = 2 ^ 20

pub data SourceMessage : Type 0 where
  too_large too_many_files no_such_file unreadable : SourceMessage
  unsupported_encoding : ByteOrderMark → SourceMessage
  nul_byte invalid_utf8 : ℕ → SourceMessage

pub data Fallible (A : Type 0) : Type 0 where
  done : A → Fallible A
  failed : SourceMessage → Fallible A

-- Where the first NUL byte is.
unfoldable pub find_nul : ℕ → List ℕ → Option ℕ
find_nul i [] = none
find_nul i (c ∷ cs) = let rest = find_nul (i + 1) cs in if c == 0 then some i else rest

abbrev pub is_utf8_mark : ByteOrderMark → Bool
is_utf8_mark utf8 = true
is_utf8_mark _ = false

unfoldable pub strip_mark : List ℕ → List ℕ
strip_mark text =
    let mark = detect_byte_order_mark text in
    if is_utf8_mark mark then drop (byte_order_mark_length mark) text else text

-- Behind the byte-order mark.
abbrev pub check_text : List ℕ → Fallible (List ℕ)
check_text text = elim (find_nul 0 text) [
  | some i ↦ failed (nul_byte i)
  | none ↦ elim (first_invalid_offset text) [ some i ↦ failed (invalid_utf8 i) | none ↦ done text ]
]

unfoldable pub normalize_source : List ℕ → Fallible (List ℕ)
normalize_source text =
    if ltb max_source_bytes (length text)
    then failed too_large
    else if is_unsupported_encoding (detect_byte_order_mark text)
    then failed (unsupported_encoding (detect_byte_order_mark text))
    else check_text (strip_mark text)

pub record SourceFile : Type 0 where
  pub id : ℕ
  pub revision : ℕ
  pub path : List ℕ
  pub text : List ℕ
  pub lines : List ℕ

unfoldable pub source_file : ℕ → List ℕ → List ℕ → SourceFile
source_file id path text = record {
  id = id;
  revision = 0;
  path = path;
  text = text;
  lines = rebuild text;
}

unfoldable pub reset_text : SourceFile → List ℕ → SourceFile
reset_text f text = record f {
  text = text;
  lines = rebuild text;
  revision = (f.revision + 1) % 2 ^ 32;
}

abbrev pub file_size : SourceFile → ℕ
file_size f = length f.text % 2 ^ 32

unfoldable pub file_lookup : SourceFile → ℕ → LineCol
file_lookup f offset = lookup f.lines offset (file_size f)

unfoldable pub file_line_text : SourceFile → ℕ → Option (List ℕ)
file_line_text f line = line_text f.lines f.text line

-- Both ends are capped, and a reversed slice is empty.
unfoldable pub slice : SourceFile → ℕ → ℕ → List ℕ
slice f begin end =
    let last = min end (file_size f) in
    let first = min (min begin (file_size f)) last in take (last - first) (drop first f.text)

unfoldable pub slice_span : SourceFile → Span → Option (List ℕ)
slice_span f s =
    if not (valid s) || not (s.file == f.id) then none else some (slice f s.begin s.end)

abbrev pub SourceManager : Type 0
SourceManager = List SourceFile

unfoldable pub add_file : SourceManager → List ℕ → List ℕ → SourceManager × Fallible ℕ
add_file files path text =
    if leb max_source_files (length files)
    then (files, failed too_many_files)
    else elim (normalize_source text) [
      | failed m ↦ (files, failed m)
      | done t ↦ (files ++ (source_file (length files) path t ∷ []), done (length files))
    ]

-- With what `readFileBytes` yields for the path.
unfoldable pub load_from_disk :
    SourceManager → List ℕ → Fallible (List ℕ) → SourceManager × Fallible ℕ
load_from_disk files path (failed m) = (files, failed m)
load_from_disk files path (done bytes) = add_file files path bytes

unfoldable pub replace_text : SourceManager → ℕ → List ℕ → SourceManager × Fallible (List ℕ)
replace_text files id text = elim (get_elem? files id) [
  | none ↦ (files, failed no_such_file)
  | some f ↦ elim (normalize_source text) [
    | failed m ↦ (files, failed m)
    | done t ↦ (set files id (reset_text f t), done t)
  ]
]

unfoldable pub find : SourceManager → ℕ → Option SourceFile
find files id = get_elem? files id
