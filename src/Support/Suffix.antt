-- ===== src/Support/Suffix.antt =====
-- The suffixes of number literals: include/support/consteval/suffix.h and
-- src/support/consteval/suffix.cc. An index into a text is the list of the bytes from it on.
pub mod Classes
pub mod Number
pub mod Split
use mincplus.Prelude.{
  ℕ, zero, suc, ◌+◌, ◌-◌, Bool, true, false, ◌&&◌, ◌||◌, not, leb, ◌==◌, if◌then◌else◌, Option,
  none, some, List, [], ◌∷◌, ◌++◌, length, codes, same_bytes,
}

pub data SuffixType : Type 0 where
  none_type i8 i16 i32 i64 i128 isize u8 u16 u32 u64 u128 usize f32 f64 f80 f128 : SuffixType
  c_unsigned_int c_long c_unsigned_long c_long_double : SuffixType

abbrev pub is_unsigned_suffix : SuffixType → Bool
is_unsigned_suffix u8 = true
is_unsigned_suffix u16 = true
is_unsigned_suffix u32 = true
is_unsigned_suffix u64 = true
is_unsigned_suffix u128 = true
is_unsigned_suffix usize = true
is_unsigned_suffix c_unsigned_int = true
is_unsigned_suffix c_unsigned_long = true
is_unsigned_suffix _ = false

abbrev pub is_target_dependent : SuffixType → Bool
is_target_dependent c_unsigned_int = true
is_target_dependent c_long = true
is_target_dependent c_unsigned_long = true
is_target_dependent c_long_double = true
is_target_dependent _ = false

pub data SuffixStatus : Type 0 where
  no_suffix typed refused : SuffixStatus

pub data SuffixMessage : Type 0 where
  bit_precise integer_suffix_on_float : SuffixMessage

pub record LiteralSuffix : Type 0 where
  pub status : SuffixStatus
  pub type : SuffixType
  pub makes_float : Bool
  pub message : Option SuffixMessage

-- `LiteralSuffix{}`.
abbrev pub absent : LiteralSuffix
absent = record { status = no_suffix; type = none_type; makes_float = false; message = none }

abbrev pub typed_as : SuffixType → Bool → LiteralSuffix
typed_as t f = record { status = typed; type = t; makes_float = f; message = none }

abbrev pub refused_with : SuffixMessage → LiteralSuffix
refused_with m = record {
  status = refused;
  type = none_type;
  makes_float = false;
  message = some m;
}

abbrev pub present : LiteralSuffix → Bool
present s = elim s.status [ no_suffix ↦ false | _ ↦ true ]

pub record SuffixRow : Type 0 where
  pub spelling : List ℕ
  pub type : SuffixType
  pub makes_float : Bool

abbrev row : List ℕ → SuffixType → Bool → SuffixRow
row s t f = record { spelling = s; type = t; makes_float = f }

abbrev pub suffix_rows : List SuffixRow
suffix_rows =
    row (codes "i8") i8 false
    ∷ row (codes "i16") i16 false
    ∷ row (codes "i32") i32 false
    ∷ row (codes "i64") i64 false
    ∷ row (codes "i128") i128 false
    ∷ row (codes "isize") isize false
    ∷ row (codes "u8") u8 false
    ∷ row (codes "u16") u16 false
    ∷ row (codes "u32") u32 false
    ∷ row (codes "u64") u64 false
    ∷ row (codes "u128") u128 false
    ∷ row (codes "usize") usize false
    ∷ row (codes "f") f32 true
    ∷ row (codes "F") f32 true
    ∷ row (codes "f32") f32 true
    ∷ row (codes "f64") f64 true
    ∷ row (codes "f80") f80 true
    ∷ row (codes "f128") f128 true
    ∷ row (codes "u") c_unsigned_int false
    ∷ row (codes "U") c_unsigned_int false
    ∷ row (codes "ll") i64 false
    ∷ row (codes "LL") i64 false
    ∷ row (codes "lL") i64 false
    ∷ row (codes "Ll") i64 false
    ∷ row (codes "l") c_long false
    ∷ row (codes "L") c_long false
    ∷ []

unfoldable pub letters_type : ℕ → ℕ → SuffixType
letters_type us ls =
    if us == 1 && ls == 2
    then u64
    else if us == 0 && ls == 2
    then i64
    else if us == 1 && ls == 1
    then c_unsigned_long
    else if us == 0 && ls == 1
    then c_long
    else if us == 1 && ls == 0
    then c_unsigned_int
    else none_type

abbrev pub is_u : ℕ → Bool
is_u c = c == b'u' || c == b'U'

abbrev pub is_l : ℕ → Bool
is_l c = c == b'l' || c == b'L'

-- The loop of `classifyLetters`, with the counts.
abbrev pub count_letters : ℕ → ℕ → List ℕ → SuffixType
count_letters us ls [] = letters_type us ls
count_letters us ls (c ∷ cs) =
    if is_u c || is_l c
    then count_letters (if is_u c then us + 1 else us) (if is_u c then ls else ls + 1) cs
    else none_type

unfoldable pub classify_letters : List ℕ → SuffixType
unfolding letters_type
classify_letters text = count_letters 0 0 text

abbrev pub is_wb : List ℕ → Bool
is_wb text =
    same_bytes text (codes "wb")
    || (same_bytes text (codes "WB")
        || (same_bytes text (codes "Wb") || same_bytes text (codes "wB")))

unfoldable pub is_bit_precise_suffix : List ℕ → Bool
is_bit_precise_suffix [] = false
is_bit_precise_suffix (c ∷ tail) = is_wb (c ∷ tail) || length tail == 2 && (is_u c && is_wb tail)

abbrev pub is_c_long : SuffixType → Bool
is_c_long c_long = true
is_c_long _ = false

-- What the row with the spelling of the suffix says.
abbrev pub row_suffix : Bool → SuffixRow → LiteralSuffix
row_suffix is_float r =
    if is_c_long r.type
    then (if not is_float then typed_as c_long false else typed_as c_long_double false)
    else if not is_float
    then typed_as r.type r.makes_float
    else if r.makes_float
    then typed_as r.type false
    else refused_with integer_suffix_on_float

-- After the rows.
abbrev pub letters_suffix : Bool → SuffixType → LiteralSuffix
letters_suffix is_float none_type = absent
letters_suffix is_float t =
    if not is_float then typed_as t false else refused_with integer_suffix_on_float

abbrev pub search_suffix : Bool → List ℕ → List SuffixRow → LiteralSuffix
search_suffix is_float text [] = letters_suffix is_float (classify_letters text)
search_suffix is_float text (r ∷ rest) =
    if same_bytes r.spelling text then row_suffix is_float r else search_suffix is_float text rest

unfoldable pub classify_suffix : List ℕ → Bool → LiteralSuffix
unfolding is_bit_precise_suffix classify_letters
classify_suffix text is_float =
    if length text == 0
    then absent
    else if not is_float && is_bit_precise_suffix text
    then refused_with bit_precise
    else search_suffix is_float text suffix_rows

abbrev pub in_range : ℕ → ℕ → ℕ → Bool
in_range low high c = leb low c && leb c high

abbrev pub is_decimal_digit : ℕ → Bool
is_decimal_digit c = in_range b'0' b'9' c

unfoldable pub is_identifier_continue : ℕ → Bool
is_identifier_continue c =
    in_range b'a' b'z' c || (in_range b'A' b'Z' c || (is_decimal_digit c || c == b'_'))

-- The bytes up to the first that fails a test, and those from it on.
abbrev pub span : (ℕ → Bool) → List ℕ → List ℕ × List ℕ
span p [] = ([], [])
span p (c ∷ cs) = let (run, rest) = span p cs in if p c then (c ∷ run, rest) else ([], c ∷ cs)

unfoldable pub suffix_length_at : List ℕ → Bool → ℕ
unfolding classify_suffix is_identifier_continue
suffix_length_at text is_float =
    let run = (span is_identifier_continue text).0 in
    if length run == 0 then 0 else if present (classify_suffix run is_float) then length run else 0
