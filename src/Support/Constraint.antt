-- ===== src/Support/Constraint.antt =====
-- The classes that a type parameter may be constrained to: include/support/constraint/constraint.h
-- and src/support/constraint/constraint.cc. A set of operations is a 64-bit word with one bit for
-- each; a name is its bytes. The column `members` of the table is for the reader only and is left
-- out.
pub mod Least
pub mod Limits
pub mod Names
use Prim.Native.Nat.{bit_and, bit_or}
use mincplus.Prelude.{
  same_bytes, ℕ, zero, suc, ◌+◌, ◌-◌, ◌*◌, ◌/◌, ◌%◌, ◌^◌, Bool, true, false, ◌&&◌, ◌||◌, not, ltb,
  leb, ◌==◌, if◌then◌else◌, Option, none, some, List, [], ◌∷◌,
}

pub data Operation : Type 0 where
  add sub mul div remainder negate increment bitwise_and bitwise_or bitwise_xor : Operation
  bitwise_not shift_left shift_right less less_equal greater greater_equal equal : Operation
  not_equal logical_not logical_and logical_or condition : Operation

pub data ConstraintClass : Type 0 where
  any eq ordered number integer float pointer : ConstraintClass

pub data TypeConstant : Type 0 where
  constant_zero constant_one constant_min constant_max constant_epsilon : TypeConstant
  constant_infinity constant_nan : TypeConstant

pub data LiteralClass : Type 0 where
  no_literal integer_literals float_literals : LiteralClass

-- The value of the enumerator.
abbrev pub position : Operation → ℕ
position add = 0
position sub = 1
position mul = 2
position div = 3
position remainder = 4
position negate = 5
position increment = 6
position bitwise_and = 7
position bitwise_or = 8
position bitwise_xor = 9
position bitwise_not = 10
position shift_left = 11
position shift_right = 12
position less = 13
position less_equal = 14
position greater = 15
position greater_equal = 16
position equal = 17
position not_equal = 18
position logical_not = 19
position logical_and = 20
position logical_or = 21
position condition = 22

abbrev pub bit : Operation → ℕ
bit op = 2 ^ position op

-- The union of the bits of some operations.
abbrev pub bits_of_all : List Operation → ℕ
bits_of_all [] = 0
bits_of_all (op ∷ ops) = bit_or (bit op) (bits_of_all ops)

abbrev pub equality : ℕ
equality = bits_of_all (equal ∷ not_equal ∷ [])

abbrev pub ordering : ℕ
ordering = bit_or equality (bits_of_all (less ∷ less_equal ∷ greater ∷ greater_equal ∷ []))

abbrev pub arithmetic : ℕ
arithmetic = bit_or ordering (bits_of_all (add ∷ sub ∷ mul ∷ div ∷ negate ∷ increment ∷ []))

abbrev pub integer_only : ℕ
integer_only = bits_of_all (
    remainder ∷ bitwise_and ∷ bitwise_or ∷ bitwise_xor ∷ bitwise_not ∷ shift_left ∷ shift_right
    ∷ [])

pub record Row : Type 0 where
  pub name : List ℕ
  pub klass : ConstraintClass
  pub literal : LiteralClass
  pub grants : ℕ

abbrev pub row_of : ConstraintClass → Row
row_of any = record {
  name = b'A' ∷ b'n' ∷ b'y' ∷ [];
  klass = any;
  literal = no_literal;
  grants = 0;
}
row_of eq = record { name = b'E' ∷ b'q' ∷ []; klass = eq; literal = no_literal; grants = equality }
row_of ordered = record {
  name = b'O' ∷ b'r' ∷ b'd' ∷ b'e' ∷ b'r' ∷ b'e' ∷ b'd' ∷ [];
  klass = ordered;
  literal = no_literal;
  grants = ordering;
}
row_of number = record {
  name = b'N' ∷ b'u' ∷ b'm' ∷ b'b' ∷ b'e' ∷ b'r' ∷ [];
  klass = number;
  literal = no_literal;
  grants = arithmetic;
}
row_of integer = record {
  name = b'I' ∷ b'n' ∷ b't' ∷ b'e' ∷ b'g' ∷ b'e' ∷ b'r' ∷ [];
  klass = integer;
  literal = integer_literals;
  grants = bit_or arithmetic integer_only;
}
row_of float = record {
  name = b'F' ∷ b'l' ∷ b'o' ∷ b'a' ∷ b't' ∷ [];
  klass = float;
  literal = float_literals;
  grants = arithmetic;
}
row_of pointer = record {
  name = b'P' ∷ b'o' ∷ b'i' ∷ b'n' ∷ b't' ∷ b'e' ∷ b'r' ∷ [];
  klass = pointer;
  literal = no_literal;
  grants = ordering;
}

abbrev pub rows : List Row
rows =
    row_of any
    ∷ row_of eq
    ∷ row_of ordered
    ∷ row_of number
    ∷ row_of integer
    ∷ row_of float
    ∷ row_of pointer
    ∷ []

unfoldable pub constraint_grants : ConstraintClass → Operation → Bool
constraint_grants klass op = not (bit_and (row_of klass).grants (bit op) == 0)

-- `std::popcount` on a word of at most `k` bits.
abbrev pub popcount : ℕ → ℕ → ℕ
popcount zero n = 0
popcount (suc k) n = n % 2 + popcount k (n / 2)

abbrev pub is_any : ConstraintClass → Bool
is_any any = true
is_any _ = false

-- The loop over the rows, with `best` and `fewest`.
abbrev pub search_rows : Operation → ConstraintClass → ℕ → List Row → ConstraintClass
search_rows op best fewest [] = best
search_rows op best fewest (row ∷ rest) =
    let size = popcount 64 row.grants in
    if is_any row.klass || bit_and row.grants (bit op) == 0
    then search_rows op best fewest rest
    else if is_any best || ltb size fewest
    then search_rows op row.klass size rest
    else search_rows op best fewest rest

unfoldable pub constraint_for_operation : Operation → ConstraintClass
constraint_for_operation op = search_rows op any 0 rows

abbrev pub constraint_literal_class : ConstraintClass → LiteralClass
constraint_literal_class klass = (row_of klass).literal

unfoldable pub literal_admitted_by : LiteralClass → Bool → Bool
literal_admitted_by integer_literals is_float = not is_float
literal_admitted_by float_literals is_float = is_float
literal_admitted_by no_literal is_float = false

abbrev pub is_float_only : TypeConstant → Bool
is_float_only constant_epsilon = true
is_float_only constant_infinity = true
is_float_only constant_nan = true
is_float_only _ = false

unfoldable pub constraint_for_constant : TypeConstant → ConstraintClass
constraint_for_constant c = if is_float_only c then float else ordered

abbrev pub has_number_constants : ConstraintClass → Bool
has_number_constants ordered = true
has_number_constants number = true
has_number_constants integer = true
has_number_constants float = true
has_number_constants _ = false

abbrev pub is_float_class : ConstraintClass → Bool
is_float_class float = true
is_float_class _ = false

unfoldable pub constraint_grants_constant : ConstraintClass → TypeConstant → Bool
constraint_grants_constant klass c =
    if is_float_only c then is_float_class klass else has_number_constants klass

-- The loop over the rows that looks for a name.
abbrev pub class_in : List Row → List ℕ → Option ConstraintClass
class_in [] name = none
class_in (row ∷ rest) name = if same_bytes row.name name then some row.klass else class_in rest name

unfoldable pub constraint_class_from_name : List ℕ → Option ConstraintClass
constraint_class_from_name name = class_in rows name

abbrev pub constraint_class_name : ConstraintClass → List ℕ
constraint_class_name klass = (row_of klass).name

abbrev pub names_of : List Row → List (List ℕ)
names_of [] = []
names_of (row ∷ rest) = row.name ∷ names_of rest

abbrev pub constraint_class_names : List (List ℕ)
constraint_class_names = names_of rows

pub record TypeConstantInfo : Type 0 where
  pub constant : TypeConstant
  pub name : List ℕ

abbrev pub type_constants : List TypeConstantInfo
type_constants =
    record { constant = constant_zero; name = b'Z' ∷ b'E' ∷ b'R' ∷ b'O' ∷ [] }
    ∷ record { constant = constant_one; name = b'O' ∷ b'N' ∷ b'E' ∷ [] }
    ∷ record { constant = constant_min; name = b'M' ∷ b'I' ∷ b'N' ∷ [] }
    ∷ record { constant = constant_max; name = b'M' ∷ b'A' ∷ b'X' ∷ [] }
    ∷ record {
      constant = constant_epsilon;
      name = b'E' ∷ b'P' ∷ b'S' ∷ b'I' ∷ b'L' ∷ b'O' ∷ b'N' ∷ [];
    }
    ∷ record {
      constant = constant_infinity;
      name = b'I' ∷ b'N' ∷ b'F' ∷ b'I' ∷ b'N' ∷ b'I' ∷ b'T' ∷ b'Y' ∷ [];
    }
    ∷ record { constant = constant_nan; name = b'N' ∷ b'A' ∷ b'N' ∷ [] }
    ∷ []

-- The value of the enumerator.
abbrev pub constant_position : TypeConstant → ℕ
constant_position constant_zero = 0
constant_position constant_one = 1
constant_position constant_min = 2
constant_position constant_max = 3
constant_position constant_epsilon = 4
constant_position constant_infinity = 5
constant_position constant_nan = 6

-- The loops over the table, by a name and by a constant.
abbrev pub constant_in : List TypeConstantInfo → List ℕ → Option TypeConstant
constant_in [] name = none
constant_in (row ∷ rest) name =
    if same_bytes name row.name then some row.constant else constant_in rest name

abbrev pub constant_name_in : List TypeConstantInfo → TypeConstant → List ℕ
constant_name_in [] c = []
constant_name_in (row ∷ rest) c =
    if constant_position row.constant == constant_position c
    then row.name
    else constant_name_in rest c

unfoldable pub type_constant_from_name : List ℕ → Option TypeConstant
type_constant_from_name name = constant_in type_constants name

unfoldable pub type_constant_name : TypeConstant → List ℕ
type_constant_name c = constant_name_in type_constants c

-- The bits of an integer constant, in two 64-bit words.
pub record IntConstant : Type 0 where
  pub low : ℕ
  pub high : ℕ
  pub is_unsigned : Bool

abbrev pub all_ones : ℕ
all_ones = 2 ^ 64 - 1

abbrev pub min_words : ℕ → Bool → ℕ × ℕ
min_words bits signed =
    if not signed then (0, 0) else if leb bits 64 then (2 ^ (bits - 1), 0) else (0, 2 ^ (bits - 65))

abbrev pub max_words : ℕ → Bool → ℕ × ℕ
max_words bits signed =
    if leb bits 64
    then (let low = if bits == 64 then all_ones else 2 ^ bits - 1 in
        (if signed then low / 2 else low, 0))
    else let high = if bits == 128 then all_ones else 2 ^ (bits - 64) - 1 in
      (all_ones, if signed then high / 2 else high)

abbrev pub from_words : Bool → ℕ × ℕ → Option IntConstant
from_words signed w = some (record { low = w.0; high = w.1; is_unsigned = not signed })

unfoldable pub integer_constant_value : ℕ → Bool → TypeConstant → Option IntConstant
integer_constant_value bits signed c = if ltb bits 1 || ltb 128 bits then none else elim c [
  | constant_zero ↦ from_words signed (0, 0)
  | constant_one ↦ from_words signed (1, 0)
  | constant_min ↦ from_words signed (min_words bits signed)
  | constant_max ↦ from_words signed (max_words bits signed)
  | _ ↦ none
]
