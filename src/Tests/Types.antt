-- ===== src/Tests/Types.antt =====
-- The theorems on conversions and casts at fixed types.
use mincplus.Prelude.{◌≡◌, ◌-◌, ◌^◌, ◌↔◌, refl, true, false, some, arith}
use mincplus.Support.ConstInt.{ConstInt}
use mincplus.Sema.Types.{Ty, int, float, pointer, void, error, is_arithmetic}
use mincplus.Sema.Convert.{convertible, usual_arithmetic, mixed_number_pair}
use mincplus.Sema.Convert.Relation.{Converts, convertible_iff}
use mincplus.Sema.Convert.Common.{usual_arithmetic-convertible, usual_arithmetic-error_iff}
use mincplus.Sema.Cast.{cast_result, fold_int_cast}
use mincplus.Sema.Cast.Laws.{cast_result-convertible}
use mincplus.Sema.Cast.Fold.{low, value_at, fold_int_cast_lem}

abbrev i32 : Ty
i32 = int true 32

abbrev i8 : Ty
i8 = int true 8

abbrev u64 : Ty
u64 = int false 64

abbrev minus_one : ConstInt
minus_one = record { bits = 2 ^ 64 - 1; is_unsigned = false }

convertible_iff_example :
    (convertible (pointer i32) (pointer void) ≡ true) ↔ Converts (pointer i32) (pointer void)
convertible_iff_example = convertible_iff (pointer i32) (pointer void)

usual_arithmetic-convertible_example :
    (convertible i32 (usual_arithmetic i32 u64) ≡ true)
    × (convertible u64 (usual_arithmetic i32 u64) ≡ true)
    × (is_arithmetic (usual_arithmetic i32 u64) ≡ true)
unfolding usual_arithmetic
usual_arithmetic-convertible_example = usual_arithmetic-convertible i32 u64 refl refl (λ e. cc)

usual_arithmetic-error_iff_example :
    (usual_arithmetic i32 (float 64) ≡ error) ↔ (mixed_number_pair i32 (float 64) ≡ true)
usual_arithmetic-error_iff_example = usual_arithmetic-error_iff i32 (float 64) refl refl

cast_result-convertible_example : (cast_result 64 i32 u64).ok ≡ true
unfolding convertible
cast_result-convertible_example = cast_result-convertible 64 i32 u64 refl refl refl

-- `-1 as u64` from an i32.
fold_int_cast_lem_example :
    fold_int_cast i32 u64 minus_one
    ≡ some (record { bits = low (value_at true 32 (2 ^ 64 - 1)) 64; is_unsigned = true })
fold_int_cast_lem_example =
    fold_int_cast_lem true false 32 64 minus_one (omega arith) (omega arith) (omega arith)
