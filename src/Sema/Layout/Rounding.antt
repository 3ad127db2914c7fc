-- ===== src/Sema/Layout/Rounding.antt =====
-- Rounding a size up to an alignment (src/sema/type_store.cc).
use native.Mathlib.Nat.{div-add-mod', mul-mod_left, mod-lt}
use mincplus.Prelude.{ℕ, ◌+◌, ◌-◌, ◌*◌, ◌/◌, ◌%◌, ◌^◌, ◌≤◌, ◌<◌, ◌≡◌, refl, arith}
use mincplus.Sema.Layout.{round_up}

-- What rounding up to an alignment promises.
pub round_up_bounds :
    (size align : ℕ)
    → 1 ≤ align
    → let r = (size + (align - 1)) / align * align in
      (size ≤ r) × (r ≤ size + (align - 1)) × (r % align ≡ 0)
round_up_bounds size align h =
    let n = size + (align - 1) in
    let whole = div-add-mod' n align in
    let part : n % align < align = mod-lt n (omega arith) in
    (omega (arith, whole, part), omega (arith, whole), mul-mod_left (n / align) align)

pub round_up_exact :
    (size align : ℕ)
    → size + (align - 1) < 2 ^ 64
    → round_up size align ≡ (size + (align - 1)) / align * align
round_up_exact size align h =
    let small : (size + (align - 1)) % 2 ^ 64 ≡ size + (align - 1) = omega arith in rw small refl
