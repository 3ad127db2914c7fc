-- ===== src/Support/ConstInt/Division.antt =====
-- Division and remainder of src/support/consteval/const_int.cc against the arithmetic modulo 2 ^ 64.
use native.Mathlib.Nat.{div-add-mod, div-le_self, mod-eq_of_lt, mod-le}
use mincplus.Prelude.{
  ℕ, zero, suc, ◌+◌, ◌-◌, ◌*◌, ◌/◌, ◌%◌, ◌^◌, ◌≤◌, ◌<◌, ◌≡◌, ◌≢◌, ap, true, false, none, some,
  arith, ◌↔◌, Bool-cases, inl, inr, ◌&&◌, ◌||◌, refl, sym, ◌==◌,
}
use mincplus.Prelude.Int.{ℤ, pos, negsuc, quot, rem, minus, eq_ℤ, pos_part, neg_part}
use mincplus.Support.ConstInt.{
  ConstInt, InRange, to_signed, to_bits, divide, remainder, add, mul, signed_value, int64_min,
  from_signed, from_unsigned,
}

times : (c : ℕ) {x y : ℕ} → x ≡ y → x * c ≡ y * c
times c e = ap (λ (t : ℕ). t * c) e

-- What the bits of -n add up to with n.
minus_bits : (n : ℕ) → n ≤ 2 ^ 63 → (e : ℕ) × (to_bits (minus n) + n ≡ 2 ^ 64 * e)
minus_bits zero h = (0, omega arith)
minus_bits (suc n) h = (1, omega arith)

-- `q * b + r` in the four combinations of signs; `x` and `y` are the bits of -q and -r, and `c`
-- those of -b.
pos_pos : (a b q r : ℕ) → q * b + r ≡ a → a < 2 ^ 64 → (q * b % 2 ^ 64 + r) % 2 ^ 64 ≡ a
pos_pos a b q r h l = omega arith

neg_pos :
    (a b q r x y e f : ℕ)
    → x + q ≡ 2 ^ 64 * e
    → y + r ≡ 2 ^ 64 * f
    → q * b + r ≡ a
    → a ≤ 2 ^ 64
    → (x * b % 2 ^ 64 + y) % 2 ^ 64 ≡ (2 ^ 64 - a) % 2 ^ 64
neg_pos a b q r x y e f hx hy h l = omega (arith, times b hx)

pos_neg :
    (a b q r x c e : ℕ)
    → x + q ≡ 2 ^ 64 * e
    → c + b ≡ 2 ^ 64
    → q * b + r ≡ a
    → a < 2 ^ 64
    → (x * c % 2 ^ 64 + r) % 2 ^ 64 ≡ a
pos_neg a b q r x c e hx hc h l = omega (arith, times b hx, times x hc)

neg_neg :
    (a b q r y c f : ℕ)
    → c + b ≡ 2 ^ 64
    → y + r ≡ 2 ^ 64 * f
    → q * b + r ≡ a
    → a ≤ 2 ^ 64
    → (q * c % 2 ^ 64 + y) % 2 ^ 64 ≡ (2 ^ 64 - a) % 2 ^ 64
neg_neg a b q r y c f hc hy h l = omega (arith, times q hc)

abbrev IsSmall : ℤ → Type 0
IsSmall x = pos_part x + neg_part x ≤ 2 ^ 63

div_parts : (a b : ℕ) → (a / b * b + a % b ≡ a) × (a / b ≤ a) × (a % b ≤ a)
div_parts a b = (omega (arith, div-add-mod a b), div-le_self a b, mod-le a b)

quot-rem_bits :
    (x y : ℤ)
    → IsSmall x
    → IsSmall y
    → 0 < pos_part y + neg_part y
    → (to_bits (quot x y) * to_bits y % 2 ^ 64 + to_bits (rem x y)) % 2 ^ 64 ≡ to_bits x
quot-rem_bits (pos a) (pos b) hx hy p =
    let (d, q, r) = div_parts a b in
    rw
      (
        mod-eq_of_lt {n = b} {m = 2 ^ 64} (omega arith),
        mod-eq_of_lt {n = a / b} {m = 2 ^ 64} (omega arith),
        mod-eq_of_lt {n = a % b} {m = 2 ^ 64} (omega arith),
        mod-eq_of_lt {n = a} {m = 2 ^ 64} (omega arith),
      )
      (pos_pos a b (a / b) (a % b) d (omega arith))
quot-rem_bits (pos a) (negsuc b) hx hy p =
    let (d, q, r) = div_parts a (suc b) in
    let (e, me) = minus_bits (a / suc b) (omega arith) in
    omega (
      arith,
      pos_neg a (suc b) (a / suc b) (a % suc b) _ (to_bits (negsuc b)) e me (omega arith) d
          (omega arith),
    )
quot-rem_bits (negsuc a) (pos b) hx hy p =
    let (d, q, r) = div_parts (suc a) b in
    let (e, me) = minus_bits (suc a / b) (omega arith) in
    let (f, mf) = minus_bits (suc a % b) (omega arith) in
    rw (mod-eq_of_lt {n = b} {m = 2 ^ 64} (omega arith))
      (omega (arith, neg_pos (suc a) b (suc a / b) (suc a % b) _ _ e f me mf d (omega arith)))
quot-rem_bits (negsuc a) (negsuc b) hx hy p =
    let (d, q, r) = div_parts (suc a) (suc b) in
    let (f, mf) = minus_bits (suc a % suc b) (omega arith) in
    rw (mod-eq_of_lt {n = suc a / suc b} {m = 2 ^ 64} (omega arith)) (
      omega (
        arith,
        neg_neg (suc a) (suc b) (suc a / suc b) (suc a % suc b) _ (to_bits (negsuc b)) f
            (omega arith) mf d (omega arith),
      ))

to_bits-to_signed : (b : ℕ) → b < 2 ^ 64 → to_bits (to_signed b) ≡ b
to_bits-to_signed b h = ground arith

to_signed-IsSmall : (b : ℕ) → b < 2 ^ 64 → IsSmall (to_signed b)
to_signed-IsSmall b h = ground arith

to_signed_pos : (b : ℕ) → b < 2 ^ 64 → b ≢ 0 → 0 < pos_part (to_signed b) + neg_part (to_signed b)
to_signed_pos b h n = ground arith

-- Dividing the smallest value by -1 wraps: the quotient is the smallest value again.
overflow_bits :
    (x y : ℤ)
    → eq_ℤ x int64_min && eq_ℤ y (negsuc 0) ≡ true
    → (from_signed (quot x y) ≡ from_signed int64_min)
      × (from_signed (rem x y) ≡ from_signed (pos 0))
unfolding from_signed
overflow_bits (pos a) y h = cc
overflow_bits (negsuc a) (pos b) h = ground arith
overflow_bits (negsuc a) (negsuc b) h =
    let e : a ≡ 2 ^ 63 - 1 = ground arith in let f : b ≡ 0 = ground arith in rw (e, f) (refl, refl)

module _ (a b : ConstInt) (nonzero : b.bits ≢ 0) where
  both_unsigned :
      (a.is_unsigned || b.is_unsigned) ≡ true
      → (divide a b ≡ some (from_unsigned (a.bits / b.bits)))
        × (remainder a b ≡ some (from_unsigned (a.bits % b.bits)))
  unfolding divide remainder
  both_unsigned u = ground arith

  both_signed :
      (a.is_unsigned || b.is_unsigned) ≡ false
      → (divide a b ≡ some (from_signed (quot (signed_value a) (signed_value b))))
        × (remainder a b ≡ some (from_signed (rem (signed_value a) (signed_value b))))
  unfolding divide remainder
  both_signed u =
      let z : (b.bits == 0) ≡ false = ground arith in
      let over = overflow_bits (signed_value a) (signed_value b) in
      elim (Bool-cases (eq_ℤ (signed_value a) int64_min && eq_ℤ (signed_value b) (negsuc 0))) [
        | inl o ↦ rw (z, u, o) (ap some (sym (over o).0), ap some (sym (over o).1))
        | inr o ↦ rw (z, u, o) (refl, refl)
      ]

  signed_bits :
      InRange a
      → InRange b
      → let q = from_signed (quot (signed_value a) (signed_value b)) in
        let r = from_signed (rem (signed_value a) (signed_value b)) in
        (add (mul q b) r).bits ≡ a.bits
  unfolding signed_value from_signed add mul
  signed_bits va vb =
      rw (to_bits-to_signed a.bits va, to_bits-to_signed b.bits vb) at
        (quot-rem_bits (to_signed a.bits) (to_signed b.bits) (to_signed-IsSmall a.bits va)
          (to_signed-IsSmall b.bits vb) (to_signed_pos b.bits vb nonzero))

  unsigned_bits :
      InRange a
      → (add (mul (from_unsigned (a.bits / b.bits)) b) (from_unsigned (a.bits % b.bits))).bits
        ≡ a.bits
  unfolding from_unsigned add mul
  unsigned_bits va =
      pos_pos a.bits b.bits (a.bits / b.bits) (a.bits % b.bits) (div_parts a.bits b.bits).0 va

-- Where `divide` and `remainder` of two words have a value, the quotient times the divisor plus the remainder is
-- the dividend modulo 2 ^ 64: signed or not, the smallest value divided by -1 included.
pub divide-remainder :
    (a b : ConstInt) {q r : ConstInt}
    → InRange a
    → InRange b
    → divide a b ≡ some q
    → remainder a b ≡ some r
    → (add (mul q b) r).bits ≡ a.bits
divide-remainder a b {q} {r} va vb hq hr = elim (Bool-cases (a.is_unsigned || b.is_unsigned)) [
  | inl u ↦ let (d, m) = both_unsigned a b nz u in use_values d m (unsigned_bits a b nz va)
  | inr u ↦ let (d, m) = both_signed a b nz u in use_values d m (signed_bits a b nz va vb)
]
  where
    nz : b.bits ≢ 0
    nz e = unfold divide in ground arith

    use_values :
        {q' r' : ConstInt}
        → divide a b ≡ some q'
        → remainder a b ≡ some r'
        → (add (mul q' b) r').bits ≡ a.bits
        → (add (mul q b) r).bits ≡ a.bits
    use_values {q'} {r'} d m h = let eq : q' ≡ q = cc in let er : r' ≡ r = cc in rw (eq, er) at h

-- `divide` and `remainder` refuse exactly a zero divisor.
pub divide-none_iff :
    (a b : ConstInt)
    → ((divide a b ≡ none) ↔ (b.bits ≡ 0)) × ((remainder a b ≡ none) ↔ (b.bits ≡ 0))
unfolding divide remainder
divide-none_iff a b = ground arith
