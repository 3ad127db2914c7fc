-- ===== src/Prelude/Powers.antt =====
-- Powers of two and divisions by them.
use Prim.Native.Nat.add
use native.Mathlib.Nat.{
  pow-suc, div-add-mod, mod-lt, div-eq_of_lt-le, div-lt_iff_lt-mul, mul-add-mod_self_left,
  mod-eq_of_lt, mod-mod_of_dvd, one-le-pow, pow-le-pow_right,
}
use mincplus.Prelude.{
  ℕ, zero, suc, ◌+◌, ◌-◌, ◌*◌, ◌/◌, ◌%◌, ◌^◌, ◌≤◌, ◌<◌, ◌≡◌, sym, ap, ◌∙◌, arith,
}

pub pow-add : (k j : ℕ) → 2 ^ (k + j) ≡ 2 ^ k * 2 ^ j
pow-add zero j = rw add.zero (omega arith)
pow-add (suc k) j =
    rw add.suc
      (omega (arith, pow-suc 2 (k + j), ap (λ (t : ℕ). t * 2 ^ j) (pow-suc 2 k), pow-add k j))

-- 2 ^ w split at a count.
pub pow_split : (w k : ℕ) → k ≤ w → 2 ^ k * 2 ^ (w - k) ≡ 2 ^ w
pow_split w k h =
    let e : k + (w - k) ≡ w = omega arith in sym (pow-add k (w - k)) ∙ ap (λ (t : ℕ). 2 ^ t) e

pub two-pow-pos : (k : ℕ) → 0 < 2 ^ k
two-pow-pos k = one-le-pow k 2 (omega arith)

pub two-pow_mono : (k l : ℕ) → k ≤ l → 2 ^ k ≤ 2 ^ l
two-pow_mono k l h = pow-le-pow_right (omega arith) h

complement_parts : (p d e r : ℕ) → r < p → (p * (d + 1 + e) - 1 - (p * d + r)) / p ≡ e
complement_parts p d e r h = div-eq_of_lt-le p (omega arith) (omega arith)

-- The complement of a quotient is the quotient of the complement.
pub complement_div : (p q x : ℕ) → 0 < p → x < p * q → (p * q - 1 - x) / p ≡ q - 1 - x / p
complement_div p q x h l =
    let below : x / p < q = (div-lt_iff_lt-mul h).1 (omega arith) in
    step (q - 1 - x / p) (x / p) (x % p) (omega arith) (omega (arith, div-add-mod x p)) (mod-lt x h)
  where
    step : (e d r : ℕ) → q ≡ d + 1 + e → x ≡ p * d + r → r < p → (p * q - 1 - x) / p ≡ e
    step e d r qe xe lt = rw (qe, xe) (complement_parts p d e r lt)

-- The complement of a remainder is the remainder of the complement.
pub complement_mod : (p q n : ℕ) → 0 < p → n < p * q → (p * q - 1 - n) % p ≡ p - 1 - n % p
complement_mod p q n h l =
    let below : n / p < q = (div-lt_iff_lt-mul h).1 (omega arith) in
    step (q - 1 - n / p) (n / p) (n % p) (omega arith) (omega (arith, div-add-mod n p)) (mod-lt n h)
  where
    step : (e d r : ℕ) → q ≡ d + 1 + e → n ≡ p * d + r → r < p → (p * q - 1 - n) % p ≡ p - 1 - r
    step e d r qe ne lt =
        let shape : p * (d + 1 + e) - 1 - (p * d + r) ≡ p * e + (p - 1 - r) = omega arith in
        rw (qe, ne, shape, mul-add-mod_self_left) (mod-eq_of_lt (omega arith))

pub mod-mod_pow : (w k n : ℕ) → k ≤ w → n % 2 ^ w % 2 ^ k ≡ n % 2 ^ k
mod-mod_pow w k n h = mod-mod_of_dvd (2 ^ k) n ∣ (2 ^ (w - k), sym (pow_split w k h)) ∣₁
