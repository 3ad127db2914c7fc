-- ===== src/Support/Utf8/Fields.antt =====
-- The bit fields of a byte and of a code point, as divisions (src/support/utf8/decode.cc).
use Prim.Native.Nat.{bit_and}
use mincplus.Prelude.{
  ℕ, zero, suc, ◌/◌, ◌%◌, ◌<◌, ◌≡◌, refl, Bool, true, false, ◌&&◌, ◌==◌, arith, if◌then◌else◌,
  IsByte, dec_lt, some, none,
}
use mincplus.Support.Utf8.{lead_shape}

holds_below : (ℕ → Bool) → ℕ → Bool
holds_below test zero = true
holds_below test (suc n) = test n && holds_below test n

holds_below_lem : (test : ℕ → Bool) (n b : ℕ) → holds_below test n ≡ true → b < n → test b ≡ true
unfolding holds_below
holds_below_lem test zero b h below = absurd (omega arith)
holds_below_lem test (suc n) b h below = elim (dec_lt b n) [
  | yes l ↦ holds_below_lem test n b (ground arith) l
  | no l ↦ (let last : b ≡ n = omega arith in rw last (ground arith))
]

same : Bool → Bool → Bool
same true b = b
same false b = if b then false else true

same_lem : (a b : Bool) → same a b ≡ true → a ≡ b
unfolding same
same_lem true true h = refl
same_lem false false h = refl
same_lem true false h = cc
same_lem false true h = cc

-- A mask and a test of a byte is the test of its high bits.
pub lead_two : (b : ℕ) → IsByte b → (bit_and b 0xe0 == 0xc0) ≡ (b / 32 == 6)
unfolding same holds_below
lead_two b h =
    same_lem _ _ (holds_below_lem (λ b. same (bit_and b 0xe0 == 0xc0) (b / 32 == 6)) 256 b refl h)

pub lead_three : (b : ℕ) → IsByte b → (bit_and b 0xf0 == 0xe0) ≡ (b / 16 == 14)
unfolding same holds_below
lead_three b h =
    same_lem _ _ (holds_below_lem (λ b. same (bit_and b 0xf0 == 0xe0) (b / 16 == 14)) 256 b refl h)

pub lead_four : (b : ℕ) → IsByte b → (bit_and b 0xf8 == 0xf0) ≡ (b / 8 == 30)
unfolding same holds_below
lead_four b h =
    same_lem _ _ (holds_below_lem (λ b. same (bit_and b 0xf8 == 0xf0) (b / 8 == 30)) 256 b refl h)

pub continuation_test : (b : ℕ) → IsByte b → (bit_and b 0xc0 == 0x80) ≡ (b / 64 == 2)
unfolding same holds_below
continuation_test b h =
    same_lem _ _ (holds_below_lem (λ b. same (bit_and b 0xc0 == 0x80) (b / 64 == 2)) 256 b refl h)

low_five : (b : ℕ) → IsByte b → (bit_and b 0x1f == b % 32) ≡ true
unfolding holds_below
low_five b h = holds_below_lem (λ b. bit_and b 0x1f == b % 32) 256 b refl h

low_four : (b : ℕ) → IsByte b → (bit_and b 0x0f == b % 16) ≡ true
unfolding holds_below
low_four b h = holds_below_lem (λ b. bit_and b 0x0f == b % 16) 256 b refl h

low_three : (b : ℕ) → IsByte b → (bit_and b 0x07 == b % 8) ≡ true
unfolding holds_below
low_three b h = holds_below_lem (λ b. bit_and b 0x07 == b % 8) 256 b refl h

-- A lead byte by its value.
pub lead_shape_by_value :
    (b : ℕ)
    → IsByte b
    → lead_shape b ≡ (
        if b / 32 == 6
        then some (2, b % 32, 0x80)
        else if b / 16 == 14
        then some (3, b % 16, 0x800)
        else if b / 8 == 30
        then some (4, b % 8, 0x10000)
        else none)
lead_shape_by_value b h =
    let low5 : bit_and b 0x1f ≡ b % 32 = ground (arith, low_five b h) in
    let low4 : bit_and b 0x0f ≡ b % 16 = ground (arith, low_four b h) in
    let low3 : bit_and b 0x07 ≡ b % 8 = ground (arith, low_three b h) in
    rw (lead_two b h, lead_three b h, lead_four b h, low5, low4, low3) refl
