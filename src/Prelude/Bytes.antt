-- ===== src/Prelude/Bytes.antt =====
-- A text of the program is the list of its bytes.
use Prim.Native.Char.{code}
use Prim.Native.Nat.{ℕ, ◌<◌}
use Prim.Native.String.{String}
use mathlib.Core.Path.{◌≡◌, refl}
use mathlib.Core.Logic.{◌↔◌}
use mathlib.Core.Bool.{Bool, true, false, ◌&&◌}
use mathlib.Core.List.{List, [], ◌∷◌}
use native.Mathlib.Omega.{arith}
use mincplus.Prelude.Tests.{◌==◌}

-- The bytes of an ASCII constant.
abbrev pub codes : String → List ℕ
codes String.[] = []
codes (String.◌∷◌ c s) = code c ∷ codes s

abbrev pub IsByte : ℕ → Type 0
IsByte b = b < 256

abbrev pub All {ℓ κ} : {A : Type ℓ} → (A → Type κ) → List A → Type κ
All P [] = Unit
All P (x ∷ xs) = P x × All P xs

-- `==` of two texts.
abbrev pub same_bytes : List ℕ → List ℕ → Bool
same_bytes [] [] = true
same_bytes (c ∷ cs) (d ∷ ds) = c == d && same_bytes cs ds
same_bytes _ _ = false

same_bytes_sound : (m n : List ℕ) → same_bytes m n ≡ true → m ≡ n
same_bytes_sound [] [] h = refl
same_bytes_sound (c ∷ cs) (d ∷ ds) h =
    let heads : c ≡ d = ground arith in
    let tails : cs ≡ ds = same_bytes_sound cs ds (ground arith) in rw (heads, tails) refl
same_bytes_sound [] (d ∷ ds) h = cc
same_bytes_sound (c ∷ cs) [] h = cc

same_bytes_refl : (m : List ℕ) → same_bytes m m ≡ true
same_bytes_refl [] = refl
same_bytes_refl (c ∷ cs) = ground (arith, same_bytes_refl cs)

pub same_bytes_iff : (m n : List ℕ) → (same_bytes m n ≡ true) ↔ (m ≡ n)
same_bytes_iff m n = (same_bytes_sound m n, λ e. rw e (same_bytes_refl n))
