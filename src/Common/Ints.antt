-- ===== src/Common/Ints.antt =====
-- Signed integers over the native numbers, and the words of `w` bits that stand for them.
use Prim.Native.Nat.{ℕ, zero, suc, ◌-◌, ◌*◌, ◌%◌, ◌^◌, ◌<◌}
use mathlib.Core.Path.{◌≡◌}
use native.Mathlib.Omega.{arith}
use native.Mathlib.Nat.{pow-suc, mod-lt, mod-eq_of_lt}
use kit_server.Common.Tests.{ltb, if◌then◌else◌}

-- `negsuc n` is -(n + 1).
pub data ℤ : Type 0 where
  pos : ℕ → ℤ
  negsuc : ℕ → ℤ

-- The values of a signed type of `w` bits.
abbrev pub FitsInt : ℕ → ℤ → Type 0
FitsInt w (pos n) = n < 2 ^ (w - 1)
FitsInt w (negsuc n) = n < 2 ^ (w - 1)

-- Conversion to the unsigned type of `w` bits, and back.
unfoldable pub to_word : ℕ → ℤ → ℕ
to_word w (pos n) = n % 2 ^ w
to_word w (negsuc n) = 2 ^ w - 1 - n % 2 ^ w

unfoldable pub of_word : ℕ → ℕ → ℤ
of_word w u = if ltb u (2 ^ (w - 1)) then pos u else negsuc (2 ^ w - 1 - u)

pub pow_pos : (n : ℕ) → 0 < 2 ^ n
pow_pos zero = omega arith
pow_pos (suc n) = omega (arith, pow-suc 2 n, pow_pos n)

pub pow_half : (w : ℕ) → 0 < w → 2 ^ w ≡ 2 * 2 ^ (w - 1)
pow_half zero h = absurd (omega arith)
pow_half (suc w) h = let e : suc w - 1 ≡ w = omega arith in rw e (omega (arith, pow-suc 2 w))

pub to_word-lt : (w : ℕ) (z : ℤ) → to_word w z < 2 ^ w
unfolding to_word
to_word-lt w (pos n) = mod-lt n (pow_pos w)
to_word-lt w (negsuc n) = omega (arith, pow_pos w)

-- A value of the signed type survives the conversion to the unsigned type and back.
pub of_word-to_word : (w : ℕ) (z : ℤ) → 0 < w → FitsInt w z → of_word w (to_word w z) ≡ z
unfolding to_word of_word
of_word-to_word w (pos n) p h =
    ground (arith, pow_half w p, mod-eq_of_lt {n = n} {m = 2 ^ w} (omega (arith, pow_half w p)))
of_word-to_word w (negsuc n) p h =
    ground (arith, pow_half w p, mod-eq_of_lt {n = n} {m = 2 ^ w} (omega (arith, pow_half w p)))
