-- ===== src/Common/Bits.antt =====
-- Bit operations at variables: the laws of the lowest binary digit, and the forms the models use.
use Prim.Native.Nat.{ℕ, zero, suc, ◌+◌, ◌-◌, ◌*◌, ◌/◌, ◌%◌, ◌^◌, ◌≤◌, ◌<◌, max}
use Prim.Native.Nat.{bit_or, bit_xor, digits, differ, bit_or-bitwise, bit_xor-bitwise}
use mathlib.Core.Path.{◌≡◌, refl, ap}
use native.Mathlib.Omega.{arith}
use native.Mathlib.Nat.{pow-suc}

-- The digit recursion of an operation that keeps the digits of its second number, on any fuel
-- that is enough.
abbrev pairwise : (ℕ → ℕ → ℕ) → ℕ → ℕ → ℕ → ℕ
pairwise g fuel x y = digits (λ r. r) g fuel x y

enough_digits : (g : ℕ → ℕ → ℕ) (x y k l : ℕ) → x ≤ k → x ≤ l → pairwise g k x y ≡ pairwise g l x y
enough_digits g zero y zero zero hk hl = refl
enough_digits g zero y zero (suc l) hk hl = refl
enough_digits g zero y (suc k) zero hk hl = refl
enough_digits g zero y (suc k) (suc l) hk hl = refl
enough_digits g (suc x) y zero l hk hl = absurd (omega arith)
enough_digits g (suc x) y (suc k) zero hk hl = absurd (omega arith)
enough_digits g (suc x) y (suc k) (suc l) hk hl =
    ap (λ (r : ℕ). r * 2 + g (suc x % 2) (y % 2))
      (enough_digits g (suc x / 2) (y / 2) k l (omega arith) (omega arith))

pub zero-bit_or : (b : ℕ) → bit_or 0 b ≡ b
zero-bit_or b = bit_or-bitwise 0 b

pub bit_or_step : (a b : ℕ) → bit_or a b ≡ bit_or (a / 2) (b / 2) * 2 + max (a % 2) (b % 2)
bit_or_step zero b = omega (arith, zero-bit_or b, zero-bit_or (b / 2))
bit_or_step (suc a) b = omega (
  arith,
  bit_or-bitwise (suc a) b,
  bit_or-bitwise (suc a / 2) (b / 2),
  enough_digits max (suc a / 2) (b / 2) a (suc a / 2) (omega arith) (omega arith),
)

-- `|` of numbers whose bits do not meet is their sum.
pub bit_or_disjoint : (i x y : ℕ) → x < 2 ^ i → bit_or x (y * 2 ^ i) ≡ x + y * 2 ^ i
bit_or_disjoint zero zero y h = omega (arith, zero-bit_or (y * 2 ^ 0))
bit_or_disjoint zero (suc x) y h = absurd (omega arith)
bit_or_disjoint (suc i) x y h = rw twice (
    omega (
      arith,
      bit_or_step x (2 * (y * 2 ^ i)),
      bit_or_disjoint i (x / 2) y (omega (arith, pow-suc 2 i)),
      ap (λ z. bit_or (x / 2) z) half,
    ))
  where
    twice : y * 2 ^ suc i ≡ 2 * (y * 2 ^ i)
    twice = omega (arith, ap (λ (t : ℕ). y * t) (pow-suc 2 i))

    half : (2 * (y * 2 ^ i)) / 2 ≡ y * 2 ^ i
    half = omega arith

pub bit_xor_zero_fuel : (n a : ℕ) → a ≤ n → bit_xor a 0 ≡ a
bit_xor_zero_fuel n zero h = bit_xor-bitwise 0 0
bit_xor_zero_fuel zero (suc a) h = absurd (omega arith)
bit_xor_zero_fuel (suc n) (suc a) h = omega (
  arith,
  bit_xor-bitwise (suc a) 0,
  bit_xor-bitwise (suc a / 2) 0,
  enough_digits differ (suc a / 2) 0 a (suc a / 2) (omega arith) (omega arith),
  differ-zero (suc a % 2),
  bit_xor_zero_fuel n (suc a / 2) (omega arith),
)
  where
    differ-zero : (d : ℕ) → differ d 0 ≡ d
    differ-zero zero = refl
    differ-zero (suc d) = refl

pub bit_xor-zero : (a : ℕ) → bit_xor a 0 ≡ a
bit_xor-zero a = bit_xor_zero_fuel a a (omega arith)

differ-one : (d : ℕ) → d < 2 → differ d 1 + d ≡ 1
differ-one zero h = refl
differ-one (suc zero) h = refl
differ-one (suc (suc d)) h = absurd (omega arith)

-- The digit of an odd mask.
bit_xor_step_odd : (a b : ℕ) → b % 2 ≡ 1 → bit_xor a b + a % 2 ≡ bit_xor (a / 2) (b / 2) * 2 + 1
bit_xor_step_odd zero b h = omega (arith, bit_xor-bitwise 0 b, bit_xor-bitwise 0 (b / 2))
bit_xor_step_odd (suc a) b h = omega (
  arith,
  bit_xor-bitwise (suc a) b,
  bit_xor-bitwise (suc a / 2) (b / 2),
  enough_digits differ (suc a / 2) (b / 2) a (suc a / 2) (omega arith) (omega arith),
  ap (λ (t : ℕ). differ (suc a % 2) t) h,
  differ-one (suc a % 2) (omega arith),
)

-- The top bit of a byte that has it clear.
pub set_top_bit : (x : ℕ) → x < 128 → bit_or x 0x80 ≡ x + 128
set_top_bit x h = bit_or_disjoint 7 x 1 h

-- `x ^ ~0` on a word of `w` bits.
pub bit_xor-mask : (w x : ℕ) → x < 2 ^ w → bit_xor x (2 ^ w - 1) + x + 1 ≡ 2 ^ w
bit_xor-mask zero zero h = refl
bit_xor-mask zero (suc x) h = absurd (omega arith)
bit_xor-mask (suc w) x h = omega (
  arith,
  pow-suc 2 w,
  bit_xor_step_odd x (2 ^ suc w - 1) (omega (arith, pow-suc 2 w, pow_pos w)),
  ap (λ (t : ℕ). bit_xor (x / 2) t) half,
  bit_xor-mask w (x / 2) (omega (arith, pow-suc 2 w)),
)
  where
    pow_pos : (n : ℕ) → 0 < 2 ^ n
    pow_pos zero = omega arith
    pow_pos (suc n) = omega (arith, pow-suc 2 n, pow_pos n)

    half : (2 ^ suc w - 1) / 2 ≡ 2 ^ w - 1
    half = omega (arith, pow-suc 2 w, pow_pos w)
