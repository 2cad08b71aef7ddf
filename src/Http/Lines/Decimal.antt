-- ===== src/Http/Lines/Decimal.antt =====
-- kit_server/http/http.cpp: the numbers that messages carry, the body's length among them.
use kit_server.Common.{
  ℕ, zero, suc, ◌+◌, ◌-◌, ◌*◌, ◌/◌, ◌%◌, ◌^◌, ◌<◌, ◌≡◌, refl, arith, leb, dec_lt, [], ◌∷◌, Bool,
  true, ◌&&◌,
}
use kit_server.Http.Method.{Text}
use kit_server.Http.Lines.{decimal_on, decimal}

-- What a reader of decimal digits makes of a text, after the number read so far.
unfoldable read_decimal_on : ℕ → Text → ℕ
read_decimal_on n [] = n
read_decimal_on n (c ∷ t) = read_decimal_on (n * 10 + (c - b'0')) t

unfoldable all_digits : Text → Bool
all_digits [] = true
all_digits (c ∷ t) = (leb b'0' c && leb c b'9') && all_digits t

div_ten : (n : ℕ) → (n / 10 * 10 + n % 10 ≡ n) × (n % 10 < 10)
div_ten n = (omega arith, omega arith)

read-decimal_on :
    (fuel n : ℕ) (t : Text)
    → n < 10 ^ fuel
    → read_decimal_on 0 (decimal_on fuel n t) ≡ read_decimal_on n t
unfolding decimal_on read_decimal_on
read-decimal_on zero n t h = ground arith
read-decimal_on (suc fuel) n t h = elim (dec_lt n 10) [
  | yes l ↦ ground arith
  | no g ↦
      ground (arith, div_ten n, read-decimal_on fuel (n / 10) ((n % 10 + b'0') ∷ t) (omega arith))
]

all_digits-decimal_on :
    (fuel n : ℕ) (t : Text)
    → n < 10 ^ fuel
    → all_digits t ≡ true
    → all_digits (decimal_on fuel n t) ≡ true
unfolding decimal_on all_digits
all_digits-decimal_on zero n t h a = a
all_digits-decimal_on (suc fuel) n t h a = elim (dec_lt n 10) [
  | yes l ↦ ground arith
  | no g ↦
      ground
        (arith, div_ten n, all_digits-decimal_on fuel (n / 10) ((n % 10 + b'0') ∷ t) (omega arith))
]

-- A number below 2 ^ 64 is written in decimal digits only, and read back from them.
read_decimal-decimal :
    (n : ℕ) → n < 2 ^ 64 → (read_decimal_on 0 (decimal n) ≡ n) × (all_digits (decimal n) ≡ true)
unfolding decimal read_decimal_on all_digits
read_decimal-decimal n h =
    let l : n < 10 ^ 20 = omega arith in
    (read-decimal_on 20 n [] l, all_digits-decimal_on 20 n [] l refl)
