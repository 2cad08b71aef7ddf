-- ===== src/Codec/Zigzag.antt =====
-- kit_server/bytearray.cpp: EncodeZigzag32, EncodeZigzag64, DecodeZigzag32 and DecodeZigzag64.
-- The two widths are one function of the width `w`. Arithmetic on the signed type that leaves its
-- range is taken to wrap, as gcc does it.
use kit_server.Common.{
  ℕ, zero, suc, ◌+◌, ◌-◌, ◌*◌, ◌/◌, ◌%◌, ◌^◌, ◌<◌, ◌≡◌, refl, ◌∙◌, arith, bit_xor,
}
use kit_server.Common.Ints.{ℤ, pos, negsuc, FitsInt, of_word, pow_half, pow_pos}
use kit_server.Common.Bits.{bit_xor-mask, bit_xor-zero}
use native.Mathlib.Nat.{mod-eq_of_lt, mod-lt}

-- `v * 2` for v ≥ 0, and `(uint)(-v) * 2 - 1` for v < 0.
unfoldable pub encode_zigzag : ℕ → ℤ → ℕ
encode_zigzag w (pos n) = n * 2 % 2 ^ w
encode_zigzag w (negsuc n) = ((n + 1) % 2 ^ w * 2 + 2 ^ w - 1) % 2 ^ w

-- `(v >> 1) ^ -(v & 1)`
unfoldable pub decode_zigzag : ℕ → ℕ → ℤ
decode_zigzag w v = of_word w (bit_xor (v / 2) ((2 ^ w - v % 2) % 2 ^ w))

pub encode_zigzag-lt : (w : ℕ) (z : ℤ) → encode_zigzag w z < 2 ^ w
unfolding encode_zigzag
encode_zigzag-lt w (pos n) = mod-lt _ (pow_pos w)
encode_zigzag-lt w (negsuc n) = mod-lt _ (pow_pos w)

-- Within the range of the type the coding is the interleaving 0, -1, 1, -2, 2, ...
pub encode_zigzag_pos : (w n : ℕ) → 0 < w → n < 2 ^ (w - 1) → encode_zigzag w (pos n) ≡ 2 * n
unfolding encode_zigzag
encode_zigzag_pos w n p h = mod-eq_of_lt (omega (arith, pow_half w p)) ∙ omega arith

pub encode_zigzag_negsuc :
    (w n : ℕ) → 0 < w → n < 2 ^ (w - 1) → encode_zigzag w (negsuc n) ≡ 2 * n + 1
unfolding encode_zigzag
encode_zigzag_negsuc w n p h = grind (arith, pow_half w p)

pub decode_zigzag_even : (w n : ℕ) → 0 < w → n < 2 ^ (w - 1) → decode_zigzag w (2 * n) ≡ pos n
unfolding decode_zigzag of_word
decode_zigzag_even w n p h =
    let half : 2 * n / 2 ≡ n = omega arith in
    let mask : (2 ^ w - 2 * n % 2) % 2 ^ w ≡ 0 = grind arith in
    rw (half, mask, bit_xor-zero) (ground arith)

pub decode_zigzag_odd : (w n : ℕ) → 0 < w → n < 2 ^ (w - 1) → decode_zigzag w (2 * n + 1) ≡ negsuc n
unfolding decode_zigzag of_word
decode_zigzag_odd w n p h =
    let half : (2 * n + 1) / 2 ≡ n = omega arith in
    let mask : (2 ^ w - (2 * n + 1) % 2) % 2 ^ w ≡ 2 ^ w - 1 = grind (arith, pow_pos w) in
    rw (half, mask) (ground (arith, pow_half w p, bit_xor-mask w n (omega (arith, pow_half w p))))

-- For every width above 0 and every integer of the signed type, the least one included, decoding
-- its zigzag code gives it back.
pub decode_zigzag-encode_zigzag :
    (w : ℕ) (z : ℤ) → 0 < w → FitsInt w z → decode_zigzag w (encode_zigzag w z) ≡ z
decode_zigzag-encode_zigzag w (pos n) p h =
    rw (encode_zigzag_pos w n p h) (decode_zigzag_even w n p h)
decode_zigzag-encode_zigzag w (negsuc n) p h =
    rw (encode_zigzag_negsuc w n p h) (decode_zigzag_odd w n p h)

-- For every width above 0, every word of the unsigned type decodes to an integer of the signed
-- type whose zigzag code is that word.
encode_zigzag-decode_zigzag :
    (w v : ℕ)
    → 0 < w
    → v < 2 ^ w
    → FitsInt w (decode_zigzag w v) × (encode_zigzag w (decode_zigzag w v) ≡ v)
encode_zigzag-decode_zigzag w v p h = by_parity (v % 2) refl
  where
    n : ℕ
    n = v / 2

    bound : n < 2 ^ (w - 1)
    bound = omega (arith, pow_half w p)

    by_parity :
        (r : ℕ)
        → v % 2 ≡ r
        → FitsInt w (decode_zigzag w v) × (encode_zigzag w (decode_zigzag w v) ≡ v)
    by_parity zero e =
        let v_eq : v ≡ 2 * n = omega arith in
        rw (v_eq, decode_zigzag_even w n p bound) (bound, encode_zigzag_pos w n p bound)
    by_parity (suc zero) e =
        let v_eq : v ≡ 2 * n + 1 = omega arith in
        rw (v_eq, decode_zigzag_odd w n p bound) (bound, encode_zigzag_negsuc w n p bound)
    by_parity (suc (suc r)) e = absurd (omega arith)
