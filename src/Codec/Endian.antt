-- ===== src/Codec/Endian.antt =====
-- kit_server/endian.h: byte orders, and what `memcpy` of an integer puts into memory.
-- An unsigned integer of `n` bytes is a number below 256 ^ n. The order of the machine, which
-- KIT_BYTE_ORDER takes from the compiler, is an argument.
use kit_server.Common.{
  ℕ, zero, suc, ◌+◌, ◌*◌, ◌/◌, ◌%◌, ◌^◌, ◌<◌, ◌≡◌, refl, ap, ◌∙◌, arith, List, [], ◌∷◌, reverse,
  length, length-reverse, All, All-append, Bool, true, false,
}
use native.Mathlib.Nat.{pow-suc}
use mathlib.Core.List.{reverse-cons, reverse-reverse}

-- KIT_SMALL_ENDIAN and KIT_BIG_ENDIAN.
pub data Endian : Type 0 where
  small big : Endian

abbrev pub same_endian : Endian → Endian → Bool
same_endian small small = true
same_endian big big = true
same_endian _ _ = false

abbrev pub IsByte : ℕ → Type 0
IsByte b = b < 256

-- The `n` low bytes of a number, the lowest first.
unfoldable pub le_bytes : ℕ → ℕ → List ℕ
le_bytes zero v = []
le_bytes (suc n) v = (v % 256) ∷ le_bytes n (v / 256)

unfoldable pub le_value : List ℕ → ℕ
le_value [] = 0
le_value (b ∷ bs) = b + 256 * le_value bs

-- `bswap_16`, `bswap_32` and `bswap_64` through the template that picks one by `sizeof(T)`.
unfoldable pub byteswap : ℕ → ℕ → ℕ
byteswap n v = le_value (reverse (le_bytes n v))

-- The bytes of an object of `n` bytes in the memory of a machine, and the object that they are.
unfoldable pub to_memory : Endian → ℕ → ℕ → List ℕ
to_memory small n v = le_bytes n v
to_memory big n v = reverse (le_bytes n v)

unfoldable pub of_memory : Endian → List ℕ → ℕ
of_memory small bs = le_value bs
of_memory big bs = le_value (reverse bs)

-- `byteswapOnSmallEndian` and `byteswapOnBigEndian` on a machine of either order. On a machine of
-- big order the one is the identity and the other swaps, and the other way round.
pub byteswap_on_small_endian : Endian → ℕ → ℕ → ℕ
byteswap_on_small_endian big n v = v
byteswap_on_small_endian small n v = byteswap n v

pub byteswap_on_big_endian : Endian → ℕ → ℕ → ℕ
byteswap_on_big_endian big n v = byteswap n v
byteswap_on_big_endian small n v = v

pub length-le_bytes : (n v : ℕ) → length (le_bytes n v) ≡ n
unfolding le_bytes
length-le_bytes zero v = refl
length-le_bytes (suc n) v = ap suc (length-le_bytes n (v / 256))

pub le_bytes-IsByte : (n v : ℕ) → All IsByte (le_bytes n v)
unfolding le_bytes
le_bytes-IsByte zero v = tt
le_bytes-IsByte (suc n) v = (omega arith, le_bytes-IsByte n (v / 256))

pub le_value-le_bytes : (n v : ℕ) → v < 256 ^ n → le_value (le_bytes n v) ≡ v
unfolding le_value le_bytes
le_value-le_bytes zero v h = omega arith
le_value-le_bytes (suc n) v h =
    omega (arith, pow-suc 256 n, le_value-le_bytes n (v / 256) (omega (arith, pow-suc 256 n)))

pub le_bytes-le_value :
    (n : ℕ) (bs : List ℕ) → length bs ≡ n → All IsByte bs → le_bytes n (le_value bs) ≡ bs
unfolding le_value le_bytes
le_bytes-le_value zero [] e h = refl
le_bytes-le_value zero (b ∷ bs) e h = absurd (omega arith)
le_bytes-le_value (suc n) [] e h = absurd (omega arith)
le_bytes-le_value (suc n) (b ∷ bs) e (hb, hs) =
    let low : (b + 256 * le_value bs) % 256 ≡ b = omega arith in
    let high : (b + 256 * le_value bs) / 256 ≡ le_value bs = omega arith in
    rw (low, high) (ap (◌∷◌ b) (le_bytes-le_value n bs (omega arith) hs))

All-reverse : (bs : List ℕ) → All IsByte bs → All IsByte (reverse bs)
All-reverse [] h = tt
All-reverse (b ∷ bs) h =
    rw (reverse-cons b bs) (All-append _ (reverse bs) (b ∷ []) (All-reverse bs h.1) (h.0, tt))

-- The bytes of a swapped integer are those of the integer in the other direction.
pub le_bytes-byteswap : (n v : ℕ) → le_bytes n (byteswap n v) ≡ reverse (le_bytes n v)
unfolding byteswap
le_bytes-byteswap n v =
    le_bytes-le_value n (reverse (le_bytes n v))
      (length-reverse (le_bytes n v) ∙ length-le_bytes n v) (All-reverse _ (le_bytes-IsByte n v))

pub byteswap_lem : (n v : ℕ) → byteswap n v ≡ le_value (reverse (le_bytes n v))
unfolding byteswap
byteswap_lem n v = refl

-- Swapping twice gives the integer back.
pub byteswap-byteswap : (n v : ℕ) → v < 256 ^ n → byteswap n (byteswap n v) ≡ v
byteswap-byteswap n v h =
    byteswap_lem n (byteswap n v)
    ∙ ap (λ bs. le_value (reverse bs)) (le_bytes-byteswap n v)
    ∙ rw reverse-reverse (le_value-le_bytes n v h)

pub of_memory-to_memory :
    (host : Endian) (n v : ℕ) → v < 256 ^ n → of_memory host (to_memory host n v) ≡ v
unfolding of_memory to_memory
of_memory-to_memory small n v h = le_value-le_bytes n v h
of_memory-to_memory big n v h = rw reverse-reverse (le_value-le_bytes n v h)

pub length-to_memory : (host : Endian) (n v : ℕ) → length (to_memory host n v) ≡ n
unfolding to_memory
length-to_memory small n v = length-le_bytes n v
length-to_memory big n v = length-reverse (le_bytes n v) ∙ length-le_bytes n v

-- On a machine of either byte order, the value that byteswapOnSmallEndian returns lies in memory
-- in big-endian order.
to_memory-byteswap_on_small_endian :
    (host : Endian) (n v : ℕ)
    → to_memory host n (byteswap_on_small_endian host n v) ≡ to_memory big n v
unfolding to_memory byteswap_on_small_endian
to_memory-byteswap_on_small_endian small n v = le_bytes-byteswap n v
to_memory-byteswap_on_small_endian big n v = refl

to_memory-byteswap_on_big_endian :
    (host : Endian) (n v : ℕ)
    → to_memory host n (byteswap_on_big_endian host n v) ≡ to_memory small n v
unfolding to_memory byteswap_on_big_endian
to_memory-byteswap_on_big_endian small n v = refl
to_memory-byteswap_on_big_endian big n v =
    ap reverse (le_bytes-byteswap n v) ∙ reverse-reverse (le_bytes n v)
