-- ===== src/Codec/Varint.antt =====
-- kit_server/bytearray.cpp: the loops of writeUint32 and writeUint64 that fill `temp`, and one
-- round of the loops of readUint32 and readUint64.
use kit_server.Common.{
  ℕ, zero, suc, ◌+◌, ◌*◌, ◌/◌, ◌%◌, ◌^◌, ◌≤◌, ◌<◌, ◌≡◌, refl, ap, ◌∙◌, arith, bit_or, leb,
  if◌then◌else◌, List, [], ◌∷◌, length, All, Option, none, some,
}
use kit_server.Common.Bits.{set_top_bit, bit_or_disjoint}
use kit_server.Codec.Endian.{IsByte}
use native.Mathlib.Nat.{pow-suc, mod-eq_of_lt, div-add-mod}
use native.Mathlib.Numerals.{towards_suc}
use mathlib.Core.Option

-- `room` is what is left of `temp`; a write behind its end is `none`.
unfoldable pub varint_bytes : ℕ → ℕ → Option (List ℕ)
varint_bytes zero value = none
varint_bytes (suc room) value =
    let rest = varint_bytes room (value / 2 ^ 7) in
    if leb 0x80 value
    then Option.map (λ bs. bit_or (value % 2 ^ 7) 0x80 ∷ bs) rest
    else some (value ∷ [])

-- `result |= ((uint)g) << i` on words of `w` bits.
unfoldable pub add_group : ℕ → ℕ → ℕ → ℕ → ℕ
add_group w i result g = bit_or result (g * 2 ^ i % 2 ^ w)

-- The bytes in plain arithmetic.
unfoldable pub groups : ℕ → ℕ → List ℕ
groups zero v = v ∷ []
groups (suc k) v =
    let rest = groups k (v / 128) in if leb 128 v then (v % 128 + 128) ∷ rest else v ∷ []

-- A buffer of k + 1 bytes holds the varint of every value below 128 ^ (k + 1): the loop never
-- writes behind `temp`, and what it writes is the groups of seven bits of the value, lowest
-- first, with the top bit set on all but the last.
pub varint_bytes-groups : (k v : ℕ) → v < 128 ^ suc k → varint_bytes (suc k) v ≡ some (groups k v)
unfolding varint_bytes groups
varint_bytes-groups zero v h = ground arith
varint_bytes-groups (suc k) v h = ground (
  arith,
  pow-suc 128 (suc k),
  set_top_bit (v % 128) (omega arith),
  varint_bytes-groups k (v / 128) (omega (arith, pow-suc 128 (suc k))),
)

pub length-groups : (k v : ℕ) → (1 ≤ length (groups k v)) × (length (groups k v) ≤ k + 1)
unfolding groups
length-groups zero v = omega arith
length-groups (suc k) v = ground (arith, length-groups k (v / 128))

pub groups-IsByte : (k v : ℕ) → v < 128 ^ suc k → All IsByte (groups k v)
unfolding groups
groups-IsByte zero v h = omega arith
groups-IsByte (suc k) v h =
    ground (arith, groups-IsByte k (v / 128) (omega (arith, pow-suc 128 (suc k))))

-- A group above the bits that have been read is added to them.
pub add_group_lem :
    (w i result g : ℕ)
    → result < 2 ^ i
    → g * 2 ^ i < 2 ^ w
    → add_group w i result g ≡ result + g * 2 ^ i
unfolding add_group
add_group_lem w i result g h fits =
    ap (bit_or result) (mod-eq_of_lt fits) ∙ bit_or_disjoint i result g h

pub pow_seven : (s : ℕ) → 2 ^ (s + 7) ≡ 128 * 2 ^ s
pow_seven s = simp towards_suc (omega arith)

-- The lowest group of a number and the rest of it, both shifted by `s`.
pub split_group : (v s : ℕ) → v * 2 ^ s ≡ v % 128 * 2 ^ s + v / 128 * 2 ^ (s + 7)
split_group v s = omega (
  arith,
  ap (λ (t : ℕ). t * 2 ^ s) (div-add-mod v 128),
  ap (λ (t : ℕ). v / 128 * t) (pow_seven s),
)

pub groups_last : (k v : ℕ) → v < 128 → groups k v ≡ v ∷ []
unfolding groups
groups_last zero v h = refl
groups_last (suc k) v h = ground arith

pub groups_more : (k v : ℕ) → 128 ≤ v → groups (suc k) v ≡ (v % 128 + 128) ∷ groups k (v / 128)
unfolding groups
groups_more k v h = ground arith

-- Seven more bits have been read.
pub group_bound : (i r g : ℕ) → r < 2 ^ i → g < 128 → r + g * 2 ^ i < 2 ^ (i + 7)
group_bound i r g h hg = rw (pow_seven i) (below (2 ^ i) h)
  where
    below : (p : ℕ) → r < p → r + g * p < 128 * p
    below p q = grind arith
