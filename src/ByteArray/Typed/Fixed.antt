-- ===== src/ByteArray/Typed/Fixed.antt =====
-- Integers of a fixed width. The bytes are those of the array's own byte order, whatever the
-- machine is, and reading them gives the integer back.
use kit_server.Common.{
  ℕ, ◌^◌, ◌<◌, ◌≡◌, refl, sym, ap, ◌∙◌, arith, List, [], ◌∷◌, ◌++◌, length, reverse,
}
use kit_server.Common.Ints.{ℤ, FitsInt, to_word, of_word, of_word-to_word, to_word-lt}
use kit_server.Codec.Endian.{
  Endian, small, big, byteswap, to_memory, of_memory, le_bytes, le_bytes-byteswap,
  le_value-le_bytes, byteswap-byteswap, length-to_memory, of_memory-to_memory, byteswap_lem,
}
use kit_server.ByteArray.{ByteArray, ◌>>=◌, return, read}
use kit_server.ByteArray.Invariant.{IsValid}
use kit_server.ByteArray.Transfer.{unread}
use kit_server.ByteArray.Seek.{read_next, inside_of_unread}
use kit_server.ByteArray.Rules.{Writes, Reads, Writes-bytes, Reads-map}
use kit_server.ByteArray.Typed.{
  in_order, write_fixed, read_fixed, write_fuint8, read_fuint8, write_fint8, read_fint8,
}
use mathlib.Core.List.{reverse-reverse}

-- On every machine the value in memory, after the swap, has the bytes of the array's order.
pub to_memory-in_order :
    (host e : Endian) (n v : ℕ) → to_memory host n (in_order host e n v) ≡ to_memory e n v
unfolding to_memory
to_memory-in_order small small n v = refl
to_memory-in_order small big n v = le_bytes-byteswap n v
to_memory-in_order big small n v =
    ap reverse (le_bytes-byteswap n v) ∙ reverse-reverse (le_bytes n v)
to_memory-in_order big big n v = refl

in_order-of_memory :
    (host e : Endian) (n v : ℕ)
    → v < 256 ^ n
    → in_order host e n (of_memory host (to_memory e n v)) ≡ v
unfolding to_memory of_memory
in_order-of_memory small small n v h = le_value-le_bytes n v h
in_order-of_memory small big n v h =
    ap (byteswap n) (sym (byteswap_lem n v)) ∙ byteswap-byteswap n v h
in_order-of_memory big small n v h =
    ap (byteswap n) (sym (byteswap_lem n v)) ∙ byteswap-byteswap n v h
in_order-of_memory big big n v h = rw reverse-reverse (le_value-le_bytes n v h)

module _ (host : Endian) where
  pub write_fixed_lem :
      (n v : ℕ) (s : ByteArray)
      → IsValid s
      → Writes (write_fixed host n v) s (to_memory s.endian n v)
  unfolding write_fixed
  write_fixed_lem n v s h =
      rw (to_memory-in_order host s.endian n v) (Writes-bytes (to_memory s.endian n v) s h)

  pub inside_of_bytes :
      (bs rest : List ℕ) (s : ByteArray)
      → IsValid s
      → unread s ≡ bs ++ rest
      → 0 < length bs
      → s.position < s.capacity
  inside_of_bytes [] rest s v e h = absurd (omega arith)
  inside_of_bytes (b ∷ bs) rest s v e h = inside_of_unread b (bs ++ rest) s v e

  pub read_fixed_lem :
      (n v : ℕ) (rest : List ℕ) (s : ByteArray)
      → IsValid s
      → 0 < n
      → v < 256 ^ n
      → unread s ≡ to_memory s.endian n v ++ rest
      → Reads (read_fixed host n) v s (to_memory s.endian n v) rest
  unfolding read_fixed
  read_fixed_lem n v rest s ok_s p h e =
      let bs = to_memory s.endian n v in
      let len : length bs ≡ n = length-to_memory s.endian n v in
      let (t, r, c) = read_next bs rest s ok_s e (inside_of_bytes bs rest s ok_s e (omega arith)) in
      (t, rw (← len, r) (rw (len, c.same_endian, in_order-of_memory host s.endian n v h)), c)

  -- One byte has no order.
  pub write_fuint8_lem :
      (v : ℕ) (s : ByteArray) → IsValid s → Writes (write_fuint8 host v) s (to_memory host 1 v)
  unfolding write_fuint8
  write_fuint8_lem v s h = Writes-bytes (to_memory host 1 v) s h

  pub write_fint8_lem :
      (z : ℤ) (s : ByteArray)
      → IsValid s
      → Writes (write_fint8 host z) s (to_memory host 1 (to_word 8 z))
  unfolding write_fint8
  write_fint8_lem z s h = Writes-bytes (to_memory host 1 (to_word 8 z)) s h

  read_byte :
      (v : ℕ) (rest : List ℕ) (s : ByteArray)
      → IsValid s
      → unread s ≡ to_memory host 1 v ++ rest
      → Reads (read 1) (to_memory host 1 v) s (to_memory host 1 v) rest
  read_byte v rest s h e =
      let len : length (to_memory host 1 v) ≡ 1 = length-to_memory host 1 v in
      let (t, r, c) =
        read_next (to_memory host 1 v) rest s h e
          (inside_of_bytes (to_memory host 1 v) rest s h e (omega arith)) in
      (t, ap (λ k. read k s) (sym len) ∙ r, c)

  pub read_fuint8_lem :
      (v : ℕ) (rest : List ℕ) (s : ByteArray)
      → IsValid s
      → v < 256
      → unread s ≡ to_memory host 1 v ++ rest
      → Reads (read_fuint8 host) v s (to_memory host 1 v) rest
  unfolding read_fuint8
  read_fuint8_lem v rest s h lt e =
      Reads-map (read 1) (of_memory host) (to_memory host 1 v) v s _ rest
        (of_memory-to_memory host 1 v lt) (read_byte v rest s h e)

  pub read_fint8_lem :
      (z : ℤ) (rest : List ℕ) (s : ByteArray)
      → IsValid s
      → FitsInt 8 z
      → unread s ≡ to_memory host 1 (to_word 8 z) ++ rest
      → Reads (read_fint8 host) z s (to_memory host 1 (to_word 8 z)) rest
  unfolding read_fint8
  read_fint8_lem z rest s h f e =
      Reads-map (read 1) (λ bs. of_word 8 (of_memory host bs)) (to_memory host 1 (to_word 8 z)) z s
        _ rest
        (ap (of_word 8) (of_memory-to_memory host 1 (to_word 8 z) (to_word-lt 8 z))
          ∙ of_word-to_word 8 z (omega arith) f)
        (read_byte (to_word 8 z) rest s h e)

  -- A signed integer of `n` bytes through the words of `w` bits.
  pub read_signed_lem :
      (n w : ℕ) (z : ℤ) (rest : List ℕ) (s : ByteArray)
      → IsValid s
      → 0 < n
      → 0 < w
      → 2 ^ w ≡ 256 ^ n
      → FitsInt w z
      → unread s ≡ to_memory s.endian n (to_word w z) ++ rest
      → Reads
          (read_fixed host n >>= λ v. return (of_word w v))
          z
          s
          (to_memory s.endian n (to_word w z))
          rest
  read_signed_lem n w z rest s h pn pw width f e =
      Reads-map (read_fixed host n) (of_word w) (to_word w z) z s _ rest (of_word-to_word w z pw f)
        (read_fixed_lem n (to_word w z) rest s h pn
          (let lt : to_word w z < 2 ^ w = to_word-lt w z in omega arith) e)
