-- ===== src/ByteArray/Typed/Groups.antt =====
-- Variable-length integers: writeUint32, writeUint64, writeInt32, writeInt64 and their reads.
use kit_server.Common.{
  ℕ, zero, suc, ◌+◌, ◌*◌, ◌/◌, ◌%◌, ◌^◌, ◌<◌, ◌≡◌, sym, ap, ◌∙◌, arith, List, [], ◌∷◌, ◌++◌, lt→ltb,
  not_lt→ltb, dec_lt,
}
use kit_server.Common.Ints.{ℤ, FitsInt}
use kit_server.Codec.Endian.{Endian, small, big, of_memory, le_value}
use kit_server.Codec.Zigzag.{
  encode_zigzag, decode_zigzag, encode_zigzag-lt, decode_zigzag-encode_zigzag,
}
use kit_server.Codec.Varint.{
  varint_bytes-groups, groups, add_group_lem, split_group, groups_last, groups_more, group_bound,
}
use native.Mathlib.Nat.{pow-suc}
use kit_server.ByteArray.{ByteArray, ok}
use kit_server.ByteArray.Invariant.{IsValid}
use kit_server.ByteArray.Transfer.{unread}
use kit_server.ByteArray.Seek.{Consumed, read_next, inside_of_unread}
use kit_server.ByteArray.Rules.{Writes, Reads, Writes-bytes, Reads-map, Consumed-trans}
use kit_server.ByteArray.Typed.{
  read_fuint8, read_groups, write_uint32, write_uint64, write_int32, write_int64, read_uint32,
  read_uint64, read_int32, read_int64,
}

module _ (host : Endian) where
  byte_value : (b : ℕ) → b < 256 → of_memory host (b ∷ []) ≡ b
  byte_value b h = one_byte host b h
    where
      one_byte : (e : Endian) (c : ℕ) → c < 256 → of_memory e (c ∷ []) ≡ c
      one_byte small c p = unfold of_memory le_value in omega arith
      one_byte big c p = unfold of_memory le_value in omega arith

  read_byte_lem :
      (b : ℕ) (rest : List ℕ) (s : ByteArray)
      → IsValid s
      → b < 256
      → unread s ≡ b ∷ rest
      → Reads (read_fuint8 host) b s (b ∷ []) rest
  unfolding read_fuint8
  read_byte_lem b rest s v h e =
      let (t, r, c) = read_next (b ∷ []) rest s v e (inside_of_unread b rest s v e) in
      (t, rw (r, byte_value b h), c)

  -- One round of the loop, on a last byte and on a byte with the top bit set.
  last_round :
      (rounds w i result b : ℕ) (rest : List ℕ) (s : ByteArray)
      → IsValid s
      → i < w
      → b < 128
      → result < 2 ^ i
      → result + b * 2 ^ i < 2 ^ w
      → unread s ≡ b ∷ rest
      → Reads (read_groups host (suc rounds) w i result) (result + b * 2 ^ i) s (b ∷ []) rest
  unfolding read_groups
  last_round rounds w i result b rest s v hi hb hr fits e =
      let (t, r, c) = read_byte_lem b rest s v (omega arith) e in
      (
        t,
        rw (lt→ltb i w hi, r)
            (rw (lt→ltb b 128 hb) (ap (λ x. ok x t) (add_group_lem w i result b hr (omega arith)))),
        c,
      )

  inner_round :
      (rounds w i result g a : ℕ) (cs rest : List ℕ) (s : ByteArray)
      → IsValid s
      → i < w
      → g < 128
      → result < 2 ^ i
      → result + g * 2 ^ i < 2 ^ w
      → unread s ≡ (g + 128) ∷ (cs ++ rest)
      → ((t : ByteArray)
          → Consumed ((g + 128) ∷ []) (cs ++ rest) s t
          → Reads (read_groups host rounds w (i + 7) (result + g * 2 ^ i)) a t cs rest)
      → Reads (read_groups host (suc rounds) w i result) a s ((g + 128) ∷ cs) rest
  unfolding read_groups
  inner_round rounds w i result g a cs rest s v hi hg hr fits e next =
      let (t, r, c) = read_byte_lem (g + 128) (cs ++ rest) s v (omega arith) e in
      let (u, r', d) = next t c in
      let low : (g + 128) % 2 ^ 7 ≡ g = omega arith in
      (
        u,
        rw (lt→ltb i w hi, r)
            (rw
              (
                not_lt→ltb (g + 128) 128 (omega arith),
                low,
                add_group_lem w i result g hr (omega arith),
              )
              r'),
        Consumed-trans ((g + 128) ∷ []) cs rest s t u c d,
      )

  -- `v` is what is still to be read, and it counts from bit `i` on.
  read_groups_lem :
      (k w i result v : ℕ) (rest : List ℕ) (s : ByteArray)
      → IsValid s
      → i + 7 * k < w
      → v < 128 ^ suc k
      → result < 2 ^ i
      → result + v * 2 ^ i < 2 ^ w
      → unread s ≡ groups k v ++ rest
      → Reads (read_groups host (suc k) w i result) (result + v * 2 ^ i) s (groups k v) rest
  read_groups_lem zero w i result v rest s ok_s hi hv hr fits e =
      rw (groups_last 0 v (omega arith)) (
        last_round 0 w i result v rest s ok_s (omega arith) (omega arith) hr fits
          (e ∙ ap (λ bs. bs ++ rest) (groups_last 0 v (omega arith))))
  read_groups_lem (suc k) w i result v rest s ok_s hi hv hr fits e = elim (dec_lt v 128) [
    | yes last ↦ rw (groups_last (suc k) v last) (
        last_round (suc k) w i result v rest s ok_s (omega arith) last hr fits
          (e ∙ ap (λ bs. bs ++ rest) (groups_last (suc k) v last)))
    | no more ↦
        let g = v % 128 in
        let total : result + v * 2 ^ i ≡ result + g * 2 ^ i + v / 128 * 2 ^ (i + 7) =
          omega (arith, split_group v i) in
        let cut : groups (suc k) v ≡ (g + 128) ∷ groups k (v / 128) =
          groups_more k v (omega arith) in
        rw (cut, total)
          (inner_round (suc k) w i result g (result + g * 2 ^ i + v / 128 * 2 ^ (i + 7))
            (groups k (v / 128)) rest s ok_s (omega arith) (omega arith) hr (omega arith)
            (e ∙ ap (λ bs. bs ++ rest) cut)
            (λ t c.
              read_groups_lem k w (i + 7) (result + g * 2 ^ i) (v / 128) rest t c.valid
                (omega arith) (omega (arith, pow-suc 128 (suc k)))
                (group_bound i result g hr (omega arith)) (omega arith) c.left))
  ]

  pub write_uint32_lem :
      (v : ℕ) (s : ByteArray) → IsValid s → v < 2 ^ 32 → Writes (write_uint32 host v) s (groups 4 v)
  unfolding write_uint32
  write_uint32_lem v s h lt =
      rw (varint_bytes-groups 4 v (omega arith)) (Writes-bytes (groups 4 v) s h)

  pub write_uint64_lem :
      (v : ℕ) (s : ByteArray) → IsValid s → v < 2 ^ 64 → Writes (write_uint64 host v) s (groups 9 v)
  unfolding write_uint64
  write_uint64_lem v s h lt =
      rw (varint_bytes-groups 9 v (omega arith)) (Writes-bytes (groups 9 v) s h)

  pub read_uint32_lem :
      (v : ℕ) (rest : List ℕ) (s : ByteArray)
      → IsValid s
      → v < 2 ^ 32
      → unread s ≡ groups 4 v ++ rest
      → Reads (read_uint32 host) v s (groups 4 v) rest
  unfolding read_uint32
  read_uint32_lem v rest s h lt e =
      let from_zero : v ≡ 0 + v * 2 ^ 0 = omega arith in
      let (t, r, c) =
        read_groups_lem 4 32 0 0 v rest s h (omega arith) (omega arith) (omega arith) (omega arith)
          e in
      (t, r ∙ ap (λ x. ok x t) (sym from_zero), c)

  pub read_uint64_lem :
      (v : ℕ) (rest : List ℕ) (s : ByteArray)
      → IsValid s
      → v < 2 ^ 64
      → unread s ≡ groups 9 v ++ rest
      → Reads (read_uint64 host) v s (groups 9 v) rest
  unfolding read_uint64
  read_uint64_lem v rest s h lt e =
      let from_zero : v ≡ 0 + v * 2 ^ 0 = omega arith in
      let (t, r, c) =
        read_groups_lem 9 64 0 0 v rest s h (omega arith) (omega arith) (omega arith) (omega arith)
          e in
      (t, r ∙ ap (λ x. ok x t) (sym from_zero), c)

  pub write_int32_lem :
      (z : ℤ) (s : ByteArray)
      → IsValid s
      → Writes (write_int32 host z) s (groups 4 (encode_zigzag 32 z))
  unfolding write_int32
  write_int32_lem z s h = write_uint32_lem (encode_zigzag 32 z) s h (encode_zigzag-lt 32 z)

  pub write_int64_lem :
      (z : ℤ) (s : ByteArray)
      → IsValid s
      → Writes (write_int64 host z) s (groups 9 (encode_zigzag 64 z))
  unfolding write_int64
  write_int64_lem z s h = write_uint64_lem (encode_zigzag 64 z) s h (encode_zigzag-lt 64 z)

  pub read_int32_lem :
      (z : ℤ) (rest : List ℕ) (s : ByteArray)
      → IsValid s
      → FitsInt 32 z
      → unread s ≡ groups 4 (encode_zigzag 32 z) ++ rest
      → Reads (read_int32 host) z s (groups 4 (encode_zigzag 32 z)) rest
  unfolding read_int32
  read_int32_lem z rest s h f e =
      Reads-map (read_uint32 host) (decode_zigzag 32) (encode_zigzag 32 z) z s _ rest
        (decode_zigzag-encode_zigzag 32 z (omega arith) f)
        (read_uint32_lem (encode_zigzag 32 z) rest s h (encode_zigzag-lt 32 z) e)

  pub read_int64_lem :
      (z : ℤ) (rest : List ℕ) (s : ByteArray)
      → IsValid s
      → FitsInt 64 z
      → unread s ≡ groups 9 (encode_zigzag 64 z) ++ rest
      → Reads (read_int64 host) z s (groups 9 (encode_zigzag 64 z)) rest
  unfolding read_int64
  read_int64_lem z rest s h f e =
      Reads-map (read_uint64 host) (decode_zigzag 64) (encode_zigzag 64 z) z s _ rest
        (decode_zigzag-encode_zigzag 64 z (omega arith) f)
        (read_uint64_lem (encode_zigzag 64 z) rest s h (encode_zigzag-lt 64 z) e)
