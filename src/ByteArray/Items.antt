-- ===== src/ByteArray/Items.antt =====
-- One item written, and one item read: its bytes and its value.
use kit_server.Common.{
  ℕ, ◌+◌, ◌<◌, ◌≡◌, refl, ap, ◌∙◌, arith, List, ◌++◌, length, length-append, subst,
}
use kit_server.Common.Ints.{to_word}
use kit_server.Codec.Endian.{Endian, small, big, le_bytes, to_memory}
use kit_server.Codec.Varint.{groups}
use kit_server.ByteArray.{ByteArray}
use kit_server.ByteArray.Invariant.{IsValid}
use kit_server.ByteArray.Transfer.{unread}
use kit_server.ByteArray.Rules.{Writes, Reads, Reads-map}
use kit_server.ByteArray.Typed.{
  write_fint16, write_fuint16, write_fint32, write_fuint32, write_fint64, write_fuint64,
  write_string_f16, write_string_f32, write_string_f64, write_string_vint, read_fint8, read_fuint8,
  read_fint16, read_fuint16, read_fint32, read_fuint32, read_fint64, read_fuint64, read_int32,
  read_uint32, read_int64, read_uint64, read_string_f16, read_string_f32, read_string_f64,
  read_string_vint,
}
use kit_server.ByteArray.Typed.Fixed.{
  write_fixed_lem, write_fint8_lem, write_fuint8_lem, read_fixed_lem, read_fuint8_lem,
  read_fint8_lem, read_signed_lem,
}
use kit_server.ByteArray.Typed.Groups.{
  write_uint32_lem, write_uint64_lem, write_int32_lem, write_int64_lem, read_uint32_lem,
  read_uint64_lem, read_int32_lem, read_int64_lem,
}
use kit_server.ByteArray.Typed.Strings.{
  write_string_f16_lem, write_string_f32_lem, write_string_f64_lem, write_string_vint_lem,
  read_string_f16_lem, read_string_f32_lem, read_string_f64_lem, read_string_vint_lem,
}
use kit_server.ByteArray.Sequence.{Item, kind, FitsItem, item_bytes, write_item, read_item}
use mathlib.Core.List.{append_assoc}
use native.Mathlib.Nat.{mod-eq_of_lt}

-- One byte has no order.
one_byte : (h e : Endian) (v : ℕ) → to_memory h 1 v ≡ to_memory e 1 v
unfolding to_memory le_bytes
one_byte small small v = refl
one_byte small big v = refl
one_byte big small v = refl
one_byte big big v = refl

module _ (host : Endian) where
  pub write_item_lem :
      (x : Item) (s : ByteArray)
      → IsValid s
      → FitsItem x
      → Writes (write_item host x) s (item_bytes s.endian x)
  unfolding write_item item_bytes write_fint16 write_fuint16 write_fint32 write_fuint32 write_fint64
      write_fuint64
  write_item_lem (Item.fint8 z) s h f =
      rw (one_byte s.endian host (to_word 8 z)) (write_fint8_lem host z s h)
  write_item_lem (Item.fuint8 n) s h f = rw (one_byte s.endian host n) (write_fuint8_lem host n s h)
  write_item_lem (Item.fint16 z) s h f = write_fixed_lem host 2 (to_word 16 z) s h
  write_item_lem (Item.fuint16 n) s h f = write_fixed_lem host 2 n s h
  write_item_lem (Item.fint32 z) s h f = write_fixed_lem host 4 (to_word 32 z) s h
  write_item_lem (Item.fuint32 n) s h f = write_fixed_lem host 4 n s h
  write_item_lem (Item.fint64 z) s h f = write_fixed_lem host 8 (to_word 64 z) s h
  write_item_lem (Item.fuint64 n) s h f = write_fixed_lem host 8 n s h
  write_item_lem (Item.int32 z) s h f = write_int32_lem host z s h
  write_item_lem (Item.uint32 n) s h f = write_uint32_lem host n s h f
  write_item_lem (Item.int64 z) s h f = write_int64_lem host z s h
  write_item_lem (Item.uint64 n) s h f = write_uint64_lem host n s h f
  write_item_lem (Item.string_f16 str) s h f =
      subst (λ j. Writes (write_string_f16 host str) s (to_memory s.endian 2 j ++ str))
        (mod-eq_of_lt f) (write_string_f16_lem host str s h)
  write_item_lem (Item.string_f32 str) s h f =
      subst (λ j. Writes (write_string_f32 host str) s (to_memory s.endian 4 j ++ str))
        (mod-eq_of_lt f) (write_string_f32_lem host str s h)
  write_item_lem (Item.string_f64 str) s h f =
      subst (λ j. Writes (write_string_f64 host str) s (to_memory s.endian 8 j ++ str))
        (mod-eq_of_lt f) (write_string_f64_lem host str s h)
  write_item_lem (Item.string_vint str) s h f =
      subst (λ j. Writes (write_string_vint host str) s (groups 9 j ++ str)) (mod-eq_of_lt f)
        (write_string_vint_lem host str s h)

  -- Read back where the bytes do not end at the very end of the capacity.
  pub read_item_lem :
      (x : Item) (rest : List ℕ) (s : ByteArray)
      → IsValid s
      → FitsItem x
      → s.position + length (item_bytes s.endian x) < s.capacity
      → unread s ≡ item_bytes s.endian x ++ rest
      → Reads (read_item host (kind x)) x s (item_bytes s.endian x) rest
  unfolding read_item item_bytes read_fint16 read_fuint16 read_fint32 read_fuint32 read_fint64
      read_fuint64
  read_item_lem (Item.fint8 z) rest s h f room e = rw (one_byte s.endian host (to_word 8 z)) (
      Reads-map (read_fint8 host) Item.fint8 z (Item.fint8 z) s _ rest refl (
        read_fint8_lem host z rest s h f
          (e ∙ ap (λ bs. bs ++ rest) (one_byte s.endian host (to_word 8 z)))))
  read_item_lem (Item.fuint8 n) rest s h f room e = rw (one_byte s.endian host n) (
      Reads-map (read_fuint8 host) Item.fuint8 n (Item.fuint8 n) s _ rest refl (
        read_fuint8_lem host n rest s h (omega arith)
          (e ∙ ap (λ bs. bs ++ rest) (one_byte s.endian host n))))
  read_item_lem (Item.fint16 z) rest s h f room e =
      Reads-map (read_fint16 host) Item.fint16 z (Item.fint16 z) s _ rest refl
        (read_signed_lem host 2 16 z rest s h (omega arith) (omega arith) refl f e)
  read_item_lem (Item.fuint16 n) rest s h f room e =
      Reads-map (read_fuint16 host) Item.fuint16 n (Item.fuint16 n) s _ rest refl
        (read_fixed_lem host 2 n rest s h (omega arith) (omega arith) e)
  read_item_lem (Item.fint32 z) rest s h f room e =
      Reads-map (read_fint32 host) Item.fint32 z (Item.fint32 z) s _ rest refl
        (read_signed_lem host 4 32 z rest s h (omega arith) (omega arith) refl f e)
  read_item_lem (Item.fuint32 n) rest s h f room e =
      Reads-map (read_fuint32 host) Item.fuint32 n (Item.fuint32 n) s _ rest refl
        (read_fixed_lem host 4 n rest s h (omega arith) (omega arith) e)
  read_item_lem (Item.fint64 z) rest s h f room e =
      Reads-map (read_fint64 host) Item.fint64 z (Item.fint64 z) s _ rest refl
        (read_signed_lem host 8 64 z rest s h (omega arith) (omega arith) refl f e)
  read_item_lem (Item.fuint64 n) rest s h f room e =
      Reads-map (read_fuint64 host) Item.fuint64 n (Item.fuint64 n) s _ rest refl
        (read_fixed_lem host 8 n rest s h (omega arith) (omega arith) e)
  read_item_lem (Item.int32 z) rest s h f room e =
      Reads-map (read_int32 host) Item.int32 z (Item.int32 z) s _ rest refl
        (read_int32_lem host z rest s h f e)
  read_item_lem (Item.uint32 n) rest s h f room e =
      Reads-map (read_uint32 host) Item.uint32 n (Item.uint32 n) s _ rest refl
        (read_uint32_lem host n rest s h f e)
  read_item_lem (Item.int64 z) rest s h f room e =
      Reads-map (read_int64 host) Item.int64 z (Item.int64 z) s _ rest refl
        (read_int64_lem host z rest s h f e)
  read_item_lem (Item.uint64 n) rest s h f room e =
      Reads-map (read_uint64 host) Item.uint64 n (Item.uint64 n) s _ rest refl
        (read_uint64_lem host n rest s h f e)
  read_item_lem (Item.string_f16 str) rest s h f room e =
      Reads-map (read_string_f16 host) Item.string_f16 str (Item.string_f16 str) s _ rest refl (
        read_string_f16_lem host str rest s h f
          (λ _. omega (arith, length-append (to_memory s.endian 2 (length str)) str))
          (e ∙ append_assoc (to_memory s.endian 2 (length str)) str rest))
  read_item_lem (Item.string_f32 str) rest s h f room e =
      Reads-map (read_string_f32 host) Item.string_f32 str (Item.string_f32 str) s _ rest refl (
        read_string_f32_lem host str rest s h f
          (λ _. omega (arith, length-append (to_memory s.endian 4 (length str)) str))
          (e ∙ append_assoc (to_memory s.endian 4 (length str)) str rest))
  read_item_lem (Item.string_f64 str) rest s h f room e =
      Reads-map (read_string_f64 host) Item.string_f64 str (Item.string_f64 str) s _ rest refl (
        read_string_f64_lem host str rest s h f
          (λ _. omega (arith, length-append (to_memory s.endian 8 (length str)) str))
          (e ∙ append_assoc (to_memory s.endian 8 (length str)) str rest))
  read_item_lem (Item.string_vint str) rest s h f room e =
      Reads-map (read_string_vint host) Item.string_vint str (Item.string_vint str) s _ rest refl (
        read_string_vint_lem host str rest s h f
          (λ _. omega (arith, length-append (groups 9 (length str)) str))
          (e ∙ append_assoc (groups 9 (length str)) str rest))
