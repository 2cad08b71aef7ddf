-- ===== src/ByteArray/Typed.antt =====
-- kit_server/bytearray.cpp: the typed writes and reads. `host` is the byte order of the machine.
-- Signed arguments are integers, converted to words where the source casts them; strings are lists
-- of bytes; a float or a double is given by its object representation, a word of 32 or 64 bits.

pub mod Fixed
pub mod Groups
pub mod Strings
use kit_server.Common.{
  ℕ, zero, suc, ◌+◌, ◌*◌, ◌%◌, ◌^◌, ltb, if◌then◌else◌, List, length, Option, none, some,
}
use kit_server.Common.Ints.{ℤ, to_word, of_word}
use kit_server.Codec.Endian.{Endian, same_endian, byteswap, to_memory, of_memory}
use kit_server.Codec.Zigzag.{encode_zigzag, decode_zigzag}
use kit_server.Codec.Varint.{varint_bytes, add_group}
use kit_server.ByteArray.{
  ByteArray, Outcome, ok, throws, crash, M, and_then, ◌>>=◌, ◌>>◌, return, write, read,
}

-- `if(m_endian != KIT_BYTE_ORDER) value = byteswap(value);`
abbrev pub in_order : Endian → Endian → ℕ → ℕ → ℕ
in_order host e n v = if same_endian e host then v else byteswap n v

-- `temp` is filled and written; behind its end the program writes into foreign memory.
abbrev pub write_temp : Option (List ℕ) → M (Unit {0})
write_temp none s = crash
write_temp (some bs) s = write bs s

module _ (host : Endian) where
  -- The body of writeFuint16, writeFuint32 and writeFuint64, for `n` bytes.
  unfoldable pub write_fixed : ℕ → ℕ → M (Unit {0})
  write_fixed n v s = write (to_memory host n (in_order host s.endian n v)) s

  unfoldable pub write_fint8 : ℤ → M (Unit {0})
  write_fint8 v = write (to_memory host 1 (to_word 8 v))

  unfoldable pub write_fuint8 : ℕ → M (Unit {0})
  write_fuint8 v = write (to_memory host 1 v)

  unfoldable pub write_fint16 : ℤ → M (Unit {0})
  write_fint16 v = write_fixed 2 (to_word 16 v)

  unfoldable pub write_fuint16 : ℕ → M (Unit {0})
  write_fuint16 v = write_fixed 2 v

  unfoldable pub write_fint32 : ℤ → M (Unit {0})
  write_fint32 v = write_fixed 4 (to_word 32 v)

  unfoldable pub write_fuint32 : ℕ → M (Unit {0})
  write_fuint32 v = write_fixed 4 v

  unfoldable pub write_fint64 : ℤ → M (Unit {0})
  write_fint64 v = write_fixed 8 (to_word 64 v)

  unfoldable pub write_fuint64 : ℕ → M (Unit {0})
  write_fuint64 v = write_fixed 8 v

  unfoldable pub write_float : ℕ → M (Unit {0})
  write_float v = write_fuint32 v

  unfoldable pub write_double : ℕ → M (Unit {0})
  write_double v = write_fuint64 v

  -- The macro READ_XX, for a type of `n` bytes: the order is that of the array.
  unfoldable pub read_fixed : ℕ → M ℕ
  read_fixed n s = and_then (read n s) (λ bs t. ok (in_order host t.endian n (of_memory host bs)) t)

  unfoldable pub read_fint8 : M ℤ
  read_fint8 = do bs ← read 1; return (of_word 8 (of_memory host bs))

  unfoldable pub read_fuint8 : M ℕ
  read_fuint8 = do bs ← read 1; return (of_memory host bs)

  unfoldable pub read_fint16 : M ℤ
  read_fint16 = do v ← read_fixed 2; return (of_word 16 v)

  unfoldable pub read_fuint16 : M ℕ
  read_fuint16 = read_fixed 2

  unfoldable pub read_fint32 : M ℤ
  read_fint32 = do v ← read_fixed 4; return (of_word 32 v)

  unfoldable pub read_fuint32 : M ℕ
  read_fuint32 = read_fixed 4

  unfoldable pub read_fint64 : M ℤ
  read_fint64 = do v ← read_fixed 8; return (of_word 64 v)

  unfoldable pub read_fuint64 : M ℕ
  read_fuint64 = read_fixed 8

  unfoldable pub read_float : M ℕ
  read_float = read_fuint32

  unfoldable pub read_double : M ℕ
  read_double = read_fuint64

  unfoldable pub write_uint32 : ℕ → M (Unit {0})
  write_uint32 value = write_temp (varint_bytes 5 value)

  unfoldable pub write_uint64 : ℕ → M (Unit {0})
  write_uint64 value = write_temp (varint_bytes 10 value)

  unfoldable pub write_int32 : ℤ → M (Unit {0})
  write_int32 value = write_uint32 (encode_zigzag 32 value)

  unfoldable pub write_int64 : ℤ → M (Unit {0})
  write_int64 value = write_uint64 (encode_zigzag 64 value)

  -- `for(int i = 0; i < w; i += 7)`, with the rounds bounded by the first argument.
  unfoldable pub read_groups : ℕ → ℕ → ℕ → ℕ → M ℕ
  read_groups zero w i result s = ok result s
  read_groups (suc rounds) w i result s =
      if ltb i w
      then and_then (read_fuint8 s) (λ b t.
        let more = read_groups rounds w (i + 7) (add_group w i result (b % 2 ^ 7)) t in
        if ltb b 0x80 then ok (add_group w i result b) t else more)
      else ok result s

  -- 0, 7, ..., 28 are the five values of `i` below 32.
  unfoldable pub read_uint32 : M ℕ
  read_uint32 = read_groups 5 32 0 0

  -- 0, 7, ..., 63 are the ten values of `i` below 64.
  unfoldable pub read_uint64 : M ℕ
  read_uint64 = read_groups 10 64 0 0

  unfoldable pub read_int32 : M ℤ
  read_int32 = do v ← read_uint32; return (decode_zigzag 32 v)

  unfoldable pub read_int64 : M ℤ
  read_int64 = do v ← read_uint64; return (decode_zigzag 64 v)

  -- The size is converted to the type of the length field.
  unfoldable pub write_string_f16 : List ℕ → M (Unit {0})
  write_string_f16 value = do write_fuint16 (length value % 2 ^ 16); write value

  unfoldable pub write_string_f32 : List ℕ → M (Unit {0})
  write_string_f32 value = do write_fuint32 (length value % 2 ^ 32); write value

  unfoldable pub write_string_f64 : List ℕ → M (Unit {0})
  write_string_f64 value = do write_fuint64 (length value % 2 ^ 64); write value

  unfoldable pub write_string_vint : List ℕ → M (Unit {0})
  write_string_vint value = do write_uint64 (length value % 2 ^ 64); write value

  unfoldable pub write_string_without_len : List ℕ → M (Unit {0})
  write_string_without_len value = write value

  unfoldable pub read_string_f16 : M (List ℕ)
  read_string_f16 = do len ← read_fuint16; read len

  unfoldable pub read_string_f32 : M (List ℕ)
  read_string_f32 = do len ← read_fuint32; read len

  unfoldable pub read_string_f64 : M (List ℕ)
  read_string_f64 = do len ← read_fuint64; read len

  unfoldable pub read_string_vint : M (List ℕ)
  read_string_vint = do len ← read_uint64; read len
