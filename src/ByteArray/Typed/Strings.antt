-- ===== src/ByteArray/Typed/Strings.antt =====
-- Strings with a length in front of them.
use kit_server.Common.{ℕ, ◌+◌, ◌%◌, ◌^◌, ◌<◌, ◌≡◌, refl, arith, List, [], ◌∷◌, ◌++◌, length}
use kit_server.Codec.Endian.{Endian, to_memory}
use kit_server.Codec.Varint.{groups}
use kit_server.ByteArray.{ByteArray, M, ◌>>=◌, ◌>>◌, read, write}
use kit_server.ByteArray.Invariant.{IsValid}
use kit_server.ByteArray.Transfer.{unread}
use kit_server.ByteArray.Seek.{inside_of_unread}
use kit_server.ByteArray.Rules.{Writes, Reads, Writes-then, Reads-then, Writes-bytes, Reads-bytes}
use kit_server.ByteArray.Typed.{
  write_string_f16, write_string_f32, write_string_f64, write_string_vint, read_string_f16,
  read_string_f32, read_string_f64, read_string_vint, write_fuint16, write_fuint32, write_fuint64,
  write_uint64, write_fixed, read_fixed, read_fuint16, read_fuint32, read_fuint64, read_uint64,
}
use kit_server.ByteArray.Typed.Fixed.{write_fixed_lem, read_fixed_lem}
use kit_server.ByteArray.Typed.Groups.{write_uint64_lem, read_uint64_lem}

-- The bytes of a string, after the bytes of its length.
pub write_body :
    (m : M (Unit {0})) (head str : List ℕ) (s : ByteArray)
    → Writes m s head
    → Writes (m >> write str) s (head ++ str)
write_body m head str s w =
    Writes-then m (write str) s head str w (λ t x. Writes-bytes str t x.valid)

body_inside :
    (str rest : List ℕ) (t : ByteArray)
    → IsValid t
    → unread t ≡ str ++ rest
    → (length str ≡ 0 → t.position < t.capacity)
    → t.position < t.capacity
body_inside [] rest t v e inside = inside refl
body_inside (b ∷ str) rest t v e inside = inside_of_unread b (str ++ rest) t v e

-- An empty string can be read only inside the capacity.
pub read_body :
    (m : M ℕ) (head str rest : List ℕ) (s : ByteArray)
    → (length str ≡ 0 → s.position + length head < s.capacity)
    → Reads m (length str) s head (str ++ rest)
    → Reads (m >>= read) str s (head ++ str) rest
read_body m head str rest s inside r = Reads-then m read (length str) str s head str rest r (λ t c.
    Reads-bytes str rest t c.valid c.left (
      body_inside str rest t c.valid c.left (λ z.
        let h : s.position + length head < s.capacity = inside z in
        omega (arith, c.moved, c.same_capacity))))

module _ (host : Endian) where
  pub write_string_f16_lem :
      (str : List ℕ) (s : ByteArray)
      → IsValid s
      → Writes (write_string_f16 host str) s (to_memory s.endian 2 (length str % 2 ^ 16) ++ str)
  unfolding write_string_f16 write_fuint16
  write_string_f16_lem str s h =
      write_body (write_fixed host 2 (length str % 2 ^ 16))
        (to_memory s.endian 2 (length str % 2 ^ 16)) str s
        (write_fixed_lem host 2 (length str % 2 ^ 16) s h)

  pub write_string_f32_lem :
      (str : List ℕ) (s : ByteArray)
      → IsValid s
      → Writes (write_string_f32 host str) s (to_memory s.endian 4 (length str % 2 ^ 32) ++ str)
  unfolding write_string_f32 write_fuint32
  write_string_f32_lem str s h =
      write_body (write_fixed host 4 (length str % 2 ^ 32))
        (to_memory s.endian 4 (length str % 2 ^ 32)) str s
        (write_fixed_lem host 4 (length str % 2 ^ 32) s h)

  pub write_string_f64_lem :
      (str : List ℕ) (s : ByteArray)
      → IsValid s
      → Writes (write_string_f64 host str) s (to_memory s.endian 8 (length str % 2 ^ 64) ++ str)
  unfolding write_string_f64 write_fuint64
  write_string_f64_lem str s h =
      write_body (write_fixed host 8 (length str % 2 ^ 64))
        (to_memory s.endian 8 (length str % 2 ^ 64)) str s
        (write_fixed_lem host 8 (length str % 2 ^ 64) s h)

  pub write_string_vint_lem :
      (str : List ℕ) (s : ByteArray)
      → IsValid s
      → Writes (write_string_vint host str) s (groups 9 (length str % 2 ^ 64) ++ str)
  unfolding write_string_vint
  write_string_vint_lem str s h =
      write_body (write_uint64 host (length str % 2 ^ 64)) (groups 9 (length str % 2 ^ 64)) str s
        (write_uint64_lem host (length str % 2 ^ 64) s h (omega arith))

  -- The reads, where the field of the length can hold the length.

  pub read_string_f16_lem :
      (str rest : List ℕ) (s : ByteArray)
      → IsValid s
      → length str < 2 ^ 16
      → (length str ≡ 0 → s.position + length (to_memory s.endian 2 (length str)) < s.capacity)
      → unread s ≡ to_memory s.endian 2 (length str) ++ (str ++ rest)
      → Reads (read_string_f16 host) str s (to_memory s.endian 2 (length str) ++ str) rest
  unfolding read_string_f16 read_fuint16
  read_string_f16_lem str rest s h lt inside e =
      read_body (read_fixed host 2) (to_memory s.endian 2 (length str)) str rest s inside
        (read_fixed_lem host 2 (length str) (str ++ rest) s h (omega arith) (omega arith) e)

  pub read_string_f32_lem :
      (str rest : List ℕ) (s : ByteArray)
      → IsValid s
      → length str < 2 ^ 32
      → (length str ≡ 0 → s.position + length (to_memory s.endian 4 (length str)) < s.capacity)
      → unread s ≡ to_memory s.endian 4 (length str) ++ (str ++ rest)
      → Reads (read_string_f32 host) str s (to_memory s.endian 4 (length str) ++ str) rest
  unfolding read_string_f32 read_fuint32
  read_string_f32_lem str rest s h lt inside e =
      read_body (read_fixed host 4) (to_memory s.endian 4 (length str)) str rest s inside
        (read_fixed_lem host 4 (length str) (str ++ rest) s h (omega arith) (omega arith) e)

  pub read_string_f64_lem :
      (str rest : List ℕ) (s : ByteArray)
      → IsValid s
      → length str < 2 ^ 64
      → (length str ≡ 0 → s.position + length (to_memory s.endian 8 (length str)) < s.capacity)
      → unread s ≡ to_memory s.endian 8 (length str) ++ (str ++ rest)
      → Reads (read_string_f64 host) str s (to_memory s.endian 8 (length str) ++ str) rest
  unfolding read_string_f64 read_fuint64
  read_string_f64_lem str rest s h lt inside e =
      read_body (read_fixed host 8) (to_memory s.endian 8 (length str)) str rest s inside
        (read_fixed_lem host 8 (length str) (str ++ rest) s h (omega arith) (omega arith) e)

  pub read_string_vint_lem :
      (str rest : List ℕ) (s : ByteArray)
      → IsValid s
      → length str < 2 ^ 64
      → (length str ≡ 0 → s.position + length (groups 9 (length str)) < s.capacity)
      → unread s ≡ groups 9 (length str) ++ (str ++ rest)
      → Reads (read_string_vint host) str s (groups 9 (length str) ++ str) rest
  unfolding read_string_vint
  read_string_vint_lem str rest s h lt inside e =
      read_body (read_uint64 host) (groups 9 (length str)) str rest s inside
        (read_uint64_lem host (length str) (str ++ rest) s h lt e)
