-- ===== src/ByteArray/Sequence.antt =====
-- A message: typed values written one after the other, and read back in the same order.
use kit_server.Common.{ℕ, ◌^◌, ◌<◌, List, [], ◌∷◌, ◌++◌, length}
use kit_server.Common.Ints.{ℤ, FitsInt, to_word}
use kit_server.Codec.Endian.{Endian, to_memory}
use kit_server.Codec.Varint.{groups}
use kit_server.Codec.Zigzag.{encode_zigzag}
use kit_server.ByteArray.{ok, M, and_then, ◌>>=◌, return}
use kit_server.ByteArray.Typed.{
  write_fint8, write_fuint8, write_fint16, write_fuint16, write_fint32, write_fuint32, write_fint64,
  write_fuint64, write_int32, write_uint32, write_int64, write_uint64, write_string_f16,
  write_string_f32, write_string_f64, write_string_vint, read_fint8, read_fuint8, read_fint16,
  read_fuint16, read_fint32, read_fuint32, read_fint64, read_fuint64, read_int32, read_uint32,
  read_int64, read_uint64, read_string_f16, read_string_f32, read_string_f64, read_string_vint,
}
use kit_server.ByteArray.Typed.Fixed.{}
use kit_server.ByteArray.Typed.Groups.{}
use kit_server.ByteArray.Typed.Strings.{}

-- The kinds of value that the array has a write and a read for, and a value of a kind.
pub data Kind : Type 0 where
  fint8 fuint8 fint16 fuint16 fint32 fuint32 fint64 fuint64 : Kind
  int32 uint32 int64 uint64 : Kind
  string_f16 string_f32 string_f64 string_vint : Kind

pub data Item : Type 0 where
  fint8 fint16 fint32 fint64 int32 int64 : ℤ → Item
  fuint8 fuint16 fuint32 fuint64 uint32 uint64 : ℕ → Item
  string_f16 string_f32 string_f64 string_vint : List ℕ → Item

abbrev pub kind : Item → Kind
kind (Item.fint8 z) = Kind.fint8
kind (Item.fuint8 n) = Kind.fuint8
kind (Item.fint16 z) = Kind.fint16
kind (Item.fuint16 n) = Kind.fuint16
kind (Item.fint32 z) = Kind.fint32
kind (Item.fuint32 n) = Kind.fuint32
kind (Item.fint64 z) = Kind.fint64
kind (Item.fuint64 n) = Kind.fuint64
kind (Item.int32 z) = Kind.int32
kind (Item.uint32 n) = Kind.uint32
kind (Item.int64 z) = Kind.int64
kind (Item.uint64 n) = Kind.uint64
kind (Item.string_f16 str) = Kind.string_f16
kind (Item.string_f32 str) = Kind.string_f32
kind (Item.string_f64 str) = Kind.string_f64
kind (Item.string_vint str) = Kind.string_vint

-- The values that the C++ type of the kind can hold, and lengths that the length field can hold.
abbrev pub FitsItem : Item → Type 0
FitsItem (Item.fint8 z) = FitsInt 8 z
FitsItem (Item.fuint8 n) = n < 2 ^ 8
FitsItem (Item.fint16 z) = FitsInt 16 z
FitsItem (Item.fuint16 n) = n < 2 ^ 16
FitsItem (Item.fint32 z) = FitsInt 32 z
FitsItem (Item.fuint32 n) = n < 2 ^ 32
FitsItem (Item.fint64 z) = FitsInt 64 z
FitsItem (Item.fuint64 n) = n < 2 ^ 64
FitsItem (Item.int32 z) = FitsInt 32 z
FitsItem (Item.uint32 n) = n < 2 ^ 32
FitsItem (Item.int64 z) = FitsInt 64 z
FitsItem (Item.uint64 n) = n < 2 ^ 64
FitsItem (Item.string_f16 str) = length str < 2 ^ 16
FitsItem (Item.string_f32 str) = length str < 2 ^ 32
FitsItem (Item.string_f64 str) = length str < 2 ^ 64
FitsItem (Item.string_vint str) = length str < 2 ^ 64

-- The format: the bytes of a value in an array of a byte order. The machine does not show.
unfoldable pub item_bytes : Endian → Item → List ℕ
item_bytes e (Item.fint8 z) = to_memory e 1 (to_word 8 z)
item_bytes e (Item.fuint8 n) = to_memory e 1 n
item_bytes e (Item.fint16 z) = to_memory e 2 (to_word 16 z)
item_bytes e (Item.fuint16 n) = to_memory e 2 n
item_bytes e (Item.fint32 z) = to_memory e 4 (to_word 32 z)
item_bytes e (Item.fuint32 n) = to_memory e 4 n
item_bytes e (Item.fint64 z) = to_memory e 8 (to_word 64 z)
item_bytes e (Item.fuint64 n) = to_memory e 8 n
item_bytes e (Item.int32 z) = groups 4 (encode_zigzag 32 z)
item_bytes e (Item.uint32 n) = groups 4 n
item_bytes e (Item.int64 z) = groups 9 (encode_zigzag 64 z)
item_bytes e (Item.uint64 n) = groups 9 n
item_bytes e (Item.string_f16 str) = to_memory e 2 (length str) ++ str
item_bytes e (Item.string_f32 str) = to_memory e 4 (length str) ++ str
item_bytes e (Item.string_f64 str) = to_memory e 8 (length str) ++ str
item_bytes e (Item.string_vint str) = groups 9 (length str) ++ str

unfoldable pub message_bytes : Endian → List Item → List ℕ
message_bytes e [] = []
message_bytes e (x ∷ xs) = item_bytes e x ++ message_bytes e xs

module _ (host : Endian) where
  unfoldable pub write_item : Item → M (Unit {0})
  write_item (Item.fint8 z) = write_fint8 host z
  write_item (Item.fuint8 n) = write_fuint8 host n
  write_item (Item.fint16 z) = write_fint16 host z
  write_item (Item.fuint16 n) = write_fuint16 host n
  write_item (Item.fint32 z) = write_fint32 host z
  write_item (Item.fuint32 n) = write_fuint32 host n
  write_item (Item.fint64 z) = write_fint64 host z
  write_item (Item.fuint64 n) = write_fuint64 host n
  write_item (Item.int32 z) = write_int32 host z
  write_item (Item.uint32 n) = write_uint32 host n
  write_item (Item.int64 z) = write_int64 host z
  write_item (Item.uint64 n) = write_uint64 host n
  write_item (Item.string_f16 str) = write_string_f16 host str
  write_item (Item.string_f32 str) = write_string_f32 host str
  write_item (Item.string_f64 str) = write_string_f64 host str
  write_item (Item.string_vint str) = write_string_vint host str

  unfoldable pub read_item : Kind → M Item
  read_item Kind.fint8 = do x ← read_fint8 host; return (Item.fint8 x)
  read_item Kind.fuint8 = do x ← read_fuint8 host; return (Item.fuint8 x)
  read_item Kind.fint16 = do x ← read_fint16 host; return (Item.fint16 x)
  read_item Kind.fuint16 = do x ← read_fuint16 host; return (Item.fuint16 x)
  read_item Kind.fint32 = do x ← read_fint32 host; return (Item.fint32 x)
  read_item Kind.fuint32 = do x ← read_fuint32 host; return (Item.fuint32 x)
  read_item Kind.fint64 = do x ← read_fint64 host; return (Item.fint64 x)
  read_item Kind.fuint64 = do x ← read_fuint64 host; return (Item.fuint64 x)
  read_item Kind.int32 = do x ← read_int32 host; return (Item.int32 x)
  read_item Kind.uint32 = do x ← read_uint32 host; return (Item.uint32 x)
  read_item Kind.int64 = do x ← read_int64 host; return (Item.int64 x)
  read_item Kind.uint64 = do x ← read_uint64 host; return (Item.uint64 x)
  read_item Kind.string_f16 = do x ← read_string_f16 host; return (Item.string_f16 x)
  read_item Kind.string_f32 = do x ← read_string_f32 host; return (Item.string_f32 x)
  read_item Kind.string_f64 = do x ← read_string_f64 host; return (Item.string_f64 x)
  read_item Kind.string_vint = do x ← read_string_vint host; return (Item.string_vint x)

  unfoldable pub write_items : List Item → M (Unit {0})
  write_items [] s = ok tt s
  write_items (x ∷ xs) s = and_then (write_item x s) (λ _. write_items xs)

  unfoldable pub read_items : List Kind → M (List Item)
  read_items [] s = ok [] s
  read_items (k ∷ ks) s = and_then (read_item k s) (λ x. read_items ks >>= λ xs. return (x ∷ xs))
