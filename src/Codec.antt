-- ===== src/Codec.antt =====
-- The number formats of the byte array: the byte orders of endian.h, and the zigzag and varint
-- codings of bytearray.cpp, as functions on numbers and lists of bytes.
pub mod Endian
pub mod Zigzag
pub mod Varint
mod Tests
