-- ===== src/Codec/Tests.antt =====
-- The codings at concrete inputs.
use kit_server.Common.{◌-◌, ◌^◌, ◌≡◌, refl, arith, [], ◌∷◌, some}
use kit_server.Common.Ints.{negsuc, of_word}
use kit_server.Codec.Endian.{byteswap, le_bytes, le_value, byteswap-byteswap}
use kit_server.Codec.Zigzag.{encode_zigzag, decode_zigzag}
use kit_server.Codec.Varint.{varint_bytes}

byteswap_runs : byteswap 4 0x01020304 ≡ 0x04030201
unfolding byteswap le_bytes le_value
byteswap_runs = refl

byteswap-byteswap_example : byteswap 4 (byteswap 4 0x01020304) ≡ 0x01020304
byteswap-byteswap_example = byteswap-byteswap 4 0x01020304 (omega arith)

-- The least int32_t, and -1.
zigzag_least : encode_zigzag 32 (negsuc (2 ^ 31 - 1)) ≡ 2 ^ 32 - 1
unfolding encode_zigzag
zigzag_least = refl

zigzag_minus_one : decode_zigzag 32 1 ≡ negsuc 0
unfolding decode_zigzag of_word
zigzag_minus_one = refl

varint_300 : varint_bytes 5 300 ≡ some (0xac ∷ 0x02 ∷ [])
unfolding varint_bytes
varint_300 = refl
