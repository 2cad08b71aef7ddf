-- ===== src/ByteArray/Tests.antt =====
-- Runs of the byte array at concrete inputs, and its theorems there.
use kit_server.Common.{ℕ, ◌≡◌, refl, arith, List, [], ◌∷◌, map, All, take, drop}
use kit_server.Common.Ints.{negsuc, to_word}
use kit_server.Codec.Endian.{small, big, byteswap, to_memory, le_bytes, le_value}
use kit_server.Codec.Varint.{varint_bytes}
use kit_server.ByteArray.{
  ByteArray, Outcome, ok, throws, crash, create, write, read, write_at, write_from, read_from,
  add_capacity, grow, new_node, set_position, seek,
}
use kit_server.ByteArray.Nodes.{flat}
use kit_server.ByteArray.Invariant.{IsValid, create-IsValid, Grown, add_capacity-Grown}
use kit_server.ByteArray.Transfer.{memory, unread, Wrote, DidRead, write_lem, read_lem}
use kit_server.ByteArray.Seek.{Moved, set_position_lem, set_position_end}
use kit_server.ByteArray.Typed.{
  write_fixed, read_fixed, write_uint32, read_uint32, read_groups, read_fuint8, write_string_f16,
  read_string_f16, write_fuint16, read_fuint16, write_fint16, read_fint16, write_int32, read_int32,
}
use kit_server.ByteArray.Sequence.{
  Item, kind, FitsItem, message_bytes, write_items, read_items, write_item,
}
use kit_server.ByteArray.RoundTrip.{read_items-write_items, write_items-Wrote}
use kit_server.ByteArray.StringLimits.{read_string_f16-write_string_f16}
use kit_server.ByteArray.Buffers.{Window, get_read_buf, get_write_buf}
use kit_server.ByteArray.Buffers.Windows.{gather}
use kit_server.ByteArray.Buffers.Gather.{get_read_buf_lem, get_read_buf_end, get_write_buf_lem}

abbrev state_of {ℓ} : {A : Type ℓ} → Outcome A → ByteArray
state_of (ok a s) = s
state_of (throws s) = s
state_of crash = create 0

-- Nodes of four bytes: a message of three items takes three of them.
abbrev message : List Item
message =
    Item.fint16 (negsuc 4) ∷ Item.string_f16 (97 ∷ 98 ∷ []) ∷ Item.uint32 300 ∷ Item.fuint8 7 ∷ []

written : ByteArray
unfolding create new_node write_items write_item write_fint16 write_string_f16 write_fuint16
    write_fixed write_uint32 write add_capacity grow write_at write_from to_memory le_bytes le_value
    byteswap varint_bytes to_word kit_server.ByteArray.Typed.write_fuint8
written = state_of (write_items small message (create 4))

written_lem : write_items small message (create 4) ≡ ok tt written
unfolding written
written_lem = refl

written_bytes : take 9 (memory written) ≡ 0xff ∷ 0xfb ∷ 0 ∷ 2 ∷ 97 ∷ 98 ∷ 0xac ∷ 2 ∷ 7 ∷ []
unfolding written flat
written_bytes = refl

written_room : (written.position ≡ 9) × (written.capacity ≡ 12)
unfolding written
written_room = (refl, refl)

message_fits : All FitsItem message
message_fits = omega arith

read_items-write_items_example :
    (u w : ByteArray) × (set_position (create 4).position written ≡ ok tt u)
    × (read_items big (map kind message) u ≡ ok message w)
    × (w.position ≡ written.position)
read_items-write_items_example =
    read_items-write_items small big message (create 4) written (create-IsValid 4 (omega arith))
      message_fits written_lem (omega (arith, written_room))

write_items-Wrote_example :
    (t : ByteArray) × (write_items small message (create 4) ≡ ok tt t)
    × Wrote (message_bytes (create 4).endian message) (create 4) t
write_items-Wrote_example =
    write_items-Wrote small message (create 4) (create-IsValid 4 (omega arith)) message_fits

write_lem_example :
    (t : ByteArray) × (write (1 ∷ 2 ∷ 3 ∷ 4 ∷ 5 ∷ []) (create 2) ≡ ok tt t)
    × Wrote (1 ∷ 2 ∷ 3 ∷ 4 ∷ 5 ∷ []) (create 2) t
write_lem_example = write_lem (1 ∷ 2 ∷ 3 ∷ 4 ∷ 5 ∷ []) (create 2) (create-IsValid 2 (omega arith))

-- Five bytes in nodes of two, with the position on the third.
five : ByteArray
unfolding create new_node write add_capacity grow write_at write_from set_position seek
five = state_of (set_position 2 (state_of (write (1 ∷ 2 ∷ 3 ∷ 4 ∷ 5 ∷ []) (create 2))))

five-IsValid : IsValid five
unfolding five
five-IsValid = record {
  base_pos = omega arith;
  uniform = omega arith;
  has_root = omega arith;
  capacity_eq = omega arith;
  position_le = omega arith;
  size_le = omega arith;
  cur_le = omega arith;
  cur_gt = omega arith;
}

read_lem_example : (bs : List ℕ) × (t : ByteArray) × (read 3 five ≡ ok bs t) × DidRead 3 five bs t
unfolding five
read_lem_example = read_lem 3 five five-IsValid (omega arith) (omega arith)

five-read : read 3 five ≡ ok (3 ∷ 4 ∷ 5 ∷ []) (record five { position = 5; cur = 2 })
unfolding five read read_from
five-read = refl

set_position_lem_example : (t : ByteArray) × (set_position 5 five ≡ ok tt t) × Moved 5 five t
unfolding five
set_position_lem_example = set_position_lem 5 five five-IsValid (omega arith)

set_position_end_example : set_position five.capacity five ≡ crash
set_position_end_example = set_position_end five five-IsValid

get_read_buf_lem_example :
    (ws : List Window) × (get_read_buf 9 five ≡ ok (3, ws) five)
    × (gather five.nodes ws ≡ take 3 (drop five.position (memory five)))
unfolding five
get_read_buf_lem_example = get_read_buf_lem five five-IsValid 9 (omega arith) (omega arith)

-- Four bytes that fill two nodes, all unread.
full : ByteArray
unfolding create new_node write add_capacity grow write_at write_from set_position seek
full = state_of (set_position 0 (state_of (write (1 ∷ 2 ∷ 3 ∷ 4 ∷ []) (create 2))))

full-IsValid : IsValid full
unfolding full
full-IsValid = record {
  base_pos = omega arith;
  uniform = omega arith;
  has_root = omega arith;
  capacity_eq = omega arith;
  position_le = omega arith;
  size_le = omega arith;
  cur_le = omega arith;
  cur_gt = omega arith;
}

get_read_buf_end_example : get_read_buf 4 full ≡ crash
unfolding full
get_read_buf_end_example = get_read_buf_end full full-IsValid 4 (omega arith) refl

get_write_buf_lem_example :
    (ws : List Window) × (get_write_buf 6 five ≡ ok (6, ws) (add_capacity 6 five))
    × (gather (add_capacity 6 five).nodes ws
        ≡ take 6 (drop five.position (memory (add_capacity 6 five))))
get_write_buf_lem_example = get_write_buf_lem five 6 five-IsValid (omega arith)

five-unread : unread five ≡ 3 ∷ 4 ∷ 5 ∷ []
unfolding five unread flat
five-unread = refl

add_capacity-Grown_example : Grown 6 five (add_capacity 6 five)
add_capacity-Grown_example = add_capacity-Grown 6 five five-IsValid

-- A string of two bytes, and an empty one whose length field ends with the node.
short_written : ByteArray
unfolding create new_node write_string_f16 write_fuint16 write_fixed write add_capacity grow
    write_at write_from to_memory le_bytes le_value byteswap
short_written = state_of (write_string_f16 small (97 ∷ 98 ∷ []) (create 4))

short_written_lem : write_string_f16 small (97 ∷ 98 ∷ []) (create 4) ≡ ok tt short_written
unfolding short_written
short_written_lem = refl

read_string_f16-write_string_f16_example :
    (u w : ByteArray) × (set_position 0 short_written ≡ ok tt u)
    × (read_string_f16 big u ≡ ok (97 ∷ 98 ∷ []) w)
unfolding create
read_string_f16-write_string_f16_example =
    read_string_f16-write_string_f16 small big (97 ∷ 98 ∷ []) (create 4) short_written
      (create-IsValid 4 (omega arith)) short_written_lem (omega arith)

empty_written : ByteArray
unfolding short_written
empty_written = state_of (write_string_f16 small [] (create 2))

empty_written_lem : write_string_f16 small [] (create 2) ≡ ok tt empty_written
unfolding empty_written
empty_written_lem = refl

empty_written_end : empty_written.position ≡ empty_written.capacity
unfolding empty_written
empty_written_end = refl
