-- ===== src/ByteArray/Buffers.antt =====
-- kit_server/bytearray.cpp: the scatter-gather windows (getReadBuf, getWriteBuf), the constant
-- read and toString. A window is an `iovec`: a node, an offset in it and a length.
pub mod Windows
pub mod Gather
use kit_server.Common.{
  ℕ, zero, suc, ◌+◌, ◌-◌, ◌/◌, ◌%◌, ltb, leb, ◌==◌, if◌then◌else◌, List, [], ◌∷◌, ◌++◌, length,
  take, drop, get_elem?, Option, none, some,
}
use kit_server.ByteArray.{
  Node, ByteArray, Outcome, ok, throws, crash, M, get_read_size, add_capacity,
}
use mathlib.Core.Option

pub record Window : Type 0 where
  pub node : ℕ
  pub offset : ℕ
  pub len : ℕ

-- The loop of `getReadBuf` at the node of index `k`, which is the first of the list. A window that
-- ends with its node makes the loop read the size of the next node, if there is one or not.
unfoldable pub read_windows : List Node → ℕ → ℕ → ℕ → Option (List Window)
read_windows [] k npos len = none
read_windows (n ∷ ns) k npos len =
    let ncap = n.size - npos in
    let rest = read_windows ns (suc k) 0 (len - ncap) in
    if len == 0
    then some []
    else (if ltb len ncap
        then some (record { node = k; offset = npos; len = len } ∷ [])
        else Option.map (λ ws. record { node = k; offset = npos; len = ncap } ∷ ws) rest)

abbrev pub finish_windows : ByteArray → ℕ → Option (List Window) → Outcome (ℕ × List Window)
finish_windows s n none = crash
finish_windows s n (some ws) = ok (n, ws) s

-- `len > getReadSize() ? getReadSize() : len`
abbrev pub clamp_len : ByteArray → ℕ → ℕ
clamp_len s len = if ltb (get_read_size s) len then get_read_size s else len

unfoldable pub get_read_buf : ℕ → M (ℕ × List Window)
get_read_buf len s =
    let n = clamp_len s len in
    if n == 0
    then ok (0, []) s
    else finish_windows s n (read_windows (drop s.cur s.nodes) s.cur (s.position % s.base_size) n)

-- The overload with a position looks for the node from the root.
unfoldable pub get_read_buf_at : ℕ → ℕ → M (ℕ × List Window)
get_read_buf_at len position s =
    let n = clamp_len s len in
    let k = position / s.base_size in
    if n == 0
    then ok (0, []) s
    else finish_windows s n (read_windows (drop k s.nodes) k (position % s.base_size) n)

-- The loop of `getWriteBuf`, which does not go on behind a window that ends with its node.
unfoldable pub write_windows : List Node → ℕ → ℕ → ℕ → Option (List Window)
write_windows [] k npos len = none
write_windows (n ∷ ns) k npos len =
    let ncap = n.size - npos in
    let rest = write_windows ns (suc k) 0 (len - ncap) in
    if len == 0
    then some []
    else (if leb len ncap
        then some (record { node = k; offset = npos; len = len } ∷ [])
        else Option.map (λ ws. record { node = k; offset = npos; len = ncap } ∷ ws) rest)

unfoldable pub get_write_buf : ℕ → M (ℕ × List Window)
get_write_buf len s =
    if len == 0
    then ok (0, []) s
    else let t = add_capacity len s in
      finish_windows t len (write_windows (drop t.cur t.nodes) t.cur (t.position % t.base_size) len)

-- The loop of the constant `read`: `m_cur->size`, here `size`, stands for the size of each node.
unfoldable pub read_const_from : ℕ → List Node → ℕ → ℕ → ℕ → Option (List ℕ)
read_const_from size [] ncap npos n = if n == 0 then some [] else none
read_const_from size (m ∷ ms) ncap npos n =
    let rest = read_const_from size ms size 0 (n - ncap) in
    if n == 0
    then some []
    else (if leb n ncap
        then some (take n (drop npos m.ptr))
        else Option.map (λ bs. take ncap (drop npos m.ptr) ++ bs) rest)

abbrev pub finish_const : ByteArray → Option (List ℕ) → Outcome (List ℕ)
finish_const s none = crash
finish_const s (some bs) = ok bs s

abbrev pub from_cur : ℕ → ℕ → List Node → Option (List ℕ)
from_cur npos n [] = none
from_cur npos n (m ∷ ms) = read_const_from m.size (m ∷ ms) (m.size - npos) npos n

unfoldable pub read_const : ℕ → ℕ → M (List ℕ)
read_const n position s =
    if ltb (get_read_size s) n
    then throws s
    else finish_const s (from_cur (position % s.base_size) n (drop s.cur s.nodes))

unfoldable pub to_string : M (List ℕ)
to_string s = if get_read_size s == 0 then ok [] s else read_const (get_read_size s) s.position s
