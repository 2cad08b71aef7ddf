-- ===== src/ByteArray/Buffers/Gather.antt =====
-- getReadBuf, getWriteBuf and toString of a valid array.
use kit_server.Common.{
  ℕ, zero, suc, ◌+◌, ◌-◌, ◌*◌, ◌%◌, ◌≤◌, ◌<◌, ◌≡◌, refl, sym, ap, ◌∙◌, arith, ltb, leb, ◌==◌,
  if◌then◌else◌, List, [], ◌∷◌, ◌++◌, length, take, drop, some, Bool-cases, inl, inr, leb→le,
  leb→lt, not_lt→ltb, suc_==_zero, take-append_le, take-append_ge, drop-append_le, take_all,
  length-drop, drop-drop, subst,
}
use kit_server.ByteArray.{Node, ByteArray, ok, throws, crash, get_read_size, add_capacity}
use kit_server.ByteArray.Nodes.{Uniform, flat, Uniform-drop, flat-drop}
use kit_server.ByteArray.Invariant.{IsValid, Grown, add_capacity-Grown}
use kit_server.ByteArray.Transfer.{memory, unread, position_offset, lt_of_mul}
use kit_server.ByteArray.Buffers.{
  Window, clamp_len, get_read_buf, write_windows, get_write_buf, read_const_from, read_const,
  to_string, from_cur, finish_const, finish_windows,
}
use kit_server.ByteArray.Buffers.Windows.{
  gather, write_windows_lem, read_windows-eq-write_windows, read_windows_end,
}
use mathlib.Core.Bool

-- The nodes from `m_cur` on, and what of them lies behind the position.
record Rest (s : ByteArray) : Type 0 where
  uniform : Uniform s.base_size (drop s.cur s.nodes)
  offset : s.position % s.base_size < s.base_size
  extent :
      length (drop s.cur s.nodes) * s.base_size + s.position ≡ s.capacity + s.position % s.base_size
  content :
      (n : ℕ)
      → take n (drop (s.position % s.base_size) (flat (drop s.cur s.nodes)))
        ≡ take n (drop s.position (memory s))

Rest-split : (s : ByteArray) → IsValid s → s.position < s.capacity → Rest s
Rest-split s v inside =
    let (split, small) = position_offset s v in
    let cur_lt : s.cur < length s.nodes =
      lt_of_mul s.cur (length s.nodes) s.base_size (omega (arith, v.cur_le, v.capacity_eq)) in
    let left = length s.nodes - s.cur in
    let whole : length s.nodes ≡ s.cur + left = omega arith in
    record {
      uniform = Uniform-drop s.base_size s.cur s.nodes v.uniform;
      offset = small;
      extent =
          rw (length-drop s.cur s.nodes)
            (omega (arith, v.capacity_eq, split, ap (λ (k : ℕ). k * s.base_size) whole));
      content = λ n.
          ap (λ bs. take n (drop (s.position % s.base_size) bs))
            (flat-drop s.base_size s.cur (s.cur * s.base_size) s.nodes v.uniform refl)
          ∙ ap (take n) (
              drop-drop (s.position % s.base_size) (s.cur * s.base_size) s.position (memory s)
                split);
    }

module _ (s : ByteArray) (v : IsValid s) (len : ℕ) (some_bytes : 0 < clamp_len s len) where
  nonzero : (clamp_len s len == 0) ≡ Bool.false
  nonzero = ground arith

  -- Where some bytes are to be read and they end before the end of the capacity, getReadBuf of
  -- a valid array returns the clamped length and windows whose bytes, in order, are exactly
  -- the flat memory from the position on for that length, and leaves the state alone.
  pub get_read_buf_lem :
      s.position + clamp_len s len < s.capacity
      → (ws : List Window) × (get_read_buf len s ≡ ok (clamp_len s len, ws) s)
        × (gather s.nodes ws ≡ take (clamp_len s len) (drop s.position (memory s)))
  unfolding get_read_buf
  get_read_buf_lem inside =
      let r = Rest-split s v (omega arith) in
      let (ws, e, g) =
        write_windows_lem s.base_size s.nodes (drop s.cur s.nodes) s.cur (s.position % s.base_size)
          (clamp_len s len) refl r.uniform r.offset some_bytes (omega (arith, r.extent)) in
      let same =
        read_windows-eq-write_windows s.base_size (drop s.cur s.nodes) s.cur
          (s.position % s.base_size) (clamp_len s len) r.uniform r.offset some_bytes
          (omega (arith, r.extent)) in
      (ws, rw (nonzero, same, e), g ∙ r.content (clamp_len s len))

  -- Where the bytes to be read, at least one, end exactly at the end of the capacity of a
  -- valid array, getReadBuf follows the null pointer behind the last node.
  pub get_read_buf_end : s.position + clamp_len s len ≡ s.capacity → get_read_buf len s ≡ crash
  unfolding get_read_buf
  get_read_buf_end end =
      let r = Rest-split s v (omega arith) in
      rw (
        nonzero,
        read_windows_end s.base_size (drop s.cur s.nodes) s.cur (s.position % s.base_size)
            (clamp_len s len) r.uniform r.offset some_bytes (omega (arith, r.extent)),
      )

-- For a length above 0, getWriteBuf of a valid array grows the array as addCapacity does and
-- returns windows whose bytes are exactly that many bytes of flat memory from the position on.
pub get_write_buf_lem :
    (s : ByteArray) (len : ℕ)
    → IsValid s
    → 0 < len
    → (ws : List Window) × (get_write_buf len s ≡ ok (len, ws) (add_capacity len s))
      × (gather (add_capacity len s).nodes ws
          ≡ take len (drop s.position (memory (add_capacity len s))))
unfolding get_write_buf
get_write_buf_lem s zero v h = absurd (omega arith)
get_write_buf_lem s (suc n) v h = rw (suc_==_zero n) (grown (add_capacity-Grown (suc n) s v))
  where
    grown :
        {t : ByteArray}
        → Grown (suc n) s t
        → (ws : List Window) × (finish_windows t
              (suc n)
              (write_windows (drop t.cur t.nodes) t.cur (t.position % t.base_size) (suc n))
            ≡ ok (suc n, ws) t)
          × (gather t.nodes ws ≡ take (suc n) (drop s.position (memory t)))
    grown {t} g =
        let r = Rest-split t g.valid (omega (arith, g.room, g.same_position)) in
        let (ws, e, eq) =
          write_windows_lem t.base_size t.nodes (drop t.cur t.nodes) t.cur
            (t.position % t.base_size) (suc n) refl r.uniform r.offset (omega arith)
            (omega (arith, r.extent, g.room, g.same_position)) in
        (
          ws,
          ap (finish_windows t (suc n)) e,
          eq ∙ r.content (suc n) ∙ ap (λ p. take (suc n) (drop p (memory t))) g.same_position,
        )

-- The constant read in the node of `m_cur`, where all nodes have one size.
read_const_from_lem :
    (base : ℕ) (ns : List Node) (npos n : ℕ)
    → Uniform base ns
    → npos < base
    → npos + n ≤ length ns * base
    → read_const_from base ns (base - npos) npos n ≡ some (take n (drop npos (flat ns)))
unfolding read_const_from flat
read_const_from_lem base [] npos zero u h fits = refl
read_const_from_lem base [] npos (suc n) u h fits = absurd (omega arith)
read_const_from_lem base (m ∷ ms) npos zero u h fits = refl
read_const_from_lem base (m ∷ ms) npos (suc n) u h fits =
    let ncap = base - npos in
    let front = drop-append_le npos m.ptr (flat ms) (omega arith) in
    elim (Bool-cases (leb (suc n) ncap)) [
      | inl within ↦
          let le : suc n ≤ ncap = leb→le _ _ within in
          rw (suc_==_zero n, within)
            (ap some (
              sym (
                ap (take (suc n)) front
                ∙ take-append_le (suc n) (drop npos m.ptr) (flat ms)
                    (omega (arith, length-drop npos m.ptr)))))
      | inr across ↦
          let lt : ncap < suc n = leb→lt _ _ across in
          let from_start : base - 0 ≡ base = omega arith in
          let tail : read_const_from base ms base 0 (suc n - ncap)
              ≡ some (take (suc n - ncap) (flat ms)) =
            subst
              (λ (c : ℕ).
                read_const_from base ms c 0 (suc n - ncap) ≡ some (take (suc n - ncap) (flat ms)))
              from_start
              (read_const_from_lem base ms 0 (suc n - ncap) u.2 (omega arith) (omega arith)) in
          rw (suc_==_zero n, across, tail)
            (ap some (
              ap (λ bs. bs ++ take (suc n - ncap) (flat ms))
                (take_all ncap (drop npos m.ptr) (omega (arith, length-drop npos m.ptr)))
              ∙ sym (
                  ap (take (suc n)) front
                  ∙ take-append_ge (suc n) (suc n - ncap) (drop npos m.ptr) (flat ms)
                      (omega (arith, length-drop npos m.ptr)))))
    ]

from_cur_lem :
    (base : ℕ) (ns : List Node) (npos n : ℕ)
    → Uniform base ns
    → npos < base
    → 0 < n
    → npos + n ≤ length ns * base
    → from_cur npos n ns ≡ some (take n (drop npos (flat ns)))
from_cur_lem base [] npos n u h p fits = absurd (omega arith)
from_cur_lem base (m ∷ ms) npos n u h p fits =
    let base_eq : m.size ≡ base = u.0 in
    subst
      (λ (c : ℕ).
        read_const_from c (m ∷ ms) (c - npos) npos n ≡ some (take n (drop npos (flat (m ∷ ms)))))
      (sym base_eq) (read_const_from_lem base (m ∷ ms) npos n u h fits)

-- toString of a valid array returns all bytes between the position and the size, also when there
-- are none, and changes nothing.
to_string_lem : (s : ByteArray) → IsValid s → to_string s ≡ ok (unread s) s
unfolding to_string unread read_const
to_string_lem s v = by_size (get_read_size s) refl
  where
    by_size :
        (n : ℕ)
        → get_read_size s ≡ n
        → (if n == 0
            then ok [] s
            else (if ltb n n
                then throws s
                else finish_const s (from_cur (s.position % s.base_size) n (drop s.cur s.nodes))))
          ≡ ok (take n (drop s.position (memory s))) s
    by_size zero e = refl
    by_size (suc n) e =
        let r = Rest-split s v (omega (arith, v.position_le, v.size_le)) in
        rw
          (
            suc_==_zero n,
            not_lt→ltb (suc n) (suc n) (omega arith),
            from_cur_lem s.base_size (drop s.cur s.nodes) (s.position % s.base_size) (suc n)
                r.uniform r.offset (omega arith)
                (omega (arith, r.extent, v.position_le, v.size_le)),
          )
          (ap (λ bs. ok bs s) (r.content (suc n)))
