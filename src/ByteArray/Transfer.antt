-- ===== src/ByteArray/Transfer.antt =====
-- `write` and `read` against flat memory: what they store and return, and that they never follow
-- the null pointer where the array is valid.
use kit_server.Common.{
  ℕ, suc, ◌+◌, ◌-◌, ◌*◌, ◌%◌, ◌≤◌, ◌<◌, ◌≡◌, refl, sym, ap, ◌∙◌, arith, some, dec_lt, drop_all,
  overwrite-nil, List, [], ◌∷◌, ◌++◌, length, take, drop, overwrite, lt→ltb, not_lt→ltb, max,
  length-drop, length-append, drop-drop, suc_==_zero,
}
use kit_server.ByteArray.{
  Node, ByteArray, ok, throws, crash, add_capacity, write, write_at, finish_write, read, read_from,
  get_read_size,
}
use kit_server.ByteArray.Nodes.{flat, length-flat, Uniform-drop, flat-drop, Written, write_at_lem}
use kit_server.ByteArray.ReadWalk.{read_from_lem}
use kit_server.ByteArray.Invariant.{IsValid, Grown, add_capacity-Grown}
use mathlib.Core.List.{append-nil}
use native.Mathlib.Nat.{mul-add-mod_self_right, mod-eq_of_lt}

-- The whole memory, and the part of it that `read` may return.
abbrev pub memory : ByteArray → List ℕ
memory s = flat s.nodes

unfoldable pub unread : ByteArray → List ℕ
unread s = take (s.size - s.position) (drop s.position (memory s))

-- The offset of the position in its node.
pub position_offset :
    (s : ByteArray)
    → IsValid s
    → (s.position ≡ s.cur * s.base_size + s.position % s.base_size)
      × (s.position % s.base_size < s.base_size)
position_offset s v = (omega (arith, offset_eq), omega (arith, offset_eq, v.cur_gt, v.cur_le))
  where
    r : ℕ
    r = s.position - s.cur * s.base_size

    parts : s.position ≡ s.cur * s.base_size + r
    parts = omega (arith, v.cur_le)

    offset_eq : s.position % s.base_size ≡ r
    offset_eq =
        ap (λ (p : ℕ). p % s.base_size) parts
        ∙ mul-add-mod_self_right s.cur s.base_size r
        ∙ mod-eq_of_lt (omega (arith, v.cur_gt, v.cur_le))

-- What `write bs` does to a valid array: it is valid again, the bytes lie at the old position in
-- memory that may have grown behind its end, and the position moves behind them.
pub record Wrote (bs : List ℕ) (s t : ByteArray) : Type 0 where
  pub valid : IsValid t
  pub fill : List ℕ
  pub content : memory t ≡ overwrite s.position bs (memory s ++ fill)
  pub enough : s.position + length bs ≤ length (memory s ++ fill)
  pub moved : t.position ≡ s.position + length bs
  pub sized : t.size ≡ max s.size (s.position + length bs)
  pub same_base : t.base_size ≡ s.base_size
  pub same_endian : t.endian ≡ s.endian

length-memory : (s : ByteArray) → IsValid s → length (memory s) ≡ s.capacity
length-memory s v = length-flat s.base_size s.nodes v.uniform ∙ sym v.capacity_eq

finish_write-Wrote :
    (bs : List ℕ) (s g : ByteArray) (r : List Node × ℕ)
    → Grown (length bs) s g
    → Written g.base_size g.position bs g.nodes r
    → (t : ByteArray) × (finish_write g (length bs) (some r) ≡ ok tt t) × Wrote bs s t
finish_write-Wrote bs s g r gr w = (
  _,
  refl,
  record {
    valid = record {
      base_pos = gr.valid.base_pos;
      uniform = w.uniform;
      has_root = omega (arith, w.same_length, gr.valid.has_root);
      capacity_eq = rw w.same_length gr.valid.capacity_eq;
      position_le = ground arith;
      size_le = ground (arith, gr.room, gr.valid.size_le, gr.same_position);
      cur_le = w.not_before;
      cur_gt = w.not_behind;
    };
    fill = gr.fill;
    content = w.content ∙ rw (gr.same_position, gr.content);
    enough = omega (arith, gr.room, length-memory g gr.valid, ap length gr.content);
    moved = omega (arith, gr.same_position);
    sized = ground (arith, gr.same_position, gr.same_size);
    same_base = gr.same_base;
    same_endian = gr.same_endian;
  },
)

write-Grown :
    (bs : List ℕ) (s g : ByteArray)
    → Grown (length bs) s g
    → 0 < length bs
    → (t : ByteArray) × (finish_write g
          (length bs)
          (write_at g.cur g.nodes (g.position % g.base_size) bs)
        ≡ ok tt t)
      × Wrote bs s t
write-Grown bs s g gr h =
    let (split, small) = position_offset g gr.valid in
    let (r, e, w) =
      write_at_lem g.base_size g.cur g.nodes (g.position % g.base_size) g.position bs
        gr.valid.uniform small h split
        (omega (arith, gr.room, gr.same_position, gr.valid.capacity_eq)) in
    rw e (finish_write-Wrote bs s g r gr w)

Wrote-nil : (s : ByteArray) → IsValid s → Wrote [] s s
Wrote-nil s v = record {
  valid = v;
  fill = [];
  content = sym (overwrite-nil s.position (memory s ++ []) ∙ append-nil (memory s));
  enough = omega (arith, v.position_le, v.size_le, length-memory s v, length-append (memory s) []);
  moved = omega arith;
  sized = omega (arith, v.position_le);
  same_base = refl;
  same_endian = refl;
}

-- From every valid state `write` returns: the new state is valid, the flat memory is the old
-- one, extended behind its end if needed, overwritten at the old position, the position moves by
-- the number of bytes, and the size becomes the larger of the old size and the new position.
pub write_lem :
    (bs : List ℕ) (s : ByteArray)
    → IsValid s
    → (t : ByteArray) × (write bs s ≡ ok tt t) × Wrote bs s t
unfolding write
write_lem [] s v = (s, refl, Wrote-nil s v)
write_lem (b ∷ bs) s v = rw (suc_==_zero (length bs)) (
    write-Grown (b ∷ bs) s (add_capacity (length (b ∷ bs)) s)
      (add_capacity-Grown (length (b ∷ bs)) s v) (omega arith))

-- What `read n` does to a valid array: it returns the first `n` unread bytes and moves behind them.
pub record DidRead (n : ℕ) (s : ByteArray) (bs : List ℕ) (t : ByteArray) : Type 0 where
  pub valid : IsValid t
  pub content : bs ≡ take n (drop s.position (memory s))
  pub same_memory : memory t ≡ memory s
  pub moved : t.position ≡ s.position + n
  pub same_size : t.size ≡ s.size
  pub same_capacity : t.capacity ≡ s.capacity
  pub same_base : t.base_size ≡ s.base_size
  pub same_endian : t.endian ≡ s.endian

pub lt_of_mul : (a b c : ℕ) → a * c < b * c → a < b
lt_of_mul a b c h = elim (dec_lt a b) [ yes p ↦ p | no p ↦ absurd (grind arith) ]

-- In a valid state whose position is inside the capacity, `read n` with n not above the readable
-- size returns the n bytes of flat memory at the position, leaves memory and sizes as they are,
-- moves the position by n and leaves a valid state.
pub read_lem :
    (n : ℕ) (s : ByteArray)
    → IsValid s
    → s.position + n ≤ s.size
    → s.position < s.capacity
    → (bs : List ℕ) × (t : ByteArray) × (read n s ≡ ok bs t) × DidRead n s bs t
unfolding read
read_lem n s v fits inside =
    let (split, small) = position_offset s v in
    let cur_lt : s.cur < length s.nodes =
      lt_of_mul s.cur (length s.nodes) s.base_size (omega (arith, v.cur_le, v.capacity_eq)) in
    let left = length s.nodes - s.cur in
    let whole : length s.nodes ≡ s.cur + left = omega arith in
    let (r, e, t) =
      read_from_lem s.base_size (drop s.cur s.nodes) (s.position % s.base_size) n
        (Uniform-drop s.base_size s.cur s.nodes v.uniform) small
        (omega (arith, length-drop s.cur s.nodes))
        (rw (length-drop s.cur s.nodes)
          (omega (arith, v.capacity_eq, v.size_le, ap (λ (k : ℕ). k * s.base_size) whole))) in
    rw (not_lt→ltb (get_read_size s) n (omega arith), e)
      (
        r.0,
        record s { cur = s.cur + r.1; position = s.position + n },
        refl,
        record {
          valid = record {
            base_pos = v.base_pos;
            uniform = v.uniform;
            has_root = v.has_root;
            capacity_eq = v.capacity_eq;
            position_le = fits;
            size_le = v.size_le;
            cur_le = omega (arith, t.not_before);
            cur_gt = omega (arith, t.not_behind);
          };
          content =
              t.content
              ∙ ap (λ bs. take n (drop (s.position % s.base_size) bs))
                  (flat-drop s.base_size s.cur (s.cur * s.base_size) s.nodes v.uniform refl)
              ∙ ap (take n) (
                  drop-drop (s.position % s.base_size) (s.cur * s.base_size) s.position (memory s)
                    split);
          same_memory = refl;
          moved = refl;
          same_size = refl;
          same_capacity = refl;
          same_base = refl;
          same_endian = refl;
        },
      )

-- A read of more than the unread bytes throws and changes nothing; at the very end of the last
-- node a read of no bytes follows the null pointer.
pub read_short : (n : ℕ) (s : ByteArray) → s.size - s.position < n → read n s ≡ throws s
unfolding read
read_short n s h = rw (lt→ltb (get_read_size s) n h)

pub read_end : (s : ByteArray) → IsValid s → s.position ≡ s.capacity → read 0 s ≡ crash
unfolding read read_from
read_end s v e =
    let past : length s.nodes ≤ s.cur =
      le_of_mul (length s.nodes) s.cur s.base_size (omega (arith, v.capacity_eq, v.cur_gt)) in
    rw (not_lt→ltb (get_read_size s) 0 (omega arith), drop_all s.cur s.nodes past, read_from)
  where
    le_of_mul : (a b c : ℕ) → a * c < b * c + c → a ≤ b
    le_of_mul a b c h = omega (arith, lt_of_mul a (suc b) c (omega arith))
