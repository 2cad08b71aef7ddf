-- ===== src/ByteArray/Seek.antt =====
-- `setPosition`, and what a client sees of writes and reads in a row: written bytes in front of
-- the position, read bytes behind it.
use kit_server.Common.{
  ℕ, zero, suc, ◌+◌, ◌-◌, ◌≤◌, ◌<◌, ◌≡◌, refl, sym, ap, ◌∙◌, arith, ltb, if◌then◌else◌, List, [],
  ◌∷◌, ◌++◌, length, take, drop, overwrite, max, lt→ltb, not_lt→ltb, take-append_le, take-append_ge,
  drop-overwrite, length-drop, length-append, length-overwrite, length-take, drop-drop,
  drop-append_ge, take_all, overwrite-overwrite, overwrite-append_front,
}
use kit_server.ByteArray.{ByteArray, ok, throws, crash, read, set_position}
use kit_server.ByteArray.Nodes.{length-flat}
use kit_server.ByteArray.ReadWalk.{seek_lem, seek_end}
use kit_server.ByteArray.Invariant.{IsValid}
use kit_server.ByteArray.Transfer.{memory, unread, Wrote, read_lem}
use mathlib.Core.List.{append_assoc}

-- What moving the position does: nothing else changes but the size, which may be raised.
pub record Moved (val : ℕ) (s t : ByteArray) : Type 0 where
  pub valid : IsValid t
  pub at : t.position ≡ val
  pub same_memory : memory t ≡ memory s
  pub sized : t.size ≡ max s.size val
  pub same_capacity : t.capacity ≡ s.capacity
  pub same_base : t.base_size ≡ s.base_size
  pub same_endian : t.endian ≡ s.endian

-- setPosition of a valid array to a position inside the capacity finds the node of the position:
-- the state is valid, has that position, the same memory and capacity, and a size raised to the
-- position if it was below.
pub set_position_lem :
    (val : ℕ) (s : ByteArray)
    → IsValid s
    → val < s.capacity
    → (t : ByteArray) × (set_position val s ≡ ok tt t) × Moved val s t
unfolding set_position
set_position_lem val s v h =
    let (k, e, lo, hi) =
      seek_lem s.base_size s.nodes val v.uniform (omega (arith, v.capacity_eq)) in
    rw (not_lt→ltb s.capacity val (omega arith), e)
      (
        record s { position = val; size = if ltb s.size val then val else s.size; cur = k },
        refl,
        record {
          valid = record {
            base_pos = v.base_pos;
            uniform = v.uniform;
            has_root = v.has_root;
            capacity_eq = v.capacity_eq;
            position_le = ground arith;
            size_le = ground (arith, v.size_le);
            cur_le = lo;
            cur_gt = hi;
          };
          at = refl;
          same_memory = refl;
          sized = ground arith;
          same_capacity = refl;
          same_base = refl;
          same_endian = refl;
        },
      )

-- Behind the capacity it throws and changes nothing.
pub set_position_outside :
    (val : ℕ) (s : ByteArray) → s.capacity < val → set_position val s ≡ throws s
unfolding set_position
set_position_outside val s h = rw (lt→ltb s.capacity val h)

-- setPosition of a valid array to its capacity, which the range test lets through, follows the
-- null pointer.
pub set_position_end : (s : ByteArray) → IsValid s → set_position s.capacity s ≡ crash
unfolding set_position
set_position_end s v = rw (
  not_lt→ltb s.capacity s.capacity (omega arith),
  seek_end s.base_size s.nodes s.capacity v.uniform (omega (arith, v.capacity_eq)),
)

-- Two writes in a row are one write.
pub Wrote-trans :
    (bs cs : List ℕ) (s t u : ByteArray) → Wrote bs s t → Wrote cs t u → Wrote (bs ++ cs) s u
Wrote-trans bs cs s t u w x = record {
  valid = x.valid;
  fill = w.fill ++ x.fill;
  content =
      x.content
      ∙ ap (λ m. overwrite t.position cs (m ++ x.fill)) w.content
      ∙ ap (overwrite t.position cs)
          (sym (overwrite-append_front s.position bs (memory s ++ w.fill) x.fill w.enough))
      ∙ overwrite-overwrite s.position t.position bs cs ((memory s ++ w.fill) ++ x.fill) w.moved
          (omega (arith, w.moved, w.enough, length-append (memory s ++ w.fill) x.fill))
      ∙ ap (overwrite s.position (bs ++ cs)) (append_assoc (memory s) w.fill x.fill);
  enough = omega (
    arith,
    x.enough,
    w.moved,
    length-append bs cs,
    length-append (memory t) x.fill,
    length-append (memory s) w.fill,
    length-append (memory s) (w.fill ++ x.fill),
    length-append w.fill x.fill,
    ap length w.content,
    length-overwrite s.position bs (memory s ++ w.fill),
  );
  moved = omega (arith, w.moved, x.moved, length-append bs cs);
  sized = omega (arith, w.moved, w.sized, x.sized, length-append bs cs);
  same_base = x.same_base ∙ w.same_base;
  same_endian = x.same_endian ∙ w.same_endian;
}

-- What a client sees of a read: the bytes `bs` were the next unread ones, and `rest` is left.
pub record Consumed (bs rest : List ℕ) (s t : ByteArray) : Type 0 where
  pub valid : IsValid t
  pub left : unread t ≡ rest
  pub moved : t.position ≡ s.position + length bs
  pub same_memory : memory t ≡ memory s
  pub same_size : t.size ≡ s.size
  pub same_capacity : t.capacity ≡ s.capacity
  pub same_endian : t.endian ≡ s.endian

pub length-memory : (s : ByteArray) → IsValid s → length (memory s) ≡ s.capacity
length-memory s v = length-flat s.base_size s.nodes v.uniform ∙ sym v.capacity_eq

pub length-unread : (s : ByteArray) → IsValid s → length (unread s) ≡ s.size - s.position
unfolding unread
length-unread s v = omega (
  arith,
  length-take (s.size - s.position) (drop s.position (memory s)),
  length-drop s.position (memory s),
  length-memory s v,
  v.position_le,
  v.size_le,
)

take-take_le : (n m : ℕ) (xs : List ℕ) → n ≤ m → take n (take m xs) ≡ take n xs
take-take_le zero m xs h = refl
take-take_le (suc n) zero xs h = absurd (omega arith)
take-take_le (suc n) (suc m) [] h = refl
take-take_le (suc n) (suc m) (x ∷ xs) h = ap (◌∷◌ x) (take-take_le n m xs (omega arith))

drop-take : (n m k : ℕ) (xs : List ℕ) → m ≡ n + k → drop n (take m xs) ≡ take k (drop n xs)
drop-take zero m k xs e = ap (λ j. take j xs) (let z : m ≡ k = omega arith in z)
drop-take (suc n) zero k xs e = absurd (omega arith)
drop-take (suc n) (suc m) zero [] e = refl
drop-take (suc n) (suc m) (suc k) [] e = refl
drop-take (suc n) (suc m) k (x ∷ xs) e = drop-take n m k xs (omega arith)

-- A read of as many bytes as `bs` has, where these are the next unread ones, returns them.
pub read_next :
    (bs rest : List ℕ) (s : ByteArray)
    → IsValid s
    → unread s ≡ bs ++ rest
    → s.position < s.capacity
    → (t : ByteArray) × (read (length bs) s ≡ ok bs t) × Consumed bs rest s t
read_next bs rest s v e inside =
    let n = length bs in
    let len : length bs + length rest ≡ s.size - s.position =
      omega (arith, length-append bs rest, ap length e, length-unread s v) in
    let (got, t, r, d) = read_lem n s v (omega (arith, v.position_le)) inside in
    let same : got ≡ bs =
      d.content
      ∙ sym (take-take_le n (s.size - s.position) (drop s.position (memory s)) (omega arith))
      ∙ ap (take n) (unfolded s e)
      ∙ take-append_le n bs rest (omega arith)
      ∙ take_all n bs (omega arith) in
    (
      t,
      r ∙ ap (λ x. ok x t) same,
      record {
        valid = d.valid;
        left =
            unread_parts t
            ∙ ap (λ m. take (t.size - t.position) (drop t.position m)) d.same_memory
            ∙ ap (λ xs. take (t.size - t.position) xs)
                (sym (drop-drop n s.position t.position (memory s) d.moved))
            ∙ sym (
                drop-take n (s.size - s.position) (t.size - t.position) (drop s.position (memory s))
                  (omega (arith, d.moved, d.same_size)))
            ∙ ap (drop n) (unfolded s e)
            ∙ drop-append_ge n 0 bs rest (omega arith);
        moved = d.moved;
        same_memory = d.same_memory;
        same_size = d.same_size;
        same_capacity = d.same_capacity;
        same_endian = d.same_endian;
      },
    )
  where
    unread_parts :
        (u : ByteArray) → unread u ≡ take (u.size - u.position) (drop u.position (memory u))
    unread_parts u = unfold unread in refl

    unfolded :
        (u : ByteArray)
        → unread u ≡ bs ++ rest
        → take (u.size - u.position) (drop u.position (memory u)) ≡ bs ++ rest
    unfolded u h = sym (unread_parts u) ∙ h

-- A position in front of unread bytes lies inside the capacity.
pub inside_of_unread :
    (b : ℕ) (bs : List ℕ) (s : ByteArray) → IsValid s → unread s ≡ b ∷ bs → s.position < s.capacity
inside_of_unread b bs s v e = omega (arith, ap length e, length-unread s v, v.size_le)

-- Back at the old position the written bytes are the next unread ones.
pub unread-Wrote :
    (bs : List ℕ) (s t u : ByteArray)
    → Wrote bs s t
    → Moved s.position t u
    → (rest : List ℕ) × (unread u ≡ bs ++ rest)
unfolding unread
unread-Wrote bs s t u w m =
    let behind = drop (s.position + length bs) (memory s ++ w.fill) in
    let k = (u.size - u.position) - length bs in
    (
      take k behind,
      ap (λ xs. take (u.size - u.position) xs)
            (ap (λ p. drop p (memory u)) m.at
              ∙ ap (drop s.position) (m.same_memory ∙ w.content)
              ∙ drop-overwrite s.position (s.position + length bs) bs (memory s ++ w.fill) refl
                  w.enough)
          ∙ take-append_ge (u.size - u.position) k bs behind
              (omega (arith, m.at, m.sized, w.sized)),
    )
