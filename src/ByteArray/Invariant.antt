-- ===== src/ByteArray/Invariant.antt =====
-- The invariant of the byte array, and the operations that do not move data: the constructor,
-- `clear`, `setIsSmallEndian` and `addCapacity`.
use kit_server.Common.{
  ℕ, zero, suc, ◌+◌, ◌-◌, ◌*◌, ◌%◌, ◌≤◌, ◌<◌, ◌≡◌, refl, sym, ap, ◌∙◌, arith, leb, ◌==◌, List, [],
  ◌∷◌, ◌++◌, length, take, replicate, length-append, length-replicate, Bool-cases, inl, inr, leb→le,
  leb→lt, ==_iff, Bool,
}
use kit_server.ByteArray.{
  Node, ByteArray, new_node, create, clear, grow, add_capacity, ceil_div, get_remain_capacity,
  set_small_endian,
}
use kit_server.ByteArray.Nodes.{Uniform, flat, flat-append, Uniform-append, replicate-Uniform}
use mathlib.Core.List.{append-nil}
use native.Mathlib.Nat.{div-add-mod', mod-lt}

-- The nodes are of one size and their number is the capacity; the position lies in the written
-- part, and `m_cur` is the node of the position: the null pointer exactly at the end of the last.
pub record IsValid (s : ByteArray) : Type 0 where
  pub base_pos : 0 < s.base_size
  pub uniform : Uniform s.base_size s.nodes
  pub has_root : 0 < length s.nodes
  pub capacity_eq : s.capacity ≡ length s.nodes * s.base_size
  pub position_le : s.position ≤ s.size
  pub size_le : s.size ≤ s.capacity
  pub cur_le : s.cur * s.base_size ≤ s.position
  pub cur_gt : s.position < s.cur * s.base_size + s.base_size

pub create-IsValid : (base : ℕ) → 0 < base → IsValid (create base)
unfolding create new_node
create-IsValid base h = record {
  base_pos = h;
  uniform = (refl, length-replicate base 0, tt);
  has_root = omega arith;
  capacity_eq = omega arith;
  position_le = omega arith;
  size_le = omega arith;
  cur_le = omega arith;
  cur_gt = omega arith;
}

take_root-Uniform :
    (base : ℕ) (ns : List Node)
    → Uniform base ns
    → 0 < length ns
    → Uniform base (take 1 ns) × (length (take 1 ns) ≡ 1)
take_root-Uniform base [] u h = absurd (omega arith)
take_root-Uniform base (n ∷ ns) u h = ((u.0, u.1, tt), refl)

pub clear-IsValid : (s : ByteArray) → IsValid s → IsValid (clear s)
unfolding clear
clear-IsValid s v =
    let (u, one) = take_root-Uniform s.base_size s.nodes v.uniform v.has_root in
    record {
      base_pos = v.base_pos;
      uniform = u;
      has_root = omega arith;
      capacity_eq = rw one (omega arith);
      position_le = omega arith;
      size_le = omega arith;
      cur_le = omega arith;
      cur_gt = omega (arith, v.base_pos);
    }

pub set_small_endian-IsValid :
    (b : Bool) (s : ByteArray) → IsValid s → IsValid (set_small_endian b s)
unfolding set_small_endian
set_small_endian-IsValid b s v = record {
  base_pos = v.base_pos;
  uniform = v.uniform;
  has_root = v.has_root;
  capacity_eq = v.capacity_eq;
  position_le = v.position_le;
  size_le = v.size_le;
  cur_le = v.cur_le;
  cur_gt = v.cur_gt;
}

-- `ceil_div` is the least number of nodes that hold `n` bytes.
pub ceil_div_bounds :
    (n base : ℕ) → 0 < base → (n ≤ ceil_div n base * base) × (ceil_div n base * base < n + base)
ceil_div_bounds n base h =
    let lt : (n + base - 1) % base < base = mod-lt _ h in
    (
      omega (arith, div-add-mod' (n + base - 1) base),
      omega (arith, div-add-mod' (n + base - 1) base),
    )

-- What `addCapacity n` does: room for `n` bytes at the position, with less than a node to spare if
-- it grew; all else that can be seen is kept.
pub record Grown (n : ℕ) (s t : ByteArray) : Type 0 where
  pub valid : IsValid t
  pub room : s.position + n ≤ t.capacity
  pub least : (s.capacity < t.capacity) → t.capacity < s.position + n + s.base_size
  pub same_base : t.base_size ≡ s.base_size
  pub same_position : t.position ≡ s.position
  pub same_size : t.size ≡ s.size
  pub same_endian : t.endian ≡ s.endian
  pub fill : List ℕ
  pub content : flat t.nodes ≡ flat s.nodes ++ fill

grow-IsValid :
    (count : ℕ) (s : ByteArray)
    → IsValid s
    → 0 < count
    → IsValid (grow count (get_remain_capacity s) s)
unfolding grow
grow-IsValid count s v pos =
    let nodes = s.nodes ++ replicate count (new_node s.base_size) in
    let len : length nodes ≡ length s.nodes + count =
      length-append s.nodes (replicate count (new_node s.base_size))
      ∙ ap (λ (k : ℕ). length s.nodes + k) (length-replicate count (new_node s.base_size)) in
    record {
      base_pos = v.base_pos;
      uniform =
          Uniform-append s.base_size s.nodes _ v.uniform (replicate-Uniform s.base_size count);
      has_root = omega (arith, v.has_root);
      capacity_eq = rw len (omega (arith, v.capacity_eq));
      position_le = v.position_le;
      size_le = omega (arith, v.size_le);
      cur_le = grind (arith, v.cur_le, v.cur_gt, v.capacity_eq, v.position_le, v.size_le);
      cur_gt = grind (arith, v.cur_le, v.cur_gt, v.capacity_eq, v.position_le, v.size_le);
    }

grow-Grown :
    (n : ℕ) (s : ByteArray)
    → IsValid s
    → get_remain_capacity s < n
    → Grown n s (grow (ceil_div (n - get_remain_capacity s) s.base_size) (get_remain_capacity s) s)
grow-Grown n s v h = record {
  valid = grow-IsValid count s v positive;
  room = unfold grow in omega (arith, bounds.0, v.position_le, v.size_le);
  least = unfold grow in λ _. omega (arith, bounds.1, v.position_le, v.size_le);
  same_base = unfold grow in refl;
  same_position = unfold grow in refl;
  same_size = unfold grow in refl;
  same_endian = unfold grow in refl;
  fill = flat (replicate count (new_node s.base_size));
  content = unfold grow in flat-append s.nodes (replicate count (new_node s.base_size));
}
  where
    need : ℕ
    need = n - get_remain_capacity s

    count : ℕ
    count = ceil_div need s.base_size

    bounds : (need ≤ count * s.base_size) × (count * s.base_size < need + s.base_size)
    bounds = ceil_div_bounds need s.base_size v.base_pos

    no_node : (c b : ℕ) → need ≤ c * b → 0 < c
    no_node zero b p = absurd (omega arith)
    no_node (suc c) b p = omega arith

    positive : 0 < count
    positive = no_node count s.base_size bounds.0

Grown-self : (n : ℕ) (s : ByteArray) → IsValid s → n ≤ get_remain_capacity s → Grown n s s
Grown-self n s v h = record {
  valid = v;
  room = omega (arith, v.position_le, v.size_le);
  least = λ lt. absurd (omega arith);
  same_base = refl;
  same_position = refl;
  same_size = refl;
  same_endian = refl;
  fill = [];
  content = sym (append-nil (flat s.nodes));
}

-- addCapacity n of a valid array leaves a valid array with room for n bytes at the position;
-- where it grew, less than one node of the room is to spare; memory is extended behind its end
-- only, and position, size, node size and byte order stay.
pub add_capacity-Grown : (n : ℕ) (s : ByteArray) → IsValid s → Grown n s (add_capacity n s)
unfolding add_capacity
add_capacity-Grown n s v = elim (Bool-cases (n == 0)) [
  | inl none_needed ↦ rw none_needed (Grown-self n s v (omega (arith, (==_iff n 0).0 none_needed)))
  | inr some_needed ↦ elim (Bool-cases (leb n (get_remain_capacity s))) [
    | inl fits ↦ rw (some_needed, fits) (Grown-self n s v (leb→le _ _ fits))
    | inr short ↦ rw (some_needed, short) (grow-Grown n s v (leb→lt _ _ short))
  ]
]
