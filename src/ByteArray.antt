-- ===== src/ByteArray.antt =====
-- kit_server/bytearray.h and kit_server/bytearray.cpp: the byte array, a chain of memory nodes of
-- one size with a position in it.
--
-- The chain is a list of nodes, and `m_cur` is the index of a node in it; the length of the list
-- stands for the null pointer behind the last node. Walks that follow `next` are recursions on the
-- list. Every read of a field through the null pointer is a `crash`. `new char[n]` leaves its bytes
-- undetermined in the source; here they are 0, and no theorem says what a byte holds that was not
-- written. `m_nodeSum` is never used by the source.
pub mod Nodes
pub mod ReadWalk
pub mod Invariant
pub mod Transfer
pub mod Seek
pub mod Rules
pub mod Sequence
pub mod Items
pub mod RoundTrip
pub mod StringLimits
mod Tests
pub mod Buffers
pub mod Typed
use kit_server.Common.{
  ℕ, zero, suc, ◌+◌, ◌-◌, ◌*◌, ◌/◌, ◌%◌, ltb, leb, ◌==◌, if◌then◌else◌, List, [], ◌∷◌, ◌++◌, length,
  take, drop, replicate, overwrite, get_elem?, Option, none, some,
}
use kit_server.Codec.Endian.{Endian, big, small}
use mathlib.Core.Bool.{Bool, true, false}
use mathlib.Core.Option

pub record Node : Type 0 where
  pub ptr : List ℕ
  pub size : ℕ

pub record ByteArray : Type 0 where
  pub base_size : ℕ
  pub position : ℕ
  pub capacity : ℕ
  pub size : ℕ
  pub endian : Endian
  pub nodes : List Node
  pub cur : ℕ

-- What an operation does: it returns a value and leaves a state, or throws `std::out_of_range`
-- and leaves a state, or follows the null pointer.
pub data Outcome {ℓ} (A : Type ℓ) : Type ℓ where
  ok : A → ByteArray → Outcome A
  throws : ByteArray → Outcome A
  crash : Outcome A

abbrev pub M {ℓ} : Type ℓ → Type ℓ
M A = ByteArray → Outcome A

abbrev pub and_then {ℓ κ} : {A : Type ℓ} {B : Type κ} → Outcome A → (A → M B) → Outcome B
and_then (ok a s) f = f a s
and_then (throws s) f = throws s
and_then crash f = crash

infixl 5 ◌>>=◌ ◌>>◌
abbrev pub ◌>>=◌ {ℓ κ} : {A : Type ℓ} {B : Type κ} → M A → (A → M B) → M B
◌>>=◌ m f s = and_then (m s) f

abbrev pub ◌>>◌ {ℓ} : {B : Type ℓ} → M (Unit {0}) → M B → M B
◌>>◌ m k s = and_then (m s) (λ _. k)

abbrev pub return {ℓ} : {A : Type ℓ} → A → M A
return a s = ok a s

-- `new Node(size)`.
unfoldable pub new_node : ℕ → Node
new_node n = record { ptr = replicate n 0; size = n }

-- The constructor: one node, network byte order.
unfoldable pub create : ℕ → ByteArray
create base_size = record {
  base_size = base_size;
  position = 0;
  capacity = base_size;
  size = 0;
  endian = big;
  nodes = new_node base_size ∷ [];
  cur = 0;
}

-- Only the root node stays, with what it holds.
unfoldable pub clear : ByteArray → ByteArray
clear s = record s {
  position = 0;
  size = 0;
  capacity = s.base_size;
  nodes = take 1 s.nodes;
  cur = 0;
}

abbrev pub get_read_size : ByteArray → ℕ
get_read_size s = s.size - s.position

abbrev pub get_remain_capacity : ByteArray → ℕ
get_remain_capacity s = s.capacity - s.position

-- `ceil(1.0 * n / m_baseSize)`, which is exact below 2 ^ 53.
abbrev pub ceil_div : ℕ → ℕ → ℕ
ceil_div n base = (n + base - 1) / base

-- Nodes are added behind the last one. Where the capacity was used up, `m_cur` is set to the first
-- new node.
unfoldable pub grow : ℕ → ℕ → ByteArray → ByteArray
grow count remain s = record s {
  nodes = s.nodes ++ replicate count (new_node s.base_size);
  capacity = s.capacity + count * s.base_size;
  cur = if remain == 0 then length s.nodes else s.cur;
}

unfoldable pub add_capacity : ℕ → ByteArray → ByteArray
add_capacity n s =
    if n == 0
    then s
    else (if leb n (get_remain_capacity s)
        then s
        else grow (ceil_div (n - get_remain_capacity s) s.base_size) (get_remain_capacity s) s)

-- `memcpy(node->ptr + npos, bytes, size)`.
abbrev pub copy_in : Node → ℕ → List ℕ → Node
copy_in n npos bytes = record n { ptr = overwrite npos bytes n.ptr }

-- The loop of `write` from the node of `m_cur` on: the nodes after it, and by how many nodes
-- `m_cur` has moved. `none` is the null pointer.
unfoldable pub write_from : List Node → ℕ → List ℕ → Option (List Node × ℕ)
write_from [] npos buf = none
write_from (n ∷ ns) npos buf =
    let ncap = n.size - npos in
    let rest = write_from ns 0 (drop ncap buf) in
    if leb (length buf) ncap
    then some (copy_in n npos buf ∷ ns, if n.size == npos + length buf then 1 else 0)
    else Option.map (λ r. (copy_in n npos (take ncap buf) ∷ r.0, suc r.1)) rest

-- The same with the nodes before `m_cur`; the number is the new index of `m_cur`.
unfoldable pub write_at : ℕ → List Node → ℕ → List ℕ → Option (List Node × ℕ)
write_at zero ns npos buf = write_from ns npos buf
write_at (suc k) [] npos buf = none
write_at (suc k) (n ∷ ns) npos buf = Option.map (λ r. (n ∷ r.0, suc r.1)) (write_at k ns npos buf)

abbrev pub finish_write : ByteArray → ℕ → Option (List Node × ℕ) → Outcome (Unit {0})
finish_write s n none = crash
finish_write s n (some (ns, k)) =
    let end = s.position + n in
    ok tt (record s {
      nodes = ns;
      cur = k;
      position = end;
      size = if ltb s.size end then end else s.size;
    })

unfoldable pub write : List ℕ → M (Unit {0})
write buf s =
    if length buf == 0
    then ok tt s
    else let s' = add_capacity (length buf) s in
      finish_write s' (length buf) (write_at s'.cur s'.nodes (s'.position % s'.base_size) buf)

-- The loop of `read` from the node of `m_cur` on. The size of that node is read in any case.
unfoldable pub read_from : List Node → ℕ → ℕ → Option (List ℕ × ℕ)
read_from [] npos n = none
read_from (m ∷ ms) npos n =
    let ncap = m.size - npos in
    let rest = read_from ms 0 (n - ncap) in
    if n == 0
    then some ([], 0)
    else (if leb n ncap
        then some (take n (drop npos m.ptr), if m.size == npos + n then 1 else 0)
        else Option.map (λ r. (take ncap (drop npos m.ptr) ++ r.0, suc r.1)) rest)

abbrev pub finish_read : ByteArray → ℕ → Option (List ℕ × ℕ) → Outcome (List ℕ)
finish_read s n none = crash
finish_read s n (some (bs, k)) = ok bs (record s { cur = s.cur + k; position = s.position + n })

unfoldable pub read : ℕ → M (List ℕ)
read n s =
    if ltb (get_read_size s) n
    then throws s
    else finish_read s n (read_from (drop s.cur s.nodes) (s.position % s.base_size) n)

-- The loop of `setPosition`: how many nodes `m_cur` moves from the root.
unfoldable pub seek : List Node → ℕ → Option ℕ
seek [] val = none
seek (n ∷ ns) val =
    let rest = seek ns (val - n.size) in if leb n.size val then Option.map suc rest else some 0

abbrev pub finish_seek : ByteArray → ℕ → Option ℕ → Outcome (Unit {0})
finish_seek s val none = crash
finish_seek s val (some k) =
    ok tt (record s { position = val; size = if ltb s.size val then val else s.size; cur = k })

unfoldable pub set_position : ℕ → M (Unit {0})
set_position val s = if ltb s.capacity val then throws s else finish_seek s val (seek s.nodes val)

unfoldable pub is_small_endian : ByteArray → Bool
is_small_endian s = elim s.endian [ small ↦ true | big ↦ false ]

unfoldable pub set_small_endian : Bool → ByteArray → ByteArray
set_small_endian val s = record s { endian = if val then small else big }
