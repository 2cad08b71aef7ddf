-- ===== src/FdManager.antt =====
-- kit_server/fdmanager.cpp and fdmanager.h: descriptor contexts and their table.
--
-- A descriptor is an int. What `fstat` answers about it, and the flags that `fcntl` gets, are
-- parameters; a call of `fcntl` that sets O_NONBLOCK is a result. A context in the table is told from
-- others by the address that `new` gave it, an argument of the operation. `get` takes the read lock
-- first and the write lock later: they are two steps, `get_read` and `get_write`, between which other
-- threads may run. An index outside the vector has no defined result: `none`.
pub mod Table
pub mod Race
mod Tests
use kit_server.Common.{
  ℕ, zero, suc, ◌+◌, ◌-◌, ◌*◌, ◌/◌, ◌%◌, ◌^◌, ltb, leb, if◌then◌else◌, List, [], ◌∷◌, Option, none,
  some, Bool, true, false, not,
}
use mathlib.Core.Option
use kit_server.Common.Ints.{ℤ, pos, negsuc}

pub record FdCtx : Type 0 where
  pub is_init : Bool
  pub is_socket : Bool
  pub user_nonblock : Bool
  pub sys_nonblock : Bool
  pub is_closed : Bool
  pub fd : ℤ
  pub recv_timeout : ℕ
  pub send_timeout : ℕ

-- What `fstat` answers: an error, or whether the descriptor is a socket.
pub data Stat : Type 0 where
  stat_error : Stat
  stat_ok : Bool → Stat

-- Whether `fcntl` is called to set O_NONBLOCK, by whether it is set already.
abbrev pub Sets : Type 0
Sets = Bool

-- The branch on `m_isSocket`, and the two assignments behind it.
unfoldable pub init_socket : Bool → FdCtx → FdCtx × Sets
init_socket nonblock c =
    if c.is_socket
    then (record c { sys_nonblock = true; user_nonblock = false; is_closed = false }, not nonblock)
    else (record c { sys_nonblock = false; user_nonblock = false; is_closed = false }, false)

unfoldable pub init_stat : Stat → FdCtx → FdCtx
init_stat stat_error c = record c { is_init = false; is_socket = false }
init_stat (stat_ok socket) c = record c { is_init = true; is_socket = socket }

-- FdCtx::init: the context, whether O_NONBLOCK is set by it, and the answer.
unfoldable pub init : Stat → Bool → FdCtx → FdCtx × Sets × Bool
init stat nonblock c =
    let r = init_socket nonblock (init_stat stat c) in
    if c.is_init then (c, false, true) else (r.0, r.1, r.0.is_init)

-- The members before the constructor's call of `init`; -1 is the largest uint64_t.
abbrev pub blank : ℤ → FdCtx
blank fd = record {
  is_init = false;
  is_socket = false;
  user_nonblock = false;
  sys_nonblock = false;
  is_closed = false;
  fd = fd;
  recv_timeout = 2 ^ 64 - 1;
  send_timeout = 2 ^ 64 - 1;
}

unfoldable pub new_fd_ctx : Stat → Bool → ℤ → FdCtx
new_fd_ctx stat nonblock fd = (init stat nonblock (blank fd)).0

-- SO_RCVTIMEO or any other type.
unfoldable pub set_timeout : (receive : Bool) → ℕ → FdCtx → FdCtx
set_timeout receive time c =
    if receive then record c { recv_timeout = time } else record c { send_timeout = time }

unfoldable pub get_timeout : (receive : Bool) → FdCtx → ℕ
get_timeout receive c = if receive then c.recv_timeout else c.send_timeout

-- A pointer to a context: its address and the context.
abbrev pub Ptr : Type 0
Ptr = Option (ℕ × FdCtx)

-- `m_fds`.
abbrev pub FdManager : Type 0
FdManager = List Ptr

unfoldable pub size : FdManager → ℕ
size [] = 0
size (p ∷ m) = suc (size m)

-- `m_fds[i]`, and the assignment to it.
unfoldable pub at : FdManager → ℕ → Option Ptr
at [] i = none
at (p ∷ m) zero = some p
at (p ∷ m) (suc i) = at m i

unfoldable pub assign : ℕ → Ptr → FdManager → Option FdManager
assign i q [] = none
assign zero q (p ∷ m) = some (q ∷ m)
assign (suc i) q (p ∷ m) = Option.map (λ r. p ∷ r) (assign i q m)

-- `resize`, to a larger size.
unfoldable pub resize : ℕ → FdManager → FdManager
resize zero m = []
resize (suc n) [] = none ∷ resize n []
resize (suc n) (p ∷ m) = p ∷ resize n m

unfoldable pub new_manager : FdManager
new_manager = resize 64 []

-- What the part of `get` under the read lock comes to: an answer, or the write lock's part follows.
pub data Looked : Type 0 where
  answer : Ptr → Looked
  go_on : Looked
  outside : Looked

unfoldable pub look : Bool → Option Ptr → Looked
look auto_create none = outside
look auto_create (some none) = if auto_create then go_on else answer none
look auto_create (some (some c)) = answer (some c)

unfoldable pub get_read : ℤ → (auto_create : Bool) → FdManager → Looked
get_read (pos fd) auto_create m =
    if leb (size m) fd
    then (if auto_create then go_on else answer none)
    else look auto_create (at m fd)
get_read (negsuc zero) auto_create m = answer none
get_read (negsuc (suc n)) auto_create m = outside

-- `fd * 1.5` as a size.
abbrev pub larger : ℕ → ℕ
larger fd = fd * 3 / 2

-- The part of `get` under the write lock: a new context at `address`, put into the table.
unfoldable pub get_write : (address : ℕ) → Stat → Bool → ℕ → FdManager → Option (Ptr × FdManager)
get_write address stat nonblock fd m =
    let c = some (address, new_fd_ctx stat nonblock (pos fd)) in
    Option.map (λ r. (c, r)) (assign fd c (if leb (size m) fd then resize (larger fd) m else m))

-- `get` where no other thread runs between its two parts.
unfoldable pub then_write : Looked → Option (Ptr × FdManager) → FdManager → Option (Ptr × FdManager)
then_write (answer p) w m = some (p, m)
then_write go_on w m = w
then_write outside w m = none

unfoldable pub get :
    (address : ℕ) → Stat → Bool → ℤ → (auto_create : Bool) → FdManager → Option (Ptr × FdManager)
get address stat nonblock (pos fd) auto_create m =
    then_write (get_read (pos fd) auto_create m) (get_write address stat nonblock fd m) m
get address stat nonblock (negsuc n) auto_create m =
    then_write (get_read (negsuc n) auto_create m) none m

unfoldable pub del : ℤ → FdManager → Option FdManager
del (pos fd) m = if leb (size m) fd then some m else assign fd none m
del (negsuc n) m = none
