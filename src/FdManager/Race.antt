-- ===== src/FdManager/Race.antt =====
-- kit_server/fdmanager.cpp: two calls of `get` for a descriptor that has no context yet.
use kit_server.Common.{ℕ, ◌≤◌, ◌≡◌, arith, some, none, Bool, true}
use kit_server.Common.Ints.{pos}
use kit_server.FdManager.{Stat, new_fd_ctx, FdManager, size, go_on, get_read, get_write}
use kit_server.FdManager.Table.{lookup, get_write_lem, get_read-none}

-- Two threads call `get` with creation for a descriptor without a context, in a table of at least 64
-- entries, and both read the table before one writes. Then each of them is answered the context that
-- it made, at the address it got, and the entry is the second one's.
pub get_write_race :
    (a b : ℕ) (stat : Stat) (nonblock : Bool) (fd : ℕ) (m : FdManager)
    → 64 ≤ size m
    → lookup fd m ≡ none
    → (get_read (pos fd) true m ≡ go_on)
      × ((m' : FdManager) × (m'' : FdManager) × (get_write a stat nonblock fd m
            ≡ some (some (a, new_fd_ctx stat nonblock (pos fd)), m'))
          × (get_write b stat nonblock fd m'
              ≡ some (some (b, new_fd_ctx stat nonblock (pos fd)), m''))
          × (lookup fd m'' ≡ some (b, new_fd_ctx stat nonblock (pos fd))))
get_write_race a b stat nonblock fd m h e =
    let first = get_write_lem a stat nonblock fd m h in
    let second = get_write_lem b stat nonblock fd first.0 (omega (arith, first.2, h)) in
    (get_read-none fd m e, (first.0, second.0, first.1, second.1, second.3.here))
