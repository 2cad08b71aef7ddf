-- ===== src/FdManager/Tests.antt =====
-- The table that the constructor makes, and the theorems on it.
use kit_server.Common.{ℕ, ◌≤◌, ◌≡◌, ◌⊎◌, refl, arith, Option, some, none, true, false}
use mathlib.Core.Option
use kit_server.Common.Ints.{pos, negsuc}
use kit_server.FdManager.{
  FdCtx, stat_ok, new_fd_ctx, Ptr, FdManager, size, at, resize, assign, new_manager, go_on, look,
  get_read, get_write, then_write, get, del, set_timeout, get_timeout,
}
use kit_server.FdManager.Table.{lookup, Assigned, get_lem}
use kit_server.FdManager.Race.{get_write_race}

sixty_four : 64 ≤ size new_manager
unfolding new_manager resize size
sixty_four = omega arith

seventy_null : lookup 70 new_manager ≡ none
unfolding new_manager resize lookup
seventy_null = refl

-- `get` of descriptor 70 enlarges the table to 105 entries.
grown : Option (Ptr × FdManager)
unfolding new_manager
grown = get 9 (stat_ok true) false (pos 70) true new_manager

grown_size : Option.map (λ r. size r.1) grown ≡ some 105
unfolding grown get get_read get_write then_write assign resize size look at
grown_size = refl

negative_crashes : del (negsuc 0) new_manager ≡ none
unfolding del
negative_crashes = refl

timeout_kept :
    get_timeout true (set_timeout true 500 (new_fd_ctx (stat_ok true) false (pos 3))) ≡ 500
unfolding get_timeout set_timeout
timeout_kept = refl

get_lem_example :
    ((c : ℕ × FdCtx) × (lookup 70 new_manager ≡ some c)
      × (get 9 (stat_ok true) false (pos 70) true new_manager ≡ some (some c, new_manager)))
    ⊎ ((lookup 70 new_manager ≡ none)
        × ((m' : FdManager) × (get 9 (stat_ok true) false (pos 70) true new_manager
              ≡ some (some (9, new_fd_ctx (stat_ok true) false (pos 70)), m'))
            × (size new_manager ≤ size m')
            × Assigned 70 (some (9, new_fd_ctx (stat_ok true) false (pos 70))) new_manager m'))
get_lem_example = get_lem 9 (stat_ok true) false 70 new_manager sixty_four

get_write_race_example :
    (get_read (pos 70) true new_manager ≡ go_on)
    × ((m' : FdManager) × (m'' : FdManager) × (get_write 1 (stat_ok true) false 70 new_manager
          ≡ some (some (1, new_fd_ctx (stat_ok true) false (pos 70)), m'))
        × (get_write 2 (stat_ok true) false 70 m'
            ≡ some (some (2, new_fd_ctx (stat_ok true) false (pos 70)), m''))
        × (lookup 70 m'' ≡ some (2, new_fd_ctx (stat_ok true) false (pos 70))))
get_write_race_example =
    get_write_race 1 2 (stat_ok true) false 70 new_manager sixty_four seventy_null
