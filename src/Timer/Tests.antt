-- ===== src/Timer/Tests.antt =====
-- Runs of the timer manager, and its theorems at concrete states.
use kit_server.Common.{
  ℕ, ◌-◌, ◌≤◌, ◌≡◌, refl, arith, [], ◌∷◌, true, false, none, some, inr, if◌then◌else◌,
}
use kit_server.Timer.{
  TimerManager, plain, add_timer, add_timer_ptr, cancel, get_next_time, list_expired_cb,
  check_clock_change, expired_split, lower_bound, skip_equal, fire, fire_one, insert, less,
  comparator, key_of,
}
use kit_server.Timer.Queue.{mem}
use kit_server.Timer.Invariant.{IsValid, is_some, disarm, take_out}
use kit_server.Timer.Calls.{cancel_lem}
use kit_server.Timer.Expiry.{get_next_time_lem}
use kit_server.Timer.Fire.{Listed}
use kit_server.Timer.Overdue.{
  list_expired_cb-Listed, poll_overdue, poll, Reach, Reach-IsValid, here, next, adds,
}

-- A manager started at time 1000, with no timer.
start : TimerManager
start = record {
  store = λ a. record { ms = 0; cb = none; recurring = false; next = 0 };
  timers = [];
  tickled = false;
  previous_time = 1000;
  wakes = 0;
}

start-IsValid : IsValid start
unfolding start
start-IsValid = record { sorted = tt; taken = λ b e. refl; armed = λ b e. refl }

-- The timer 8 expires at 1500, the timer 5 at 1200 and again each 200 ms.
two : TimerManager
unfolding start add_timer add_timer_ptr insert less comparator
two = add_timer 5 200 (some (plain 2)) true 1000 (add_timer 8 500 (some (plain 1)) false 1000 start)

two_timers : two.timers ≡ 5 ∷ 8 ∷ []
unfolding two
two_timers = refl

two_wakes : two.wakes ≡ 1
unfolding two
two_wakes = refl

two-Reach : Reach start two
unfolding two
two-Reach =
    next 1000 (next 1000 here (adds 8 500 (some (plain 1)) false refl refl))
      (adds 5 200 (some (plain 2)) true refl refl)

Reach-IsValid_example : IsValid two
Reach-IsValid_example = Reach-IsValid start-IsValid two-Reach

two_expired : (list_expired_cb 1200 0 two).1 ≡ some (plain 2) ∷ []
unfolding two list_expired_cb check_clock_change expired_split lower_bound skip_equal fire fire_one
two_expired = refl

two_after : (list_expired_cb 1200 0 two).0.timers ≡ 5 ∷ 8 ∷ []
unfolding two list_expired_cb check_clock_change expired_split lower_bound skip_equal fire fire_one
two_after = refl

two-IsValid : IsValid two
two-IsValid = Reach-IsValid start-IsValid two-Reach

list_expired_cb-Listed_example : Listed 1200 two (list_expired_cb 1200 0 two)
unfolding two
list_expired_cb-Listed_example =
    list_expired_cb-Listed 1200 0 5 (8 ∷ []) two two-IsValid two_timers (inr (omega arith))

poll_overdue_example :
    ((poll 0 (1201 ∷ 1300 ∷ 9000 ∷ []) two).1 ≡ [])
    × ((poll 0 (1201 ∷ 1300 ∷ 9000 ∷ []) two).0.timers ≡ two.timers)
unfolding two
poll_overdue_example =
    poll_overdue 0 5 (8 ∷ []) (1201 ∷ 1300 ∷ 9000 ∷ []) two two_timers (omega arith) (omega arith)

get_next_time_lem_example :
    ((get_next_time 1100 two).1 ≡ key_of two 5 - 1100)
    × ((b : ℕ) → mem b two.timers ≡ true → (get_next_time 1100 two).1 ≤ key_of two b - 1100)
get_next_time_lem_example = get_next_time_lem 1100 two 5 (8 ∷ []) two-IsValid two_timers

cancel_lem_example :
    cancel 8 two
    ≡ (if is_some (two.store 8).cb then (disarm 8 (take_out 8 two), true) else (two, false))
cancel_lem_example = cancel_lem 8 two two-IsValid
