-- ===== src/Scheduler/Tests.antt =====
-- A queue of four tasks as thread 7 sees it.
use kit_server.Common.{ℕ, ◌≡◌, refl, ◌==◌, List, [], ◌∷◌, none, some, true, false, if◌then◌else◌}
use kit_server.Coroutine.{State, Coroutine, new_coroutine, is_exec, is_ended}
use kit_server.Scheduler.{
  Task, cor, cb, nothing, has_work, is_for, is_running, took, pass, pick, schedule, schedule_all,
  is_empty, stopping, yields_hold, returns, run_coroutine, run_cb,
}
use kit_server.Scheduler.Pick.{
  Finds, HasWork, pick-Finds, run_coroutine_lem, run_cb-IsFree, IsFree, fresh, kept_after,
}

-- Coroutine 3 runs.
abbrev states : ℕ → State
states c = if c == 3 then State.exec else State.hold

abbrev tasks : List Task
tasks =
    record { work = cb 1; thread = some 9 }
    ∷ record { work = cor 3; thread = none }
    ∷ record { work = cor 4; thread = some 7 }
    ∷ record { work = cb 2; thread = none }
    ∷ []

tasks-HasWork : HasWork tasks
unfolding HasWork has_work
tasks-HasWork = (refl, (refl, (refl, (refl, tt))))

pick_run :
    pick 7 states tasks
    ≡ took
        (record { work = cor 4; thread = some 7 })
        (record { work = cb 1; thread = some 9 }
          ∷ record { work = cor 3; thread = none }
          ∷ record { work = cb 2; thread = none }
          ∷ [])
        true
unfolding pick is_for has_work is_running is_exec pass
pick_run = refl

schedule_run :
    schedule_all
      (record { work = nothing; thread = none } ∷ record { work = cb 1; thread = none } ∷ [])
      []
    ≡ (record { work = cb 1; thread = none } ∷ [], true)
unfolding schedule_all schedule has_work is_empty
schedule_run = refl

stopping_run : stopping true true [] 1 ≡ false
unfolding stopping is_empty
stopping_run = refl

pick-Finds_example : Finds 7 states tasks (pick 7 states tasks)
pick-Finds_example = pick-Finds 7 states tasks tasks-HasWork

run_coroutine_lem_example :
    (c' : Coroutine) × (run_coroutine yields_hold (new_coroutine (some 5)) ≡ some (c', false))
    × (c'.state ≡ State.hold)
unfolding is_exec is_ended
run_coroutine_lem_example = run_coroutine_lem yields_hold (new_coroutine (some 5)) refl refl

run_cb-IsFree_example :
    (run_cb returns 5 (some (new_coroutine none)) ≡ some (kept_after returns 5))
    × IsFree (kept_after returns 5).0
run_cb-IsFree_example = run_cb-IsFree returns 5 (some (new_coroutine none)) fresh
