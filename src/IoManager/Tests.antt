-- ===== src/IoManager/Tests.antt =====
-- A manager on which a callback waits for descriptor 200 to be readable and a coroutine for it to be
-- writable.
use kit_server.Common.{◌≡◌, refl, arith, [], ◌∷◌, Option, none, some, Bool, true, false}
use kit_server.Scheduler.{Work, schedule, has_work}
use kit_server.IoManager.{
  read, write, has, with, without, any, IoManager, context_at, put_context, context_resize,
  new_io_manager, get_event_context, put_event_context, is_none, task_of, emptied, trigger_event,
  mod_or_del, bind, is_blank, put_bound, add_to, add_event, add_looked, del_event, triggered,
  trigger_at, cancel_event, trigger_if, assert_none, cancel_all, dispatch,
}
use kit_server.IoManager.Steps.{IsValid}
use kit_server.IoManager.Operations.{Ends, dispatch-Ends, dispatch_deleted}
use kit_server.IoManager.Registration.{add_event-Ends}
use kit_server.IoManager.Reach.{Reach, here, next, adds, history-IsValid, removals-Ends}

state_of : Option (IoManager × Bool) → IoManager
state_of none = new_io_manager
state_of (some p) = p.0

reading : IoManager
unfolding state_of new_io_manager add_looked add_to bind put_bound is_blank is_none
    get_event_context put_event_context context_at put_context context_resize with any has
reading = state_of (add_event true true true 0 200 read (some 5) new_io_manager)

waiting : IoManager
unfolding reading
waiting = state_of (add_event true true true 9 200 write none reading)

waiting_pending : waiting.pending ≡ 2
unfolding waiting
waiting_pending = refl

waiting-Reach : Reach new_io_manager waiting
unfolding waiting
waiting-Reach =
    next (next here (adds true true 0 200 read (some 5) true refl (λ e. refl) refl))
      (adds true true 9 200 write none true refl (λ e. refl) refl)

-- The callback and the coroutine are scheduled when the events are cancelled.
cancelled : Option (IoManager × Bool)
unfolding waiting cancel_all assert_none trigger_if trigger_at triggered trigger_event task_of
    emptied schedule has_work without
cancelled = cancel_all true 200 waiting

cancelled_queue :
    (state_of cancelled).queue
    ≡ record { work = Work.cb 5; thread = none } ∷ record { work = Work.cor 9; thread = none } ∷ []
unfolding cancelled
cancelled_queue = refl

history-IsValid_example : IsValid waiting
history-IsValid_example = history-IsValid waiting-Reach

removals-Ends_example :
    Ends (del_event true 200 read waiting)
    × Ends (cancel_event true 200 read waiting)
    × Ends (cancel_all true 200 waiting)
removals-Ends_example = removals-Ends true 200 read waiting (history-IsValid waiting-Reach)

add_event-Ends_example : Ends (add_event true true true 4 500 read none waiting)
unfolding waiting
add_event-Ends_example =
    add_event-Ends true true 4 500 read none waiting (history-IsValid waiting-Reach) refl
      (λ e. refl)

dispatch-Ends_example :
    Ends (dispatch true false 200 (record { reads = true; writes = true }) waiting)
unfolding waiting
dispatch-Ends_example =
    dispatch-Ends true false 200 (record { reads = true; writes = true }) waiting
      (history-IsValid waiting-Reach) (omega arith) (λ e. refl) (λ e. refl)

writing : IoManager
unfolding waiting del_event mod_or_del without
writing = state_of (del_event true 200 read waiting)

dispatch_deleted_example :
    dispatch true false 200 (record { reads = true; writes = true }) writing ≡ none
unfolding writing
dispatch_deleted_example = dispatch_deleted 200 writing refl
