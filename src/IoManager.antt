-- ===== src/IoManager.antt =====
-- kit_server/iomanager.h and iomanager.cpp: descriptors, their events, and what epoll is told.
--
-- A descriptor is a number that is not negative. Whether `epoll_ctl` succeeds is an argument of each
-- operation; the calls that succeeded are a log, the last one first. An event context names a callback
-- or a coroutine by a number, and says whether its scheduler is not null; the scheduler is the
-- manager itself, with the queue of kit_server/scheduler.h. `none` is a failed assertion, a null
-- pointer that is followed or an index outside the vector. The mutex of a descriptor makes each
-- operation one step; addEvent is two, `found_context` and `add_looked`, between which others may run.
pub mod EventSets
pub mod Contexts
pub mod Epoll
pub mod Steps
pub mod Operations
pub mod Registration
pub mod Reach
pub mod Race
mod Tests
use kit_server.Common.{
  ℕ, zero, suc, ◌+◌, ◌-◌, ◌*◌, ◌/◌, ◌%◌, ◌^◌, ltb, if◌then◌else◌, List, [], ◌∷◌, ◌++◌, length,
  replicate, Option, none, some, Bool, true, false, not, ◌&&◌, ◌||◌,
}
pub use kit_server.IoManager.EventSets.{
  Event, read, write, Events, EventContext, FdContext, blank_event, no_events, fresh,
}
unfoldable pub use kit_server.IoManager.EventSets.{
  has, with, without, any, context_at, put_context, context_resize, get_event_context,
  put_event_context, is_none,
}
use kit_server.Scheduler.{Task, Work, schedule}

-- The calls of `epoll_ctl`, with the set of events.
pub data Ctl : Type 0 where
  add : ℕ → Events → Ctl
  mod_ : ℕ → Events → Ctl
  del : ℕ → Ctl

pub record IoManager : Type 0 where
  pub contexts : List FdContext
  pub pending : ℕ
  pub log : List Ctl
  pub queue : List Task

abbrev pub increment : ℕ → ℕ
increment n = (n + 1) % 2 ^ 64

abbrev pub decrement : ℕ → ℕ
decrement n = (n + 2 ^ 64 - 1) % 2 ^ 64

unfoldable pub new_io_manager : IoManager
new_io_manager = record { contexts = context_resize 256 []; pending = 0; log = []; queue = [] }

-- The task that `triggerEvent` schedules: the callback, else the coroutine.
unfoldable pub task_of : (cb coroutine : Option ℕ) → Work
task_of (some f) c = Work.cb f
task_of none (some c) = Work.cor c
task_of none none = Work.nothing

-- What is left of the context of an event: what is scheduled is swapped out of it.
unfoldable pub emptied : (cb coroutine : Option ℕ) → EventContext
emptied (some f) c = record { scheduler = false; coroutine = c; cb = none }
emptied none c = blank_event

abbrev pub scheduled : EventContext → List Task → List Task
scheduled e q = (schedule (record { work = task_of e.cb e.coroutine; thread = none }) q).0

unfoldable pub trigger_event : Event → FdContext → List Task → Option (FdContext × List Task)
trigger_event ev c q =
    let e = get_event_context ev c in
    if has ev c.events && (not (is_none e.cb && is_none e.coroutine) && e.scheduler)
    then some (
      put_event_context ev (emptied e.cb e.coroutine) (record c { events = without ev c.events }),
      scheduled e q,
    )
    else none

abbrev pub update : ℕ → FdContext → IoManager → IoManager
update fd c m = record m { contexts = put_context fd c m.contexts }

-- EPOLL_CTL_MOD while events are left, else EPOLL_CTL_DEL.
unfoldable pub mod_or_del : ℕ → Events → Ctl
mod_or_del fd left = if any left then mod_ fd left else del fd

-- Whom an event is for: the callback, or else the current coroutine, which has to run.
unfoldable pub bind : (scheduler running : Bool) → (current : ℕ) → Option ℕ → Option EventContext
bind scheduler running current (some f) =
    some (record { scheduler = scheduler; coroutine = none; cb = some f })
bind scheduler running current none =
    if running
    then some (record { scheduler = scheduler; coroutine = some current; cb = none })
    else none

unfoldable pub is_blank : EventContext → Bool
is_blank e = not e.scheduler && (is_none e.coroutine && is_none e.cb)

unfoldable pub put_bound :
    ℕ → Event → FdContext → IoManager → Option EventContext → Option (IoManager × Bool)
put_bound fd ev c m none = none
put_bound fd ev c m (some e) = some (update fd (put_event_context ev e c) m, true)

-- addEvent behind the locks, on the manager whose vector has the descriptor.
unfoldable pub add_to :
    (ok scheduler running : Bool)
    → (current fd : ℕ) → Event
    → Option ℕ
    → IoManager
    → Option (IoManager × Bool)
add_to ok scheduler running current fd ev cb m =
    let c = context_at fd m.contexts in
    let all = with ev c.events in
    let told = record m {
      pending = increment m.pending;
      log = (if any c.events then mod_ fd all else add fd all) ∷ m.log;
    } in
    let bound =
      put_bound fd ev (record c { events = all }) told (bind scheduler running current cb) in
    if has ev c.events
    then none
    else (if ok
        then (if is_blank (get_event_context ev c) then bound else none)
        else some (m, false))

-- Under the read lock: whether the vector has the descriptor.
abbrev pub found_context : ℕ → IoManager → Bool
found_context fd m = ltb fd (length m.contexts)

-- What follows in addEvent, on the manager as it is by then: the write lock, where the vector did not
-- have the descriptor, and the registration. Where it had, no other call shortens it in between.
unfoldable pub add_looked :
    (found : Bool)
    → (ok scheduler running : Bool) → (current fd : ℕ) → Event
    → Option ℕ
    → IoManager
    → Option (IoManager × Bool)
add_looked found ok scheduler running current fd ev cb m =
    let larger = record m { contexts = context_resize (fd * 3 / 2) m.contexts } in
    let there = if found then m else larger in
    if ltb fd (length there.contexts)
    then add_to ok scheduler running current fd ev cb there
    else none

-- With no other call between the two.
abbrev pub add_event :
    (ok scheduler running : Bool)
    → (current fd : ℕ) → Event
    → Option ℕ
    → IoManager
    → Option (IoManager × Bool)
add_event ok scheduler running current fd ev cb m =
    add_looked (found_context fd m) ok scheduler running current fd ev cb m

unfoldable pub del_event : (ok : Bool) → ℕ → Event → IoManager → Option (IoManager × Bool)
del_event ok fd ev m =
    let c = context_at fd m.contexts in
    let left = without ev c.events in
    if ltb fd (length m.contexts) && (has ev c.events && ok)
    then some (
      update fd (put_event_context ev blank_event (record c { events = left }))
          (record m { pending = decrement m.pending; log = mod_or_del fd left ∷ m.log }),
      true,
    )
    else some (m, false)

-- What follows a call of `triggerEvent`.
unfoldable pub triggered : ℕ → IoManager → Option (FdContext × List Task) → Option IoManager
triggered fd m none = none
triggered fd m (some (c, q)) =
    some (update fd c (record m { pending = decrement m.pending; queue = q }))

unfoldable pub trigger_at : ℕ → Event → IoManager → Option IoManager
trigger_at fd ev m = triggered fd m (trigger_event ev (context_at fd m.contexts) m.queue)

unfoldable pub done : Option IoManager → Option (IoManager × Bool)
done none = none
done (some m) = some (m, true)

unfoldable pub cancel_event : (ok : Bool) → ℕ → Event → IoManager → Option (IoManager × Bool)
cancel_event ok fd ev m =
    let c = context_at fd m.contexts in
    let told = record m { log = mod_or_del fd (without ev c.events) ∷ m.log } in
    if ltb fd (length m.contexts) && (has ev c.events && ok)
    then done (trigger_at fd ev told)
    else some (m, false)

-- `if(events & ev) triggerEvent(ev)`, behind an earlier step.
unfoldable pub trigger_if : (Events → Bool) → ℕ → Event → Option IoManager → Option IoManager
trigger_if wanted fd ev none = none
trigger_if wanted fd ev (some m) =
    if wanted (context_at fd m.contexts).events then trigger_at fd ev m else some m

-- The last assertion of cancelAll.
unfoldable pub assert_none : ℕ → Option IoManager → Option (IoManager × Bool)
assert_none fd none = none
assert_none fd (some m) = if any (context_at fd m.contexts).events then none else some (m, true)

unfoldable pub cancel_all : (ok : Bool) → ℕ → IoManager → Option (IoManager × Bool)
cancel_all ok fd m =
    let told = record m { log = del fd ∷ m.log } in
    if ltb fd (length m.contexts) && (any (context_at fd m.contexts).events && ok)
    then assert_none fd
        (trigger_if (has write) fd write (trigger_if (has read) fd read (some told)))
    else some (m, false)

unfoldable pub both : Events → Events → Events
both s t = record { reads = s.reads && t.reads; writes = s.writes && t.writes }

unfoldable pub minus : Events → Events → Events
minus s t = record { reads = s.reads && not t.reads; writes = s.writes && not t.writes }

unfoldable pub plus : Events → Events → Events
plus s t = record { reads = s.reads || t.reads; writes = s.writes || t.writes }

-- The round of `idle` behind the line that finds out the events of a descriptor.
unfoldable pub dispatch_real :
    (ok : Bool) → ℕ → (real : Events) → IoManager → Option (IoManager × Bool)
dispatch_real ok fd real m =
    let c = context_at fd m.contexts in
    let told = record m { log = mod_or_del fd (minus c.events real) ∷ m.log } in
    if any (both c.events real) && ok
    then done
        (trigger_if (λ s. real.writes) fd write (trigger_if (λ s. real.reads) fd read (some told)))
    else some (m, false)

-- The round of `idle` for an epoll_event of descriptor `fd`: the events that epoll found, and whether it
-- found an error.
unfoldable pub dispatch : (ok error : Bool) → ℕ → Events → IoManager → Option (IoManager × Bool)
dispatch ok error fd found m =
    dispatch_real ok fd (if error then plus found (context_at fd m.contexts).events else found) m
