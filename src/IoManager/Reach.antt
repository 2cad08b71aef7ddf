-- ===== src/IoManager/Reach.antt =====
-- kit_server/iomanager.cpp: histories of calls, one behind the other.
use kit_server.Common.{
  ℕ, ◌<◌, ◌≡◌, sym, ap, ◌∙◌, subst, arith, [], ◌%◌, ◌^◌, length, Option, none, some, Bool, true,
  false,
}
use kit_server.IoManager.{
  Event, Events, has, any, IoManager, context_at, new_io_manager, add_event, del_event,
  cancel_event, cancel_all, dispatch,
}
use kit_server.IoManager.Contexts.{
  total, context_at-context_resize, total-context_resize, context_resize-All, length-context_resize,
}
use kit_server.IoManager.Epoll.{interest, IsLegal, wanted}
use kit_server.IoManager.Steps.{IsValid}
use kit_server.IoManager.Operations.{Ends, cancel_event-Ends, cancel_all-Ends, dispatch-Ends}
use kit_server.IoManager.Registration.{add_event-Ends, del_event-Ends}

-- A call that came to its end with `m'`. An event is added once, by a thread of a scheduler, with a
-- callback or from a coroutine that runs; epoll reports registered events.
pub data Step (m m' : IoManager) : Type 0 where
  adds :
      (ok running : Bool) (current fd : ℕ) (ev : Event) (cb : Option ℕ) (answer : Bool)
      → has ev (context_at fd m.contexts).events ≡ false
      → (cb ≡ none → running ≡ true)
      → add_event ok true running current fd ev cb m ≡ some (m', answer)
      → Step m m'
  deletes :
      (ok : Bool) (fd : ℕ) (ev : Event) (answer : Bool)
      → del_event ok fd ev m ≡ some (m', answer)
      → Step m m'
  cancels :
      (ok : Bool) (fd : ℕ) (ev : Event) (answer : Bool)
      → cancel_event ok fd ev m ≡ some (m', answer)
      → Step m m'
  cancels_all :
      (ok : Bool) (fd : ℕ) (answer : Bool) → cancel_all ok fd m ≡ some (m', answer) → Step m m'
  dispatches :
      (ok error : Bool) (fd : ℕ) (found : Events) (answer : Bool)
      → fd < length m.contexts
      → (found.reads ≡ true → (context_at fd m.contexts).events.reads ≡ true)
      → (found.writes ≡ true → (context_at fd m.contexts).events.writes ≡ true)
      → dispatch ok error fd found m ≡ some (m', answer)
      → Step m m'

pub data Reach (m : IoManager) : IoManager → Type 0 where
  here : Reach m m
  next : {m' m'' : IoManager} → Reach m m' → Step m' m'' → Reach m m''

-- A call that ends validly ends with the manager that it returned.
from_Ends :
    (r : Option (IoManager × Bool)) (m : IoManager) (b : Bool)
    → Ends r
    → r ≡ some (m, b)
    → IsValid m
from_Ends r m b e h = subst (valid_in) (sym e.2 ∙ h) e.3
  where
    valid_in : Option (IoManager × Bool) → Type 0
    valid_in none = Unit
    valid_in (some p) = IsValid p.0

Step-IsValid : {m m' : IoManager} → Step m m' → IsValid m → IsValid m'
Step-IsValid {m} {m'} (adds ok running current fd ev cb b free bound e) v =
    from_Ends _ m' b (add_event-Ends ok running current fd ev cb m v free bound) e
Step-IsValid {m} {m'} (deletes ok fd ev b e) v = from_Ends _ m' b (del_event-Ends ok fd ev m v) e
Step-IsValid {m} {m'} (cancels ok fd ev b e) v = from_Ends _ m' b (cancel_event-Ends ok fd ev m v) e
Step-IsValid {m} {m'} (cancels_all ok fd b e) v = from_Ends _ m' b (cancel_all-Ends ok fd m v) e
Step-IsValid {m} {m'} (dispatches ok error fd found b h r w e) v =
    from_Ends _ m' b (dispatch-Ends ok error fd found m v h r w) e

pub Reach-IsValid : {m m' : IoManager} → IsValid m → Reach m m' → IsValid m'
Reach-IsValid v here = v
Reach-IsValid v (next r s) = Step-IsValid s (Reach-IsValid v r)

pub new_io_manager-IsValid : IsValid new_io_manager
unfolding new_io_manager total interest wanted any context_at IsLegal
new_io_manager-IsValid = record {
  sound = record {
    contexts = context_resize-All 256 [] (omega arith) tt;
    counted = ap (λ t. t % 2 ^ 64) (sym (total-context_resize 256 [] (omega arith)));
    enough = omega (arith, length-context_resize 256 []);
  };
  told = record {
    watched =
        λ fd. sym (ap (λ c. wanted c.events) (context_at-context_resize fd 256 [] (omega arith)));
    legal = tt;
  };
}

-- After any history of calls on a new manager, none of which begins before the last one has
-- ended, in which addEvent is called by threads of a scheduler, for events that are not
-- registered, with a callback or from a coroutine that runs, and epoll reports registered events,
-- each event that is registered has a scheduler and a callback or a coroutine, and each other one
-- has none; the pending count is the number of registered events; epoll watches every descriptor
-- for exactly its registered events, and was never told to add a descriptor that it watches, nor
-- to modify or delete one that it does not.
pub history-IsValid : {m : IoManager} → Reach new_io_manager m → IsValid m
history-IsValid r = Reach-IsValid new_io_manager-IsValid r

-- In a valid manager delEvent, cancelEvent and cancelAll end with no failed assertion, whatever the
-- descriptor and the event are and whether epoll_ctl succeeds, and leave a valid manager.
pub removals-Ends :
    (ok : Bool) (fd : ℕ) (ev : Event) (m : IoManager)
    → IsValid m
    → Ends (del_event ok fd ev m) × Ends (cancel_event ok fd ev m) × Ends (cancel_all ok fd m)
removals-Ends ok fd ev m v =
    (del_event-Ends ok fd ev m v, cancel_event-Ends ok fd ev m v, cancel_all-Ends ok fd m v)
