-- ===== src/IoManager/EventSets.antt =====
-- kit_server/iomanager.h and iomanager.cpp: the events of a descriptor and the vector of contexts.
use kit_server.Common.{
  ℕ, zero, suc, ◌-◌, List, [], ◌∷◌, ◌++◌, length, replicate, take, Option, none, some, Bool, true,
  false, ◌||◌,
}

-- READ (EPOLLIN) or WRITE (EPOLLOUT).
pub data Event : Type 0 where
  read : Event
  write : Event

-- A set of events: its bits 0x1 and 0x4.
pub record Events : Type 0 where
  pub reads : Bool
  pub writes : Bool

unfoldable pub has : Event → Events → Bool
has read s = s.reads
has write s = s.writes

unfoldable pub with : Event → Events → Events
with read s = record s { reads = true }
with write s = record s { writes = true }

unfoldable pub without : Event → Events → Events
without read s = record s { reads = false }
without write s = record s { writes = false }

unfoldable pub any : Events → Bool
any s = s.reads || s.writes

pub record EventContext : Type 0 where
  pub scheduler : Bool
  pub coroutine : Option ℕ
  pub cb : Option ℕ

pub record FdContext : Type 0 where
  pub read_event : EventContext
  pub write_event : EventContext
  pub events : Events

abbrev pub blank_event : EventContext
blank_event = record { scheduler = false; coroutine = none; cb = none }

abbrev pub no_events : Events
no_events = record { reads = false; writes = false }

abbrev pub fresh : FdContext
fresh = record { read_event = blank_event; write_event = blank_event; events = no_events }

unfoldable pub context_at : ℕ → List FdContext → FdContext
context_at i [] = fresh
context_at zero (c ∷ cs) = c
context_at (suc i) (c ∷ cs) = context_at i cs

unfoldable pub put_context : ℕ → FdContext → List FdContext → List FdContext
put_context i d [] = []
put_context zero d (c ∷ cs) = d ∷ cs
put_context (suc i) d (c ∷ cs) = c ∷ put_context i d cs

-- `resize` of the vector, which drops contexts where it gets shorter; a longer one has new contexts at its
-- end.
unfoldable pub context_resize : ℕ → List FdContext → List FdContext
context_resize size cs = take size cs ++ replicate (size - length cs) fresh

unfoldable pub get_event_context : Event → FdContext → EventContext
get_event_context read c = c.read_event
get_event_context write c = c.write_event

unfoldable pub put_event_context : Event → EventContext → FdContext → FdContext
put_event_context read e c = record c { read_event = e }
put_event_context write e c = record c { write_event = e }

unfoldable pub is_none {ℓ} : {A : Type ℓ} → Option A → Bool
is_none none = true
is_none (some a) = false
