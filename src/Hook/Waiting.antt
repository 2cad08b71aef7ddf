-- ===== src/Hook/Waiting.antt =====
-- kit_server/hook.cpp: a hooked call comes back, and leaves no timer behind.
use kit_server.Common.{ℕ, ◌≡◌, ◌≢◌, List, [], ◌∷◌, Option, none, some, Bool, true, false, ◌⊎◌}
use kit_server.Timer.Queue.{mem}
use kit_server.Timer.Invariant
use kit_server.Timer.Overdue
use kit_server.IoManager.{has, IoManager, context_at}
use kit_server.IoManager.Steps
use kit_server.IoManager.Reach
use kit_server.Hook.{
  Shared, Turn, Wait, World, Hooked, returned, failed, waiting, IoResult, interrupted, blocked,
  ended, outcome, stop_timer, register,
}

-- Both managers are valid, and nobody waits for the event.
pub record IsReady (k : Wait) (s : Shared) : Type 0 where
  pub timers : Invariant.IsValid s.timers
  pub io : Steps.IsValid s.io
  pub free : has k.event (context_at k.fd s.io.contexts).events ≡ false

-- The timer of the last wait is not queued.
unfoldable pub IsQuiet : Option ℕ → Shared → Type 0
IsQuiet none s = Unit
IsQuiet (some a) s = mem a s.timers.timers ≡ false

-- A call came back, with valid managers, and with its last timer out of the queue.
pub record IsBack (w : World) : Type 0 where
  pub timers : Invariant.IsValid w.shared.timers
  pub io : Steps.IsValid w.shared.io
  pub quiet : IsQuiet w.timer w.shared

unfoldable pub ComesBack : Hooked → Type 0
ComesBack (returned r w) = IsBack w
ComesBack failed = ⊥
ComesBack waiting = ⊥

-- A wait: other threads call the managers only as their histories allow, and the coroutine runs again
-- when its event is no longer registered.
pub record IsWait (k : Wait) (before after : Shared) : Type 0 where
  pub timers : Overdue.Reach before.timers after.timers
  pub io : Reach.Reach before.io after.io
  pub free : has k.event (context_at k.fd after.io.contexts).events ≡ false

-- The turns let the call return: the address of a new timer is not in use; a wait is one of those above;
-- and the last turn has an answer that is returned, or a wait that was cancelled, or a failed addEvent.
unfoldable pub EndsAfterWait : Option ℕ → Shared → (Shared → Type 0) → Type 0
EndsAfterWait timer s Next = ((stop_timer timer s).canceled ≢ 0) ⊎ Next (stop_timer timer s)

unfoldable pub EndsRegistered : Wait → Turn → Option (World × Bool) → (Shared → Type 0) → Type 0
EndsRegistered k t none Next = Unit
EndsRegistered k t (some (w, false)) Next = Unit
EndsRegistered k t (some (w, true)) Next =
    IsWait k w.shared (t.others w.shared) × EndsAfterWait w.timer (t.others w.shared) Next

unfoldable pub EndsResult : Wait → Turn → IoResult → Shared → (Shared → Type 0) → Type 0
EndsResult k t interrupted s Next = Next s
EndsResult k t blocked s Next =
    ((s.timers.store t.address).cb ≡ none) × EndsRegistered k t (register k t s) Next
EndsResult k t ended s Next = Unit

unfoldable pub EndsIn : Wait → List Turn → Shared → Type 0
EndsIn k [] s = ⊥
EndsIn k (t ∷ ts) s = EndsResult k t (outcome t.answer) s (λ v. EndsIn k ts v)
