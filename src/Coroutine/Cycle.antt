-- ===== src/Coroutine/Cycle.antt =====
-- kit_server/coroutine.cpp: which operations are allowed in which state.
use kit_server.Common.{◌≡◌, refl, true, not, ◌||◌}
use kit_server.Coroutine.{State, Coroutine, is_exec, is_hold, destroy}

-- The destructor of a coroutine with a stack of its own lets it go in every state, a running one and
-- a suspended one too.
destroy_any : (c : Coroutine) → c.stack ≡ true → destroy c ≡ true
unfolding destroy is_exec is_hold
destroy_any c h = rw h (any c.state)
  where
    any : (s : State) → (not (is_exec s) || not (is_hold s)) ≡ true
    any State.init = refl
    any State.hold = refl
    any State.exec = refl
    any State.term = refl
    any State.ready = refl
    any State.exception = refl
