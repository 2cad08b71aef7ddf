-- ===== src/Coroutine.antt =====
-- kit_server/coroutine.cpp and coroutine.h: the states of a coroutine.
--
-- A coroutine is its state, its callback and whether it has a stack of its own. Each operation is
-- modelled by what it does to the coroutine that it is called on; the contexts that it swaps are the
-- C library's. `none` is a failed assertion, which ends the program.
pub mod Cycle
mod Tests
use kit_server.Common.{ℕ, if◌then◌else◌, Option, none, some, Bool, true, false, not, ◌&&◌, ◌||◌}

pub data State : Type 0 where
  init : State
  hold : State
  exec : State
  term : State
  ready : State
  exception : State

pub record Coroutine : Type 0 where
  pub state : State
  pub cb : Option ℕ
  pub stack : Bool

unfoldable pub is_exec : State → Bool
is_exec exec = true
is_exec init = false
is_exec hold = false
is_exec term = false
is_exec ready = false
is_exec exception = false

unfoldable pub is_hold : State → Bool
is_hold hold = true
is_hold init = false
is_hold exec = false
is_hold term = false
is_hold ready = false
is_hold exception = false

-- TERM or EXCEPTION.
unfoldable pub is_ended : State → Bool
is_ended term = true
is_ended exception = true
is_ended init = false
is_ended hold = false
is_ended exec = false
is_ended ready = false

unfoldable pub is_init : State → Bool
is_init init = true
is_init hold = false
is_init exec = false
is_init term = false
is_init ready = false
is_init exception = false

unfoldable pub assert {ℓ} : {A : Type ℓ} → Bool → A → Option A
assert b a = if b then some a else none

-- The constructor of the thread's first coroutine, and that of all others.
abbrev pub main_coroutine : Coroutine
main_coroutine = record { state = exec; cb = none; stack = false }

abbrev pub new_coroutine : Option ℕ → Coroutine
new_coroutine cb = record { state = init; cb = cb; stack = true }

unfoldable pub reset : Option ℕ → Coroutine → Option Coroutine
reset cb c =
    assert (c.stack && (is_init c.state || is_ended c.state)) (record c { state = init; cb = cb })

unfoldable pub swap_in : Coroutine → Option Coroutine
swap_in c = assert (not (is_exec c.state)) (record c { state = exec })

abbrev pub call : Coroutine → Coroutine
call c = record c { state = exec }

unfoldable pub yield_to_ready : Coroutine → Option Coroutine
yield_to_ready c = assert (is_exec c.state) (record c { state = ready })

unfoldable pub yield_to_hold : Coroutine → Option Coroutine
yield_to_hold c = assert (is_exec c.state) c

-- What MainFunc and CallMainFunc do when the callback has returned, and when it has thrown.
abbrev pub returned : Coroutine → Coroutine
returned c = record c { cb = none; state = term }

abbrev pub threw : Coroutine → Coroutine
threw c = record c { state = exception }

unfoldable pub is_null : Option ℕ → Bool
is_null none = true
is_null (some f) = false

-- Whether the assertions of the destructor hold.
unfoldable pub destroy : Coroutine → Bool
destroy c =
    if c.stack
    then not (is_exec c.state) || not (is_hold c.state)
    else is_null c.cb && is_exec c.state
