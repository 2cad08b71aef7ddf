-- ===== src/Coroutine/Tests.antt =====
-- A coroutine that is reset while it runs.
use kit_server.Common.{◌≡◌, refl, none, some}
use kit_server.Coroutine.{new_coroutine, call, swap_in, reset, is_exec, is_ended, is_init, assert}

reset_running : reset none (call (new_coroutine (some 1))) ≡ none
unfolding reset assert is_init is_ended
reset_running = refl

swap_in_twice : swap_in (call (new_coroutine (some 1))) ≡ none
unfolding swap_in assert is_exec
swap_in_twice = refl
