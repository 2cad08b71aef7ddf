-- ===== src/Hook/Tests.antt =====
-- kit_server/hook.cpp: a read that is interrupted, waits, and is ended by its timer.
use kit_server.Common.{ℕ, ◌-◌, ◌^◌, ◌≡◌, refl, List, [], ◌∷◌, Option, none, some, true, false}
use kit_server.Common.Ints.{ℤ, pos, negsuc}
use kit_server.FdManager.{FdCtx, set_timeout}
use kit_server.Timer.{TimerManager, list_expired_cb}
use kit_server.Timer.Overdue
use kit_server.IoManager.{read, new_io_manager}
use kit_server.IoManager.Reach
use kit_server.Hook.{
  Shared, Turn, Wait, returned, eagain, eintr, set_sock_timeout, time_out, connect_with_timeout,
}
use kit_server.Hook.Flags.{get_flags, is_open_socket, put_nonblock, with_bit, has_bit}

abbrev sock : FdCtx
sock = record {
  is_init = true;
  is_socket = true;
  user_nonblock = false;
  sys_nonblock = true;
  is_closed = false;
  fd = pos 3;
  recv_timeout = 2000;
  send_timeout = 2 ^ 64 - 1;
}

half_second : (set_sock_timeout true 2 500000 sock).recv_timeout ≡ 2500
unfolding set_sock_timeout set_timeout
half_second = refl

-- A manager with no timer, at time 1000.
abbrev no_timers : TimerManager
no_timers = record {
  store = λ a. record { ms = 0; cb = none; recurring = false; next = 0 };
  timers = [];
  tickled = false;
  previous_time = 1000;
  wakes = 0;
}

abbrev quiet : Shared
quiet = record { timers = no_timers; io = new_io_manager; canceled = 0 }

abbrev reading : Wait
reading = record { fd = 3; event = read; timeout = 0; info = 1; callback = 2; coroutine = 7 }

-- The wait in which the timer fires: the manager takes it out, and its callback runs.
abbrev or_same : Shared → Option Shared → Shared
or_same s r = elim r [ none ↦ s | some v ↦ v ]

abbrev fires : Shared → Shared
fires s =
    let v = or_same s (time_out true true reading s) in
    record v { timers = (list_expired_cb 3000 0 s.timers).0 }

abbrev turn : ℤ → ℕ → Turn
turn n e = record {
  answer = (n, e);
  address = 8;
  now = 1000;
  ok = true;
  event_errno = 0;
  others = fires;
}

abbrev turns : List Turn
turns = turn (negsuc 0) eintr ∷ turn (negsuc 0) eagain ∷ []

-- A connect of a descriptor that has no context.
unknown_descriptor :
    connect_with_timeout ((pos 0, 0), 0) true reading none (turn (pos 0) 0) quiet
    ≡ returned (negsuc 0, 9) (record { timer = none; shared = quiet })
unfolding connect_with_timeout
unknown_descriptor = refl

-- The -1 of a system call that fails becomes -2049.
error_changed : get_flags (some sock) (negsuc 0) ≡ negsuc 2048
unfolding get_flags is_open_socket put_nonblock with_bit has_bit
error_changed = refl
