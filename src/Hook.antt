-- ===== src/Hook.antt =====
-- kit_server/hook.cpp: do_io, behind the hooked calls that read and write, connect, and setsockopt.
--
-- What the kernel and other threads do comes in turns, an argument: what a system call answers, with
-- errno; what the clock and `new` give; whether epoll_ctl succeeds; and what becomes of the state that
-- threads share between YieldToHold and the time when the coroutine runs again. The timers are those of
-- TimerManager and the events those of IOManager. The coroutine runs under a scheduler.
pub mod Flags
pub mod Waiting
mod Tests
use kit_server.Common.{
  ℕ, zero, suc, ◌+◌, ◌-◌, ◌*◌, ◌/◌, ◌%◌, ◌^◌, ◌==◌, if◌then◌else◌, List, [], ◌∷◌, Option, none,
  some, Bool, true, false, not, ◌&&◌, ◌||◌,
}
use kit_server.Common.Ints.{ℤ, pos, negsuc}
use kit_server.FdManager.{FdCtx, get_timeout, set_timeout}
use kit_server.Timer.{TimerManager, on_timer, add_timer, cancel}
use kit_server.IoManager.{Event, write, IoManager, add_event, cancel_event}

-- What a system call answers, with errno.
abbrev pub Answer : Type 0
Answer = ℤ × ℕ

-- What other threads reach: the timers, the events, and `canceled` of the timer_info.
pub record Shared : Type 0 where
  pub timers : TimerManager
  pub io : IoManager
  pub canceled : ℕ

pub record Turn : Type 0 where
  pub answer : Answer
  pub address : ℕ
  pub now : ℕ
  pub ok : Bool
  pub event_errno : ℕ
  pub others : Shared → Shared

-- What a call of do_io waits for: the descriptor, the event, the timeout, the numbers of the
-- timer_info, of the timer's callback and of the coroutine.
pub record Wait : Type 0 where
  pub fd : ℕ
  pub event : Event
  pub timeout : ℕ
  pub info : ℕ
  pub callback : ℕ
  pub coroutine : ℕ

-- The shared state, and the timer of the last wait, where it had one.
pub record World : Type 0 where
  pub timer : Option ℕ
  pub shared : Shared

-- A call returns; an assertion of addEvent fails; no turn is left, and the call still waits.
pub data Hooked : Type 0 where
  returned : Answer → World → Hooked
  failed : Hooked
  waiting : Hooked

abbrev pub eintr : ℕ
eintr = 4

abbrev pub ebadf : ℕ
ebadf = 9

abbrev pub eagain : ℕ
eagain = 11

abbrev pub etimedout : ℕ
etimedout = 110

abbrev pub einprogress : ℕ
einprogress = 115

unfoldable pub is_error : ℤ → Bool
is_error (negsuc zero) = true
is_error (negsuc (suc n)) = false
is_error (pos n) = false

unfoldable pub is_negative : ℤ → Bool
is_negative (negsuc n) = true
is_negative (pos n) = false

-- The tests behind a call: call again, wait, or return.
pub data IoResult : Type 0 where
  interrupted blocked ended : IoResult

unfoldable pub outcome : Answer → IoResult
outcome r =
    if is_error r.0 && r.1 == eintr
    then interrupted
    else (if is_error r.0 && r.1 == eagain then blocked else ended)

-- The callback of the timer, by whether the timer_info is still there; `none` is a failed assertion.
unfoldable pub timed_out : Shared → Option (IoManager × Bool) → Option Shared
timed_out s none = none
timed_out s (some r) = some (record s { io = r.0 })

unfoldable pub time_out : (ok alive : Bool) → Wait → Shared → Option Shared
time_out ok alive k s =
    if alive && s.canceled == 0
    then timed_out (record s { canceled = etimedout }) (cancel_event ok k.fd k.event s.io)
    else some s

-- A timer stands only where the timeout is not -1.
unfoldable pub start_timer : Wait → Turn → Shared → World
start_timer k t s =
    if k.timeout == 2 ^ 64 - 1 then record { timer = none; shared = s } else record {
      timer = some t.address;
      shared = record s {
        timers =
            add_timer t.address k.timeout (some (on_timer k.info k.callback)) false t.now s.timers;
      };
    }

-- `if(timer) timer->cancel()`.
unfoldable pub stop_timer : Option ℕ → Shared → Shared
stop_timer none s = s
stop_timer (some a) s = record s { timers = (cancel a s.timers).0 }

-- The timer and addEvent, and whether that has succeeded; `none` is a failed assertion.
unfoldable pub added : World → Option (IoManager × Bool) → Option (World × Bool)
added w none = none
added w (some r) = some (record w { shared = record w.shared { io = r.0 } }, r.1)

unfoldable pub register : Wait → Turn → Shared → Option (World × Bool)
register k t s =
    let w = start_timer k t s in
    added w (add_event t.ok true true k.coroutine k.fd k.event none w.shared.io)

-- Back from YieldToHold; `again` is `goto RETRY`.
unfoldable pub on_resume : Option ℕ → Shared → (Option ℕ → Shared → Hooked) → Hooked
on_resume timer s again =
    let v = stop_timer timer s in
    let rest = again timer v in
    if v.canceled == 0
    then rest
    else returned (negsuc 0, v.canceled) (record { timer = timer; shared = v })

unfoldable pub on_registered : Turn → Option (World × Bool) → (Option ℕ → Shared → Hooked) → Hooked
on_registered t none again = failed
on_registered t (some (w, false)) again =
    returned (negsuc 0, t.event_errno) (record w { shared = stop_timer w.timer w.shared })
on_registered t (some (w, true)) again = on_resume w.timer (t.others w.shared) again

unfoldable pub on_outcome :
    Wait → Turn → IoResult → Option ℕ → Shared → (Option ℕ → Shared → Hooked) → Hooked
on_outcome k t interrupted timer s again = again timer s
on_outcome k t blocked timer s again = on_registered t (register k t s) again
on_outcome k t ended timer s again = returned t.answer (record { timer = timer; shared = s })

-- From RETRY on: a call after an interruption is followed by the same tests as one after a wait.
unfoldable pub retry : Wait → List Turn → Option ℕ → Shared → Hooked
retry k [] timer s = waiting
retry k (t ∷ ts) timer s = on_outcome k t (outcome t.answer) timer s (λ tm v. retry k ts tm v)

-- The system call alone.
unfoldable pub direct : List Turn → Shared → Hooked
direct [] s = waiting
direct (t ∷ ts) s = returned t.answer (record { timer = none; shared = s })

unfoldable pub with_context : (receives : Bool) → Wait → Option FdCtx → List Turn → Shared → Hooked
with_context receives k none ts s = direct ts s
with_context receives k (some ctx) ts s =
    if ctx.is_closed
    then returned (negsuc 0, ebadf) (record { timer = none; shared = s })
    else (if not ctx.is_socket || ctx.user_nonblock
        then direct ts s
        else retry (record k { timeout = get_timeout receives ctx }) ts none
            (record s { canceled = 0 }))

unfoldable pub do_io : (hooked receives : Bool) → Wait → Option FdCtx → List Turn → Shared → Hooked
do_io hooked receives k ctx ts s = if hooked then with_context receives k ctx ts s else direct ts s

-- setsockopt of a timeout, in seconds and microseconds.
unfoldable pub set_sock_timeout : (receives : Bool) → (sec usec : ℕ) → FdCtx → FdCtx
set_sock_timeout receives sec usec ctx =
    set_timeout receives ((sec * 1000 + usec / 1000) % 2 ^ 64) ctx

-- Behind the wait of connect: what getsockopt answers, with errno, and the socket's own error.
unfoldable pub connected : Answer × ℕ → World → Hooked
connected (a, e) w =
    returned
      (if is_negative a.0 then (negsuc 0, a.1) else (if e == 0 then (pos 0, 0) else (negsuc 0, e)))
      w

unfoldable pub connect_resume : Answer × ℕ → Option ℕ → Shared → Hooked
connect_resume sock_error timer s =
    let v = stop_timer timer s in
    if v.canceled == 0
    then connected sock_error (record { timer = timer; shared = v })
    else returned (negsuc 0, v.canceled) (record { timer = timer; shared = v })

unfoldable pub connect_registered : Answer × ℕ → Turn → Option (World × Bool) → Hooked
connect_registered sock_error t none = failed
connect_registered sock_error t (some (w, false)) =
    connected sock_error (record w { shared = stop_timer w.timer w.shared })
connect_registered sock_error t (some (w, true)) =
    connect_resume sock_error w.timer (t.others w.shared)

-- The tests behind the call of connect_f; the event is WRITE.
unfoldable pub connect_answer : Answer × ℕ → Wait → Turn → Shared → Hooked
connect_answer sock_error k t s =
    if is_error t.answer.0 && t.answer.1 == einprogress
    then connect_registered sock_error t (register (record k { event = write }) t s)
    else returned t.answer (record { timer = none; shared = s })

unfoldable pub connect_with_timeout :
    Answer × ℕ → (hooked : Bool) → Wait → Option FdCtx → Turn → Shared → Hooked
connect_with_timeout sock_error false k ctx t s = direct (t ∷ []) s
connect_with_timeout sock_error true k none t s =
    returned (negsuc 0, ebadf) (record { timer = none; shared = s })
connect_with_timeout sock_error true k (some ctx) t s =
    if ctx.is_closed
    then returned (negsuc 0, ebadf) (record { timer = none; shared = s })
    else (if not ctx.is_socket || ctx.user_nonblock
        then direct (t ∷ []) s
        else connect_answer sock_error k t (record s { canceled = 0 }))
