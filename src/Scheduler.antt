-- ===== src/Scheduler.antt =====
-- kit_server/scheduler.h and scheduler.cpp: the task queue and what `run` does with a task.
--
-- A task names a coroutine by a number, or a callback, or neither, which a null pointer given to
-- `schedule` comes to. A thread number of `none` is the -1 of a task that any thread may run. Each
-- critical section of the mutex is one step. The states of coroutines are an argument of `pick`:
-- other threads may run some of them.
pub mod Pick
mod Tests
use kit_server.Common.{
  ℕ, zero, suc, ◌+◌, ◌==◌, if◌then◌else◌, List, [], ◌∷◌, ◌++◌, Option, none, some, Bool, true,
  false, not, ◌&&◌, ◌||◌,
}
use kit_server.Coroutine.{
  State, ready, hold, Coroutine, is_exec, is_ended, new_coroutine, reset, swap_in, yield_to_ready,
  yield_to_hold, returned, threw,
}

pub data Work : Type 0 where
  cor : ℕ → Work
  cb : ℕ → Work
  nothing : Work

pub record Task : Type 0 where
  pub work : Work
  pub thread : Option ℕ

unfoldable pub is_empty {ℓ} : {A : Type ℓ} → List A → Bool
is_empty [] = true
is_empty (a ∷ l) = false

-- `co.cor || co.cb`.
unfoldable pub has_work : Work → Bool
has_work (cor c) = true
has_work (cb f) = true
has_work nothing = false

-- The new queue, and whether the queue was empty before, which is when `schedule` calls `tickle`.
unfoldable pub schedule : Task → List Task → List Task × Bool
schedule t q = (if has_work t.work then q ++ t ∷ [] else q, is_empty q)

-- The overload that takes a range of tasks.
unfoldable pub schedule_all : List Task → List Task → List Task × Bool
schedule_all [] q = (q, false)
schedule_all (t ∷ ts) q =
    let r = schedule t q in let rest = schedule_all ts r.0 in (rest.0, r.1 || rest.1)

unfoldable pub is_for : ℕ → Option ℕ → Bool
is_for me none = true
is_for me (some t) = t == me

unfoldable pub is_running : (ℕ → State) → Work → Bool
is_running states (cor c) = is_exec (states c)
is_running states (cb f) = false
is_running states nothing = false

-- What the loop over the queue finds: an assertion failed; no task, and the flag `is_tickle`; a task,
-- the queue without it, and the flag.
pub data Picked : Type 0 where
  failed : Picked
  idle : (is_tickle : Bool) → Picked
  took : Task → List Task → (is_tickle : Bool) → Picked

-- A task that is passed over stays in front.
unfoldable pub pass : Task → Bool → Picked → Picked
pass t tickle failed = failed
pass t tickle (idle b) = idle (tickle || b)
pass t tickle (took u q b) = took u (t ∷ q) (tickle || b)

unfoldable pub pick : (me : ℕ) → (ℕ → State) → List Task → Picked
pick me states [] = idle false
pick me states (t ∷ q) =
    let rest = pick me states q in
    if not (is_for me t.thread)
    then pass t true rest
    else (if has_work t.work
        then (if is_running states t.work then pass t false rest else took t q true)
        else failed)

-- What the code of a coroutine does between swapIn and the next swapOut.
pub data Slice : Type 0 where
  yields_ready : Slice
  yields_hold : Slice
  returns : Slice
  throws : Slice

unfoldable pub slice : Slice → Coroutine → Option Coroutine
slice yields_ready c = yield_to_ready c
slice yields_hold c = yield_to_hold c
slice returns c = some (returned c)
slice throws c = some (threw c)

unfoldable pub is_ready : State → Bool
is_ready State.ready = true
is_ready State.init = false
is_ready State.hold = false
is_ready State.exec = false
is_ready State.term = false
is_ready State.exception = false

-- The branches behind swapIn, and whether the coroutine is scheduled again.
unfoldable pub settle : Coroutine → Coroutine × Bool
settle c =
    if is_ready c.state
    then (c, true)
    else (if is_ended c.state then (c, false) else (record c { state = hold }, false))

unfoldable pub then_settle : Option Coroutine → Option (Coroutine × Bool)
then_settle none = none
then_settle (some c) = some (settle c)

unfoldable pub then_slice : Slice → Option Coroutine → Option (Coroutine × Bool)
then_slice s none = none
then_slice s (some c) = then_settle (slice s c)

-- The branch of `run` for a task that is a coroutine.
unfoldable pub run_coroutine : Slice → Coroutine → Option (Coroutine × Bool)
run_coroutine s c =
    let r = then_slice s (swap_in c) in if is_ended c.state then some (c, false) else r

-- `cb_coroutine` before it runs the callback `f`.
unfoldable pub prepare : ℕ → Option Coroutine → Option Coroutine
prepare f none = some (new_coroutine (some f))
prepare f (some c) = reset (some f) c

-- The pointer `cb_coroutine` and the coroutine that was given up, which is in the queue again where it
-- is ready.
abbrev pub Kept : Type 0
Kept = Option Coroutine × Option (Coroutine × Bool)

unfoldable pub reset_null : Option Coroutine → Option Kept
reset_null none = none
reset_null (some c) = some (some c, none)

unfoldable pub settle_cb : Coroutine → Option Kept
settle_cb c = if is_ended c.state then reset_null (reset none c) else some (none, some (settle c))

unfoldable pub then_settle_cb : Option Coroutine → Option Kept
then_settle_cb none = none
then_settle_cb (some c) = settle_cb c

unfoldable pub then_slice_cb : Slice → Option Coroutine → Option Kept
then_slice_cb s none = none
then_slice_cb s (some c) = then_settle_cb (slice s c)

unfoldable pub then_swap_in : Slice → Option Coroutine → Option Kept
then_swap_in s none = none
then_swap_in s (some c) = then_slice_cb s (swap_in c)

-- The branch of `run` for a task that is a callback.
unfoldable pub run_cb : Slice → ℕ → Option Coroutine → Option Kept
run_cb s f c = then_swap_in s (prepare f c)

unfoldable pub stopping : (auto_stop stop : Bool) → List Task → (active : ℕ) → Bool
stopping auto_stop stop q active = auto_stop && (stop && (is_empty q && (active == 0)))
