-- ===== src/Timer.antt =====
-- kit_server/timer.h and kit_server/timer.cpp: timers and their manager.
--
-- Timer objects are shared through pointers, so the manager holds a store from addresses to
-- objects. `m_timers` is the std::set as the sequence of its addresses, ordered by the Comparator
-- on the objects that they point to. The server's time is an argument of each operation, and so is
-- the address that `new` gives. `onTimerInsertedAtFront`, which IOManager implements, is counted in
-- `wakes`. Each function here is a critical section of the read-write lock, but `reset`, which is
-- two: `reset_move` and `reset_add`.
pub mod Queue
pub mod Invariant
pub mod Calls
pub mod Expiry
pub mod Fire
pub mod Overdue
pub mod Race
mod Tests
use kit_server.Common.{
  ℕ, zero, suc, ◌+◌, ◌-◌, ◌*◌, ◌%◌, ◌^◌, ltb, leb, ◌==◌, if◌then◌else◌, List, [], ◌∷◌, ◌++◌, Option,
  none, some, Bool, true, false, not, ◌&&◌, ◌||◌,
}

-- A callback, or one that runs only while the object that it was bound to is alive.
pub data Callback : Type 0 where
  plain : ℕ → Callback
  on_timer : ℕ → ℕ → Callback

pub record Timer : Type 0 where
  pub ms : ℕ
  pub cb : Option Callback
  pub recurring : Bool
  pub next : ℕ

pub record TimerManager : Type 0 where
  pub store : ℕ → Timer
  pub timers : List ℕ
  pub tickled : Bool
  pub previous_time : ℕ
  pub wakes : ℕ

-- uint64_t arithmetic.
abbrev pub add64 : ℕ → ℕ → ℕ
add64 a b = (a + b) % 2 ^ 64

abbrev pub sub64 : ℕ → ℕ → ℕ
sub64 a b = (a + 2 ^ 64 - b) % 2 ^ 64

-- What `OnTimer` runs, by whether the weak pointer can be locked.
unfoldable pub run_callback : (ℕ → Bool) → Callback → List ℕ
run_callback alive (plain f) = f ∷ []
run_callback alive (on_timer cond f) = if alive cond then f ∷ [] else []

-- The callback may be empty.
abbrev pub new_timer : ℕ → Option Callback → Bool → ℕ → Timer
new_timer ms cb recurring now = record {
  ms = ms;
  cb = cb;
  recurring = recurring;
  next = add64 now ms;
}

-- The Comparator, on a pointer that may be null and the expiry that it points to.
unfoldable pub comparator : Option (ℕ × ℕ) → Option (ℕ × ℕ) → Bool
comparator none none = false
comparator none (some r) = true
comparator (some l) none = false
comparator (some (la, ln)) (some (ra, rn)) =
    if ltb ln rn then true else (if ltb rn ln then false else ltb la ra)

module _ (key : ℕ → ℕ) where
  unfoldable pub less : ℕ → ℕ → Bool
  unfolding comparator
  less a b = comparator (some (a, key a)) (some (b, key b))

  -- `insert`, `find` and `erase` of the set: two keys are one where neither is less.
  unfoldable pub insert : ℕ → List ℕ → List ℕ
  insert a [] = a ∷ []
  insert a (b ∷ q) =
      let rest = insert a q in
      if less a b then a ∷ b ∷ q else (if less b a then b ∷ rest else b ∷ q)

  unfoldable pub find : ℕ → List ℕ → Bool
  find a [] = false
  find a (b ∷ q) = (not (less a b) && not (less b a)) || find a q

  unfoldable pub erase : ℕ → List ℕ → List ℕ
  erase a [] = []
  erase a (b ∷ q) = let rest = erase a q in if not (less a b) && not (less b a) then q else b ∷ rest

  -- The elements before `lower_bound` of a timer at `addr` that expires at `now`, and the others.
  unfoldable pub lower_bound : ℕ → ℕ → List ℕ → List ℕ × List ℕ
  unfolding comparator
  lower_bound now addr [] = ([], [])
  lower_bound now addr (b ∷ q) =
      let p = lower_bound now addr q in
      if comparator (some (b, key b)) (some (addr, now)) then (b ∷ p.0, p.1) else ([], b ∷ q)

  -- The loop that goes on over timers which expire at `now`.
  unfoldable pub skip_equal : ℕ → List ℕ → List ℕ × List ℕ
  skip_equal now [] = ([], [])
  skip_equal now (b ∷ q) =
      let p = skip_equal now q in if key b == now then (b ∷ p.0, p.1) else ([], b ∷ q)

abbrev pub key_of : TimerManager → ℕ → ℕ
key_of m a = (m.store a).next

abbrev pub update : (ℕ → Timer) → ℕ → Timer → ℕ → Timer
update s a t b = if b == a then t else s b

unfoldable pub cancel : ℕ → TimerManager → TimerManager × Bool
cancel a m = elim (m.store a).cb [
  | none ↦ (m, false)
  | some f ↦
      (let m' = record m { store = update m.store a (record (m.store a) { cb = none }) } in
        if find (key_of m') a m'.timers
        then (record m' { timers = erase (key_of m') a m'.timers }, true)
        else (m', false))
]

-- The removal and the new expiry come before the insertion, which compares by it.
abbrev pub move_timer : ℕ → Timer → TimerManager → TimerManager
move_timer a t m = record m { timers = erase (key_of m) a m.timers; store = update m.store a t }

unfoldable pub refresh : ℕ → ℕ → TimerManager → TimerManager × Bool
refresh a now m = elim (m.store a).cb [
  | none ↦ (m, false)
  | some f ↦
      if find (key_of m) a m.timers
      then (let t = m.store a in
          let m' = move_timer a (record t { next = add64 now t.ms }) m in
          (record m' { timers = insert (key_of m') a m'.timers }, true))
      else (m, false)
]

abbrev pub is_begin : ℕ → List ℕ → Bool
is_begin a [] = false
is_begin a (b ∷ q) = b == a

-- `addTimer(Timer::ptr)`.
unfoldable pub add_timer_ptr : ℕ → TimerManager → TimerManager
add_timer_ptr a m =
    let q = insert (key_of m) a m.timers in
    let is_front = is_begin a q && not m.tickled in
    record m {
      timers = q;
      tickled = if is_front then true else m.tickled;
      wakes = if is_front then m.wakes + 1 else m.wakes;
    }

-- The part of `reset` behind which it lets go of the lock: the answer where it ends there, and `none`
-- where it goes on to `addTimer`.
unfoldable pub reset_move : ℕ → ℕ → Bool → ℕ → TimerManager → TimerManager × Option Bool
reset_move a ms from_now now m =
    if (m.store a).ms == ms && not from_now then (m, some true) else elim (m.store a).cb [
      | none ↦ (m, some false)
      | some f ↦
          if find (key_of m) a m.timers
          then (let t = m.store a in
              let start = if from_now then now else sub64 t.next t.ms in
              let t' = record t { ms = ms; next = add64 start ms } in (move_timer a t' m, none))
          else (m, some false)
    ]

unfoldable pub reset_add : ℕ → TimerManager × Option Bool → TimerManager × Bool
reset_add a (m, some answer) = (m, answer)
reset_add a (m, none) = (add_timer_ptr a m, true)

-- With no other call between its two critical sections.
abbrev pub reset : ℕ → ℕ → Bool → ℕ → TimerManager → TimerManager × Bool
reset a ms from_now now m = reset_add a (reset_move a ms from_now now m)

-- `addTimer` and, with an `on_timer` callback, `addConditionTimer`. `a` is what `new` returns.
unfoldable pub add_timer : ℕ → ℕ → Option Callback → Bool → ℕ → TimerManager → TimerManager
add_timer a ms cb recurring now m =
    add_timer_ptr a (record m { store = update m.store a (new_timer ms cb recurring now) })

abbrev pub time_left : ℕ → (ℕ → ℕ) → List ℕ → ℕ
time_left now key [] = 2 ^ 64 - 1
time_left now key (a ∷ q) = if leb (key a) now then 0 else key a - now

unfoldable pub get_next_time : ℕ → TimerManager → TimerManager × ℕ
get_next_time now m = (record m { tickled = false }, time_left now (key_of m) m.timers)

-- The clock was set back by more than an hour.
abbrev pub clock_changed : ℕ → TimerManager → Bool
clock_changed now m = ltb now m.previous_time && ltb now (sub64 m.previous_time (60 * 60 * 1000))

unfoldable pub check_clock_change : ℕ → TimerManager → TimerManager × Bool
check_clock_change now m = (record m { previous_time = now }, clock_changed now m)

-- What happens to an expired timer that has been taken out of the set.
unfoldable pub fire_one : ℕ → ℕ → TimerManager → TimerManager
fire_one now a m =
    let t = m.store a in
    if t.recurring
    then (let m' = record m { store = update m.store a (record t { next = add64 now t.ms }) } in
        record m' { timers = insert (key_of m') a m'.timers })
    else record m { store = update m.store a (record t { cb = none }) }

unfoldable pub fire : ℕ → List ℕ → TimerManager → TimerManager × List (Option Callback)
fire now [] m = (m, [])
fire now (a ∷ q) m = let r = fire now q (fire_one now a m) in (r.0, (m.store a).cb ∷ r.1)

-- The timers up to the first that has not expired, and the others; all of them after a change of
-- the clock.
unfoldable pub expired_split : Bool → ℕ → ℕ → (ℕ → ℕ) → List ℕ → List ℕ × List ℕ
expired_split true now addr key q = (q, [])
expired_split false now addr key q =
    let p = lower_bound key now addr q in let r = skip_equal key now p.1 in (p.0 ++ r.0, r.1)

-- `addr` is the address of the timer that is made to search with.
unfoldable pub list_expired_cb : ℕ → ℕ → TimerManager → TimerManager × List (Option Callback)
list_expired_cb now addr m = elim m.timers [
  | [] ↦ (m, [])
  | b ∷ q ↦
      (let (m', changed) = check_clock_change now m in
        if not changed && ltb (key_of m' b) now
        then (m', [])
        else (let p = expired_split changed now addr (key_of m') m'.timers in
            fire now p.0 (record m' { timers = p.1 })))
]

unfoldable pub is_timers_empty : TimerManager → Bool
is_timers_empty m = elim m.timers [ [] ↦ true | a ∷ q ↦ false ]
