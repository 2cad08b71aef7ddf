-- ===== src/Timer/Calls.antt =====
-- The calls of timers and their manager: what each does to a valid manager.
use kit_server.Common.{
  ℕ, ◌≡◌, refl, sym, ap, ◌∙◌, ◌==◌, if◌then◌else◌, List, [], ◌∷◌, Bool, true, false, not, ◌&&◌,
  Option, none, some, Bool-cases, Option-cases, inl, inr, ==_iff,
}
use kit_server.Timer.{
  Timer, TimerManager, Callback, find, key_of, update, cancel, refresh, add_timer_ptr, reset,
  reset_move, reset_add, new_timer, add_timer, get_next_time, add64,
}
use kit_server.Timer.Queue.{find-eq-mem}
use kit_server.Timer.Invariant.{
  is_some, ValidBut, IsValid, arm, arm-ValidBut, disarm, disarm-ValidBut, take_out,
  take_out-ValidBut,
}
use mathlib.Core.Path.{fun_ext}

key_same :
    (a : ℕ) (m : TimerManager)
    → (λ b. (update m.store a (record (m.store a) { cb = none }) b).next) ≡ key_of m
key_same a m = fun_ext λ b. elim (Bool-cases (b == a)) [
  | inl same ↦ let eq : b ≡ a = (==_iff b a).0 same in rw same (ap (λ c. (m.store c).next) (sym eq))
  | inr other ↦ rw other
]

-- In a valid manager cancel answers true exactly where the timer has a callback: then the timer
-- is taken out of the sequence and loses its callback; else nothing changes. Its error branch is
-- never reached.
pub cancel_lem :
    (a : ℕ) (m : TimerManager)
    → IsValid m
    → cancel a m ≡ (if is_some (m.store a).cb then (disarm a (take_out a m), true) else (m, false))
unfolding cancel
cancel_lem a m v = elim (Option-cases (m.store a).cb) [
  | inl e ↦ rw (e, cancel)
  | inr (f, e) ↦
      let queued : find (key_of m) a m.timers ≡ true =
        find-eq-mem (key_of m) a m.timers ∙ v.armed a refl ∙ ap is_some e in
      rw (e, cancel, key_same a m, queued)
]

-- A test of the set behind a test of the callback.
guarded :
    (o : Option Callback) (b : Bool) (x y : TimerManager × Bool)
    → b ≡ is_some o
    → (elim o [ none ↦ y | some f ↦ if b then x else y ]) ≡ (if is_some o then x else y)
guarded none b x y e = refl
guarded (some f) b x y e = rw e

-- `refresh` starts the interval of a timer with a callback anew, and answers whether it did.
pub refresh_lem :
    (a now : ℕ) (m : TimerManager)
    → IsValid m
    → refresh a now m ≡ (
        if is_some (m.store a).cb
        then (arm a (record (m.store a) { next = add64 now (m.store a).ms }) (take_out a m), true)
        else (m, false))
unfolding refresh
refresh_lem a now m v = guarded (m.store a).cb (find (key_of m) a m.timers) _ _ queued
  where
    queued : find (key_of m) a m.timers ≡ is_some (m.store a).cb
    queued = find-eq-mem (key_of m) a m.timers ∙ v.armed a refl

-- The flags are no part of the invariant.
ValidBut-flags :
    {out : List ℕ} (m : TimerManager) (b : Bool) (w p : ℕ)
    → ValidBut out m
    → ValidBut out (record m { tickled = b; wakes = w; previous_time = p })
ValidBut-flags m b w p v = record { sorted = v.sorted; taken = v.taken; armed = v.armed }

pub cancel-IsValid : (a : ℕ) (m : TimerManager) → IsValid m → IsValid (cancel a m).0
cancel-IsValid a m v = rw (cancel_lem a m v) (by_callback (is_some (m.store a).cb))
  where
    by_callback :
        (b : Bool)
        → IsValid
            (let r : TimerManager × Bool =
                if b then (disarm a (take_out a m), true) else (m, false) in
              r).0
    by_callback true = disarm-ValidBut a [] (take_out a m) refl (take_out-ValidBut a m v)
    by_callback false = v

pub refresh-IsValid : (a now : ℕ) (m : TimerManager) → IsValid m → IsValid (refresh a now m).0
refresh-IsValid a now m v = rw (refresh_lem a now m v) (by_callback (m.store a).cb refl)
  where
    t : Timer
    t = record (m.store a) { next = add64 now (m.store a).ms }

    by_callback :
        (o : Option Callback)
        → (m.store a).cb ≡ o
        → IsValid
            (let r : TimerManager × Bool =
                if is_some o then (arm a t (take_out a m), true) else (m, false) in
              r).0
    by_callback none e = v
    by_callback (some f) e =
        arm-ValidBut a t [] (take_out a m) (ap is_some e) refl (take_out-ValidBut a m v)

-- The insertion of a new timer or of one that was taken out, with a callback.
pub add_timer_ptr-IsValid :
    (a : ℕ) (t : Timer) (m : TimerManager)
    → is_some t.cb ≡ true
    → ValidBut (a ∷ []) m
    → IsValid (add_timer_ptr a (record m { store = update m.store a t }))
unfolding add_timer_ptr
add_timer_ptr-IsValid a t m live v =
    ValidBut-flags (arm a t m) _ _ _ (arm-ValidBut a t [] m live refl v)

-- An address that `new` returns belongs to no timer with a callback.
pub add_timer-IsValid :
    (a ms : ℕ) (cb : Option Callback) (recurring : Bool) (now : ℕ) (m : TimerManager)
    → IsValid m
    → is_some cb ≡ true
    → (m.store a).cb ≡ none
    → IsValid (add_timer a ms cb recurring now m)
unfolding add_timer
add_timer-IsValid a ms cb recurring now m v live fresh =
    add_timer_ptr-IsValid a (new_timer ms cb recurring now) m live (record {
      sorted = v.sorted;
      taken = λ b e. elim (Bool-cases (b == a)) [
        | inl same ↦
            let eq : b ≡ a = (==_iff b a).0 same in
            v.armed b refl ∙ ap (λ c. is_some (m.store c).cb) eq ∙ ap is_some fresh
        | inr other ↦ cc (rw other at e)
      ];
      armed = λ b e. v.armed b refl;
    })

pub reset-IsValid :
    (a ms : ℕ) (from_now : Bool) (now : ℕ) (m : TimerManager)
    → IsValid m
    → IsValid (reset a ms from_now now m).0
unfolding reset_move reset_add
reset-IsValid a ms from_now now m v = elim (Bool-cases ((m.store a).ms == ms && not from_now)) [
  | inl same ↦ rw same v
  | inr other ↦ elim (Option-cases (m.store a).cb) [
    | inl e ↦ rw (other, e) v
    | inr (f, e) ↦
        let queued : find (key_of m) a m.timers ≡ true =
          find-eq-mem (key_of m) a m.timers ∙ v.armed a refl ∙ ap is_some e in
        rw (other, e, queued)
          (add_timer_ptr-IsValid a _ (take_out a m) (ap is_some e) (take_out-ValidBut a m v))
  ]
]

pub get_next_time-IsValid :
    (now : ℕ) (m : TimerManager) → IsValid m → IsValid (get_next_time now m).0
unfolding get_next_time
get_next_time-IsValid now m v = ValidBut-flags m false m.wakes m.previous_time v
