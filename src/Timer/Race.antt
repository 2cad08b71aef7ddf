-- ===== src/Timer/Race.antt =====
-- kit_server/timer.cpp: a cancel between the two critical sections of reset.
use kit_server.Common.{
  ℕ, ◌≡◌, refl, sym, ap, ◌∙◌, if◌then◌else◌, ◌==◌, Bool, true, false, not, ◌&&◌, Option, none, some,
  ==_refl, subst,
}
use mathlib.Core.Option.{none-ne-some}
use kit_server.Timer.{
  Timer, TimerManager, Callback, key_of, find, cancel, reset_move, reset_add, move_timer,
  add_timer_ptr, add64, sub64,
}
use kit_server.Timer.Queue.{mem, find-eq-mem, mem-insert, mem-erase}
use kit_server.Timer.Invariant.{IsValid, is_some, disarm}

-- `cancel` of a timer that has a callback and is not queued.
cancel_absent :
    (a : ℕ) (f : Callback) (m : TimerManager)
    → (m.store a).cb ≡ some f
    → mem a m.timers ≡ false
    → cancel a m ≡ (disarm a m, false)
unfolding cancel
cancel_absent a f m e absent =
    rw (e, cancel, find-eq-mem (key_of (disarm a m)) a m.timers, absent) refl

take_some :
    (o : Option Callback) (f : Callback) (x y : TimerManager × Option Bool)
    → o ≡ some f
    → (elim o [ none ↦ y | some g ↦ x ]) ≡ x
take_some none f x y e = absurd (none-ne-some f e)
take_some (some g) f x y e = refl

reset_move_lem :
    (a ms now : ℕ) (from_now : Bool) (f : Callback) (m : TimerManager)
    → IsValid m
    → (m.store a).cb ≡ some f
    → ((m.store a).ms == ms && not from_now) ≡ false
    → (t : Timer) × (reset_move a ms from_now now m ≡ (move_timer a t m, none)) × (t.cb ≡ some f)
unfolding reset_move
reset_move_lem a ms now from_now f m v e other =
    let queued : find (key_of m) a m.timers ≡ true =
      find-eq-mem (key_of m) a m.timers ∙ v.armed a refl ∙ ap is_some e in
    let start = if from_now then now else sub64 (m.store a).next (m.store a).ms in
    (
      record (m.store a) { ms = ms; next = add64 start ms },
      rw other (take_some (m.store a).cb f _ _ e ∙ rw queued refl),
      e,
    )

-- In a valid manager, let a timer with a callback be reset, with another interval or from now, and
-- cancelled by another thread before the reset takes the lock again. The cancel answers false, the
-- reset answers true, and the timer is then queued without a callback.
reset_cancel_race :
    (a ms now : ℕ) (from_now : Bool) (f : Callback) (m : TimerManager)
    → IsValid m
    → (m.store a).cb ≡ some f
    → ((m.store a).ms == ms && not from_now) ≡ false
    → let first = reset_move a ms from_now now m in
      let between = cancel a first.0 in
      let last = reset_add a (between.0, first.1) in
      (between.1 ≡ false)
      × (last.1 ≡ true)
      × (mem a last.0.timers ≡ true)
      × ((last.0.store a).cb ≡ none)
unfolding reset_add add_timer_ptr
reset_cancel_race a ms now from_now f m v e other =
    let (t, moved, live) = reset_move_lem a ms now from_now f m v e other in
    subst Lost (sym moved) (behind t live)
  where
    Lost : TimerManager × Option Bool → Type 0
    Lost first =
        let between = cancel a first.0 in
        let last = reset_add a (between.0, first.1) in
        (between.1 ≡ false)
        × (last.1 ≡ true)
        × (mem a last.0.timers ≡ true)
        × ((last.0.store a).cb ≡ none)

    queued : (k : TimerManager) → mem a (add_timer_ptr a (disarm a k)).timers ≡ true
    queued k = rw (mem-insert (key_of (disarm a k)) a a k.timers, ==_refl a) refl

    unarmed : (k : TimerManager) → ((add_timer_ptr a (disarm a k)).store a).cb ≡ none
    unarmed k = rw (==_refl a) refl

    behind : (t : Timer) → t.cb ≡ some f → Lost (move_timer a t m, none)
    behind t live =
        let m' = move_timer a t m in
        let here : (m'.store a).cb ≡ some f = rw (==_refl a) live in
        let gone : mem a m'.timers ≡ false =
          mem-erase (key_of m) a a m.timers v.sorted ∙ rw (==_refl a) refl in
        subst
          (λ (r : TimerManager × Bool).
            (r.1 ≡ false)
            × ((reset_add a (r.0, none)).1 ≡ true)
            × (mem a (reset_add a (r.0, none)).0.timers ≡ true)
            × (((reset_add a (r.0, none)).0.store a).cb ≡ none))
          (sym (cancel_absent a f m' here gone)) (refl, refl, queued m', unarmed m')
