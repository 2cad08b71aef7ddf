-- ===== src/Timer/Overdue.antt =====
-- The whole of listExpiredCb, and histories of calls.
use kit_server.Common.{
  ℕ, ◌≤◌, ◌<◌, ◌≡◌, refl, sym, ap, ◌∙◌, ltb, if◌then◌else◌, List, [], ◌∷◌, ◌++◌, Bool, true, false,
  not, ◌&&◌, Option, none, ◌⊎◌, inl, inr, subst, All, lt→ltb, not_lt→ltb, if_both,
}
use kit_server.Timer.{
  TimerManager, Callback, key_of, clock_changed, check_clock_change, fire, expired_split,
  list_expired_cb, get_next_time, cancel, refresh, reset, add_timer,
}
use kit_server.Timer.Invariant.{IsValid, is_some}
use kit_server.Timer.Calls.{
  cancel-IsValid, refresh-IsValid, reset-IsValid, add_timer-IsValid, get_next_time-IsValid,
}
use kit_server.Timer.Fire.{Listed, fire-Listed, ValidBut-time}

-- The body behind the tests for an empty set.
abbrev expire_from : ℕ → ℕ → ℕ → Bool → TimerManager → TimerManager × List (Option Callback)
expire_from now addr b changed m =
    if not changed && ltb (key_of m b) now
    then (record m { previous_time = now }, [])
    else (let p = expired_split changed now addr (key_of m) m.timers in
        fire now p.0 (record m { timers = p.1; previous_time = now }))

list_expired_cb_lem :
    (now addr b : ℕ) (q : List ℕ) (m : TimerManager)
    → m.timers ≡ b ∷ q
    → list_expired_cb now addr m ≡ expire_from now addr b (clock_changed now m) m
unfolding list_expired_cb check_clock_change
list_expired_cb_lem now addr b q m e =
    ap
      (λ (l : List ℕ). (elim l [
        | [] ↦ (m, [])
        | c ∷ r ↦ expire_from now addr c (clock_changed now m) m
      ]))
      e

list_expired_cb_empty :
    (now addr : ℕ) (m : TimerManager) → m.timers ≡ [] → list_expired_cb now addr m ≡ (m, [])
unfolding list_expired_cb check_clock_change
list_expired_cb_empty now addr m e =
    ap
      (λ (l : List ℕ). (elim l [
        | [] ↦ (m, [])
        | c ∷ r ↦ expire_from now addr c (clock_changed now m) m
      ]))
      e

-- Where the clock has changed or the first timer of a valid manager is not overdue,
-- listExpiredCb splits the timers in order into due ones and later ones, returns the callbacks
-- of the due ones in order, leaves a valid manager, the later ones all expire after now, and
-- without a change of the clock the due ones have all expired.
pub list_expired_cb-Listed :
    (now addr b : ℕ) (q : List ℕ) (m : TimerManager)
    → IsValid m
    → m.timers ≡ b ∷ q
    → (clock_changed now m ≡ true) ⊎ (now ≤ key_of m b)
    → Listed now m (list_expired_cb now addr m)
list_expired_cb-Listed now addr b q m v e go =
    subst (Listed now m) (sym (list_expired_cb_lem now addr b q m e)) (
      subst (Listed now m) (sym (past (clock_changed now m) go))
        (fire-Listed now addr (clock_changed now m) m v refl))
  where
    past :
        (c : Bool)
        → (c ≡ true) ⊎ (now ≤ key_of m b)
        → expire_from now addr b c m ≡ (
            let p = expired_split c now addr (key_of m) m.timers in
            fire now p.0 (record m { timers = p.1; previous_time = now }))
    past true g = refl
    past false (inl g) = cc
    past false (inr g) = rw (not_lt→ltb (key_of m b) now g)

-- The early return: where the first timer is overdue, none is taken out and no callback comes back.
pub list_expired_cb_overdue :
    (now addr b : ℕ) (q : List ℕ) (m : TimerManager)
    → m.timers ≡ b ∷ q
    → clock_changed now m ≡ false
    → key_of m b < now
    → list_expired_cb now addr m ≡ (record m { previous_time = now }, [])
list_expired_cb_overdue now addr b q m e same late =
    list_expired_cb_lem now addr b q m e
    ∙ ap (λ c. expire_from now addr b c m) same
    ∙ rw (lt→ltb (key_of m b) now late)

pub list_expired_cb-IsValid :
    (now addr : ℕ) (m : TimerManager) → IsValid m → IsValid (list_expired_cb now addr m).0
list_expired_cb-IsValid now addr m v = by_timers m.timers refl
  where
    by_timers : (l : List ℕ) → m.timers ≡ l → IsValid (list_expired_cb now addr m).0
    by_timers [] e = subst (λ r. IsValid r.0) (sym (list_expired_cb_empty now addr m e)) v
    by_timers (b ∷ q) e =
        subst (λ r. IsValid r.0) (sym (list_expired_cb_lem now addr b q m e))
          (if_both (λ (r : TimerManager × List (Option Callback)). IsValid r.0)
            (not (clock_changed now m) && ltb (key_of m b) now) (ValidBut-time m now v)
            (fire-Listed now addr (clock_changed now m) m v refl).valid)

-- A clock that does not go back is not seen as changed.
not_changed : (now : ℕ) (m : TimerManager) → m.previous_time ≤ now → clock_changed now m ≡ false
not_changed now m h = rw (not_lt→ltb now m.previous_time h)

-- The manager is asked again and again, at these times.
unfoldable pub poll : ℕ → List ℕ → TimerManager → TimerManager × List (Option Callback)
poll addr [] m = (m, [])
poll addr (now ∷ ts) m =
    let r = list_expired_cb now addr m in let r' = poll addr ts r.0 in (r'.0, r.1 ++ r'.1)

abbrev pub Ascending : ℕ → List ℕ → Type 0
Ascending t [] = Unit {0}
Ascending t (now ∷ ts) = (t ≤ now) × Ascending now ts

-- Once the first timer is overdue at each of a list of times that do not go back, from the last
-- time of the manager on, calls of listExpiredCb at these times return no callback and take no
-- timer out.
pub poll_overdue :
    (addr b : ℕ) (q ts : List ℕ) (m : TimerManager)
    → m.timers ≡ b ∷ q
    → Ascending m.previous_time ts
    → All (λ now. key_of m b < now) ts
    → ((poll addr ts m).1 ≡ []) × ((poll addr ts m).0.timers ≡ m.timers)
unfolding poll
poll_overdue addr b q [] m e up late = (refl, refl)
poll_overdue addr b q (now ∷ ts) m e up late =
    let step = list_expired_cb_overdue now addr b q m e (not_changed now m up.0) late.0 in
    let rest = poll_overdue addr b q ts (record m { previous_time = now }) e up.1 late.1 in
    (
      ap (λ r. r.1 ++ (poll addr ts r.0).1) step ∙ rest.0,
      ap (λ r. (poll addr ts r.0).0.timers) step ∙ rest.1,
    )

-- The calls, each at a time of the server's clock and with no other call within it. A new timer has a
-- callback, and its address is not that of a timer which still has one.
pub data Step (now : ℕ) (m : TimerManager) : TimerManager → Type 0 where
  adds :
      (a ms : ℕ) (cb : Option Callback) (r : Bool)
      → is_some cb ≡ true
      → (m.store a).cb ≡ none
      → Step now m (add_timer a ms cb r now m)
  cancels : (a : ℕ) → Step now m (cancel a m).0
  refreshes : (a : ℕ) → Step now m (refresh a now m).0
  resets : (a ms : ℕ) (from_now : Bool) → Step now m (reset a ms from_now now m).0
  waits : Step now m (get_next_time now m).0
  expires : (addr : ℕ) → Step now m (list_expired_cb now addr m).0

pub data Reach (m : TimerManager) : TimerManager → Type 0 where
  here : Reach m m
  next : {t u : TimerManager} (now : ℕ) → Reach m t → Step now t u → Reach m u

Step-IsValid : {now : ℕ} {m t : TimerManager} → Step now m t → IsValid m → IsValid t
Step-IsValid {now} {m} (adds a ms cb r live fresh) v =
    add_timer-IsValid a ms cb r now m v live fresh
Step-IsValid {now} {m} (cancels a) v = cancel-IsValid a m v
Step-IsValid {now} {m} (refreshes a) v = refresh-IsValid a now m v
Step-IsValid {now} {m} (resets a ms from_now) v = reset-IsValid a ms from_now now m v
Step-IsValid {now} {m} waits v = get_next_time-IsValid now m v
Step-IsValid {now} {m} (expires addr) v = list_expired_cb-IsValid now addr m v

-- After any history of calls, none of which begins before the last one has ended (addTimer with a
-- callback that is not empty, at addresses that no timer with a callback has, cancel, refresh, reset,
-- getNextTime, listExpiredCb), at any times, from a valid manager, the sequence of timers is ordered by
-- expiry and address and holds exactly the timers that have a callback.
pub Reach-IsValid : {m t : TimerManager} → IsValid m → Reach m t → IsValid t
Reach-IsValid v here = v
Reach-IsValid v (next now r st) = Step-IsValid st (Reach-IsValid v r)
