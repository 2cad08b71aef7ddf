-- ===== src/Scheduler/Pick.antt =====
-- kit_server/scheduler.cpp: the task that the loop takes, and what becomes of its coroutine.
use kit_server.Common.{
  ℕ, ◌≡◌, refl, ap, sym, subst, List, [], ◌∷◌, ◌++◌, Option, none, some, Bool, true, false, not,
  ◌||◌, Bool-cases, ◌⊎◌, inl, inr,
}
use kit_server.Coroutine.{
  State, Coroutine, is_exec, is_ended, is_init, assert, new_coroutine, reset, swap_in,
  yield_to_ready, yield_to_hold, returned, threw,
}
use kit_server.Scheduler.{
  Task, has_work, is_for, is_running, Picked, failed, idle, took, pass, pick, Slice, yields_ready,
  yields_hold, returns, throws, slice, is_ready, settle, then_settle, then_slice, run_coroutine,
  prepare, Kept, reset_null, settle_cb, then_settle_cb, then_slice_cb, then_swap_in, run_cb,
}

-- A task that thread `me` leaves in the queue: it is another thread's, or its coroutine runs.
abbrev pub Skipped : ℕ → (ℕ → State) → Task → Type 0
Skipped me states t =
    (is_for me t.thread ≡ false) ⊎ ((is_for me t.thread ≡ true) × (is_running states t.work ≡ true))

unfoldable pub AllSkipped : ℕ → (ℕ → State) → List Task → Type 0
AllSkipped me states [] = Unit
AllSkipped me states (t ∷ q) = Skipped me states t × AllSkipped me states q

-- Every task has a coroutine or a callback.
unfoldable pub HasWork : List Task → Type 0
HasWork [] = Unit
HasWork (t ∷ q) = (has_work t.work ≡ true) × HasWork q

-- Whether some task is another thread's.
unfoldable pub any_other : ℕ → List Task → Bool
any_other me [] = false
any_other me (t ∷ q) = not (is_for me t.thread) || any_other me q

-- What the loop finds in a queue, as a predicate.
unfoldable pub Finds : ℕ → (ℕ → State) → List Task → Picked → Type 0
Finds me states q failed = ⊥
Finds me states q (idle b) = AllSkipped me states q × (b ≡ any_other me q)
Finds me states q (took t rest b) =
    (before : List Task) × (after : List Task) × (q ≡ before ++ t ∷ after)
    × (rest ≡ before ++ after)
    × AllSkipped me states before
    × (is_for me t.thread ≡ true)
    × (is_running states t.work ≡ false)
    × (b ≡ true)

pass-Finds :
    (me : ℕ) (states : ℕ → State) (t : Task) (q : List Task) (r : Picked) (b : Bool)
    → Skipped me states t
    → b ≡ not (is_for me t.thread)
    → Finds me states q r
    → Finds me states (t ∷ q) (pass t b r)
unfolding Finds AllSkipped pass any_other
pass-Finds me states t q failed b s e f = f
pass-Finds me states t q (idle c) b s e f = ((s, f.0), rw (e, f.1) refl)
pass-Finds me states t q (took u rest c) b s e f =
    (t ∷ f.0, f.1, ap (λ l. t ∷ l) f.2, ap (λ l. t ∷ l) f.3, (s, f.4), f.5, f.6, rw f.7 (or_true b))
  where
    or_true : (b : Bool) → (b || true) ≡ true
    or_true true = refl
    or_true false = refl

empty-Finds : (me : ℕ) (states : ℕ → State) → Finds me states [] (pick me states [])
unfolding pick Finds AllSkipped any_other
empty-Finds me states = (tt, refl)

pick_other :
    (me : ℕ) (states : ℕ → State) (t : Task) (q : List Task)
    → is_for me t.thread ≡ false
    → pick me states (t ∷ q) ≡ pass t true (pick me states q)
unfolding pick
pick_other me states t q e = rw e refl

pick_running :
    (me : ℕ) (states : ℕ → State) (t : Task) (q : List Task)
    → is_for me t.thread ≡ true
    → has_work t.work ≡ true
    → is_running states t.work ≡ true
    → pick me states (t ∷ q) ≡ pass t false (pick me states q)
unfolding pick
pick_running me states t q e w r = rw (e, w, r) refl

pick_mine :
    (me : ℕ) (states : ℕ → State) (t : Task) (q : List Task)
    → is_for me t.thread ≡ true
    → has_work t.work ≡ true
    → is_running states t.work ≡ false
    → pick me states (t ∷ q) ≡ took t q true
unfolding pick
pick_mine me states t q e w r = rw (e, w, r) refl

took-Finds :
    (me : ℕ) (states : ℕ → State) (t : Task) (q : List Task)
    → is_for me t.thread ≡ true
    → is_running states t.work ≡ false
    → Finds me states (t ∷ q) (took t q true)
unfolding Finds AllSkipped
took-Finds me states t q e r = ([], q, refl, refl, tt, e, r, refl)

-- On a queue whose tasks all have work, the loop of `run` takes the first task that is for this
-- thread and not a running coroutine, leaves all others in their order, and asks for a tickle; where
-- there is none it leaves the queue, and asks for a tickle exactly if a task is another thread's.
pub pick-Finds :
    (me : ℕ) (states : ℕ → State) (q : List Task) → HasWork q → Finds me states q (pick me states q)
unfolding HasWork
pick-Finds me states [] h = empty-Finds me states
pick-Finds me states (t ∷ q) h =
    let rest = pick-Finds me states q h.1 in
    elim (Bool-cases (is_for me t.thread)) [
      | inr e ↦
          subst (Finds me states (t ∷ q)) (sym (pick_other me states t q e))
            (pass-Finds me states t q (pick me states q) true (inl e) (sym (ap not e)) rest)
      | inl e ↦ elim (Bool-cases (is_running states t.work)) [
        | inl r ↦
            subst (Finds me states (t ∷ q)) (sym (pick_running me states t q e h.0 r))
              (pass-Finds me states t q (pick me states q) false (inr (e, r)) (sym (ap not e)) rest)
        | inr r ↦
            subst (Finds me states (t ∷ q)) (sym (pick_mine me states t q e h.0 r))
              (took-Finds me states t q e r)
      ]
    ]

-- What a slice leaves: the state, and whether the coroutine is scheduled again.
abbrev pub after : Slice → State × Bool
after yields_ready = (State.ready, true)
after yields_hold = (State.hold, false)
after returns = (State.term, false)
after throws = (State.exception, false)

-- A task whose coroutine is neither running nor ended runs until it gives up the thread, with no
-- assertion failed: a coroutine that yields as ready is scheduled again, one that yields otherwise is
-- held, one that returns or throws has ended; in no case it is left running.
pub run_coroutine_lem :
    (s : Slice) (c : Coroutine)
    → is_exec c.state ≡ false
    → is_ended c.state ≡ false
    → (c' : Coroutine) × (run_coroutine s c ≡ some (c', (after s).1)) × (c'.state ≡ (after s).0)
unfolding run_coroutine then_slice then_settle swap_in assert slice settle yield_to_ready
    yield_to_hold is_exec is_ready is_ended
run_coroutine_lem yields_ready c x e = rw (x, e) (record c { state = State.ready }, refl, refl)
run_coroutine_lem yields_hold c x e = rw (x, e) (record c { state = State.hold }, refl, refl)
run_coroutine_lem returns c x e = rw (x, e) (returned c, refl, refl)
run_coroutine_lem throws c x e = rw (x, e) (threw c, refl, refl)

-- What `cb_coroutine` is between two tasks of a thread: null, or ready to be given a callback.
pub data IsFree : Option Coroutine → Type 0 where
  null : IsFree none
  fresh : IsFree (some (new_coroutine none))

-- What a callback task leaves: the pointer, and the coroutine that was given up with whether it is
-- scheduled again.
abbrev pub kept_after : Slice → ℕ → Kept
kept_after yields_ready f =
    (none, some (record { state = State.ready; cb = some f; stack = true }, true))
kept_after yields_hold f =
    (none, some (record { state = State.hold; cb = some f; stack = true }, false))
kept_after returns f = (some (new_coroutine none), none)
kept_after throws f = (some (new_coroutine none), none)

-- A callback task runs, with no assertion failed, on a new coroutine where `cb_coroutine` is null and
-- on that one where it is ready for a callback; one that has not ended is given up, scheduled again if
-- it is ready and held else; one that has ended is ready for a callback again.
pub run_cb-IsFree :
    (s : Slice) (f : ℕ) (c : Option Coroutine)
    → IsFree c
    → (run_cb s f c ≡ some (kept_after s f)) × IsFree (kept_after s f).0
unfolding run_cb prepare then_swap_in then_slice_cb then_settle_cb settle_cb reset_null reset
    swap_in assert slice settle yield_to_ready yield_to_hold is_exec is_ready is_ended is_init
run_cb-IsFree yields_ready f _ null = (refl, null)
run_cb-IsFree yields_ready f _ fresh = (refl, null)
run_cb-IsFree yields_hold f _ null = (refl, null)
run_cb-IsFree yields_hold f _ fresh = (refl, null)
run_cb-IsFree returns f _ null = (refl, fresh)
run_cb-IsFree returns f _ fresh = (refl, fresh)
run_cb-IsFree throws f _ null = (refl, fresh)
run_cb-IsFree throws f _ fresh = (refl, fresh)
