-- ===== src/Timer/Fire.antt =====
-- listExpiredCb: the expired timers are run and re-armed, and the early return on an overdue one.
use kit_server.Common.{
  ℕ, ◌≤◌, ◌<◌, ◌≡◌, refl, sym, ap, ◌∙◌, arith, ◌==◌, List, [], ◌∷◌, ◌++◌, map, Bool, true, false,
  ◌||◌, Option, ==_refl, ==_iff, subst, All, if_both,
}
use mathlib.Core.List.{append-nil}
use kit_server.Timer.{TimerManager, Callback, key_of, clock_changed, fire_one, fire, expired_split}
use kit_server.Timer.Queue.{mem, IsSorted, Before, Before-not_mem}
use kit_server.Timer.Invariant.{is_some, ValidBut, IsValid, arm-ValidBut, disarm-ValidBut}
use kit_server.Timer.Expiry.{expired_split-Split}

-- No timer twice.
abbrev pub Distinct : List ℕ → Type 0
Distinct [] = Unit {0}
Distinct (a ∷ q) = (mem a q ≡ false) × Distinct q

IsSorted-Distinct : (key : ℕ → ℕ) (q : List ℕ) → IsSorted key q → Distinct q
IsSorted-Distinct key [] s = tt
IsSorted-Distinct key (a ∷ q) s = (Before-not_mem key a q s.0, IsSorted-Distinct key q s.1)

mem-append : (a : ℕ) (p q : List ℕ) → mem a (p ++ q) ≡ (mem a p || mem a q)
mem-append a [] q = refl
mem-append a (b ∷ p) q = ground (arith, mem-append a p q)

Before-append : (key : ℕ → ℕ) (a : ℕ) (p q : List ℕ) → Before key a (p ++ q) → Before key a p
Before-append key a [] q h = tt
Before-append key a (b ∷ p) q h = (h.0, Before-append key a p q h.1)

IsSorted-append_left : (key : ℕ → ℕ) (p q : List ℕ) → IsSorted key (p ++ q) → IsSorted key p
IsSorted-append_left key [] q s = tt
IsSorted-append_left key (a ∷ p) q s =
    (Before-append key a p q s.0, IsSorted-append_left key p q s.1)

IsSorted-append_right : (key : ℕ → ℕ) (p q : List ℕ) → IsSorted key (p ++ q) → IsSorted key q
IsSorted-append_right key [] q s = s
IsSorted-append_right key (a ∷ p) q s = IsSorted-append_right key p q s.1

-- One expired timer: a recurring one is put back, any other loses its callback.
fire_one-ValidBut :
    (now a : ℕ) (out : List ℕ) (m : TimerManager)
    → is_some (m.store a).cb ≡ true
    → mem a out ≡ false
    → ValidBut (a ∷ out) m
    → ValidBut out (fire_one now a m)
unfolding fire_one
fire_one-ValidBut now a out m live apart v =
    if_both (ValidBut out) (m.store a).recurring (arm-ValidBut a _ out m live apart v)
      (disarm-ValidBut a out m apart v)

-- It changes no other timer.
fire_one_other :
    (now a b : ℕ) (m : TimerManager)
    → (b == a) ≡ false
    → ((fire_one now a m).store b).cb ≡ (m.store b).cb
unfolding fire_one
fire_one_other now a b m other = ground arith

abbrev pub callbacks : TimerManager → List ℕ → List (Option Callback)
callbacks m q = map (λ a. (m.store a).cb) q

callbacks_cong :
    (m m' : TimerManager) (a : ℕ) (q : List ℕ)
    → mem a q ≡ false
    → ((b : ℕ) → (b == a) ≡ false → (m'.store b).cb ≡ (m.store b).cb)
    → callbacks m' q ≡ callbacks m q
callbacks_cong m m' a [] h same = refl
callbacks_cong m m' a (b ∷ q) h same =
    rw (same b (ground arith))
      (ap (◌∷◌ (m.store b).cb) (callbacks_cong m m' a q (ground arith) same))

-- All of them: the callbacks come back in order, and the manager is valid again.
pub fire_lem :
    (now : ℕ) (q : List ℕ) (m : TimerManager)
    → Distinct q
    → All (λ a. is_some (m.store a).cb ≡ true) q
    → ValidBut q m
    → IsValid (fire now q m).0 × ((fire now q m).1 ≡ callbacks m q)
unfolding fire
fire_lem now [] m d live v = (v, refl)
fire_lem now (a ∷ q) m d live v =
    let same = callbacks_cong m (fire_one now a m) a q d.0 (λ b. fire_one_other now a b m) in
    let r =
      fire_lem now q (fire_one now a m) d.1 (still_live q d.0 live.1)
        (fire_one-ValidBut now a q m live.0 d.0 v) in
    (r.0, ap (◌∷◌ (m.store a).cb) (r.1 ∙ same))
  where
    still_live :
        (r : List ℕ)
        → mem a r ≡ false
        → All (λ b. is_some (m.store b).cb ≡ true) r
        → All (λ b. is_some ((fire_one now a m).store b).cb ≡ true) r
    still_live [] h l = tt
    still_live (b ∷ r) h l =
        (rw (fire_one_other now a b m (ground arith)) l.0, still_live r (ground arith) l.1)

-- The timers taken out of a valid manager.
take_due-ValidBut :
    (p q : List ℕ) (m : TimerManager)
    → IsValid m
    → p ++ q ≡ m.timers
    → ValidBut p (record m { timers = q })
take_due-ValidBut p q m v e =
    let ordered : IsSorted (key_of m) (p ++ q) = subst (IsSorted (key_of m)) (sym e) v.sorted in
    record {
      sorted = IsSorted-append_right (key_of m) p q ordered;
      taken = λ b h. apart p (IsSorted-Distinct (key_of m) (p ++ q) ordered) b h;
      armed = λ b h. rw h at (sym (mem-append b p q)) ∙ ap (mem b) e ∙ v.armed b refl;
    }
  where
    apart : (r : List ℕ) → Distinct (r ++ q) → (b : ℕ) → mem b r ≡ true → mem b q ≡ false
    apart [] d b h = cc
    apart (a ∷ r) d b h = ground (arith, apart r d.1 b, mem-append a r q, ==_iff b a)

live-All :
    (p q : List ℕ) (m : TimerManager)
    → IsValid m
    → p ++ q ≡ m.timers
    → All (λ a. is_some (m.store a).cb ≡ true) p
live-All p q m v e =
    each p (λ b h. sym (v.armed b refl) ∙ sym (ap (mem b) e) ∙ rw (mem-append b p q, h))
  where
    each :
        (r : List ℕ)
        → ((b : ℕ) → mem b r ≡ true → is_some (m.store b).cb ≡ true)
        → All (λ a. is_some (m.store a).cb ≡ true) r
    each [] h = tt
    each (b ∷ r) h = (h b (rw (==_refl b)), each r (λ c k. h c (ground arith)))

-- What `listExpiredCb` returns when it goes past its early return: the callbacks of the timers that
-- have expired, first those of the earliest, or of all timers after a change of the clock.
pub record Listed (now : ℕ) (m : TimerManager) (r : TimerManager × List (Option Callback))
    : Type 0 where
  pub valid : IsValid r.0
  pub due : List ℕ
  pub later : List ℕ
  pub whole : due ++ later ≡ m.timers
  pub returned : r.1 ≡ callbacks m due
  pub expired : clock_changed now m ≡ false → All (λ b. key_of m b ≤ now) due
  pub not_expired : All (λ b. now < key_of m b) later

pub ValidBut-time :
    {out : List ℕ} (m : TimerManager) (now : ℕ)
    → ValidBut out m
    → ValidBut out (record m { previous_time = now })
ValidBut-time m now v = record { sorted = v.sorted; taken = v.taken; armed = v.armed }

pub fire-Listed :
    (now addr : ℕ) (changed : Bool) (m : TimerManager)
    → IsValid m
    → clock_changed now m ≡ changed
    → let p = expired_split changed now addr (key_of m) m.timers in
      Listed now m (fire now p.0 (record m { timers = p.1; previous_time = now }))
fire-Listed now addr true m v e =
    unfold expired_split in
    let whole : m.timers ++ [] ≡ m.timers = append-nil m.timers in
    let (valid, returned) =
      fire_lem now m.timers (record m { timers = []; previous_time = now })
        (IsSorted-Distinct (key_of m) m.timers v.sorted) (live-All m.timers [] m v whole)
        (ValidBut-time (record m { timers = [] }) now (take_due-ValidBut m.timers [] m v whole)) in
    record {
      valid = valid;
      due = m.timers;
      later = [];
      whole = whole;
      returned = returned;
      expired = λ f. cc;
      not_expired = tt;
    }
fire-Listed now addr false m v e =
    let s = expired_split-Split now addr (key_of m) m.timers v.sorted in
    let p = expired_split false now addr (key_of m) m.timers in
    let (valid, returned) =
      fire_lem now p.0 (record m { timers = p.1; previous_time = now })
        (IsSorted-Distinct (key_of m) p.0 (
          IsSorted-append_left (key_of m) p.0 p.1
            (subst (IsSorted (key_of m)) (sym s.whole) v.sorted)))
        (live-All p.0 p.1 m v s.whole)
        (ValidBut-time (record m { timers = p.1 }) now (take_due-ValidBut p.0 p.1 m v s.whole)) in
    record {
      valid = valid;
      due = p.0;
      later = p.1;
      whole = s.whole;
      returned = returned;
      expired = λ f. s.due;
      not_expired = s.not_due;
    }
