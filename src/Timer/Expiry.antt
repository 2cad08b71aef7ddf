-- ===== src/Timer/Expiry.antt =====
-- getNextTime and listExpiredCb: how long to wait, and which callbacks come back.
use kit_server.Common.{
  ℕ, ◌-◌, ◌≤◌, ◌<◌, ◌≡◌, refl, ap, ◌∙◌, arith, ◌==◌, List, [], ◌∷◌, ◌++◌, true, false, some,
  Bool-cases, inl, inr, ==_iff, subst, All,
}
use kit_server.Timer.{
  TimerManager, less, lower_bound, skip_equal, comparator, key_of, get_next_time, time_left,
  expired_split,
}
use kit_server.Timer.Queue.{mem, IsSorted, Before, Before-mem}
use kit_server.Timer.Invariant.{IsValid}

less-le : (key : ℕ → ℕ) (a b : ℕ) → less key a b ≡ true → key a ≤ key b
unfolding less comparator
less-le key a b h = ground arith

time_left_front :
    (now : ℕ) (key : ℕ → ℕ) (a : ℕ) (q : List ℕ) → time_left now key (a ∷ q) ≡ key a - now
time_left_front now key a q = ground arith

-- In a valid manager with timers getNextTime answers the time that is left of the first timer, 0
-- if it has expired, and no queued timer has less time left.
pub get_next_time_lem :
    (now : ℕ) (m : TimerManager) (a : ℕ) (q : List ℕ)
    → IsValid m
    → m.timers ≡ a ∷ q
    → ((get_next_time now m).1 ≡ key_of m a - now)
      × ((b : ℕ) → mem b m.timers ≡ true → (get_next_time now m).1 ≤ key_of m b - now)
unfolding get_next_time
get_next_time_lem now m a q v e =
    let front : time_left now (key_of m) m.timers ≡ key_of m a - now =
      ap (time_left now (key_of m)) e ∙ time_left_front now (key_of m) a q in
    (front, λ b queued. first_is_least b queued front)
  where
    ordered : IsSorted (key_of m) (a ∷ q)
    ordered = subst (IsSorted (key_of m)) e v.sorted

    first_is_least :
        (b : ℕ)
        → mem b m.timers ≡ true
        → time_left now (key_of m) m.timers ≡ key_of m a - now
        → time_left now (key_of m) m.timers ≤ key_of m b - now
    first_is_least b queued front = elim (Bool-cases (b == a)) [
      | inl same ↦ let eq : b ≡ a = (==_iff b a).0 same in omega (arith, front, ap (key_of m) eq)
      | inr other ↦
          let behind : mem b q ≡ true = rw (e, other) at queued in
          omega
            (arith, front, less-le (key_of m) a b (Before-mem (key_of m) a b q ordered.0 behind))
    ]

-- The split of a sorted sequence at a time: the expired timers and the others.
pub record Split (now : ℕ) (key : ℕ → ℕ) (q : List ℕ) (p : List ℕ × List ℕ) : Type 0 where
  pub whole : p.0 ++ p.1 ≡ q
  pub due : All (λ b. key b ≤ now) p.0
  pub not_due : All (λ b. now < key b) p.1

later-All :
    (now : ℕ) (key : ℕ → ℕ) (a : ℕ) (q : List ℕ)
    → now < key a
    → Before key a q
    → All (λ b. now < key b) q
later-All now key a [] h s = tt
later-All now key a (b ∷ q) h s = (omega (arith, less-le key a b s.0), later-All now key a q h s.1)

skip_equal-Split :
    (now : ℕ) (key : ℕ → ℕ) (q : List ℕ)
    → IsSorted key q
    → All (λ b. now ≤ key b) q
    → Split now key q (skip_equal key now q)
unfolding skip_equal
skip_equal-Split now key [] s h = record { whole = refl; due = tt; not_due = tt }
skip_equal-Split now key (b ∷ q) s h = elim (Bool-cases (key b == now)) [
  | inl same ↦
      let r = skip_equal-Split now key q s.1 h.1 in
      rw same (record {
        whole = ap (◌∷◌ b) r.whole;
        due = (omega (arith, (==_iff (key b) now).0 same), r.due);
        not_due = r.not_due;
      })
  | inr other ↦
      let later : now < key b = ground (arith, h.0) in
      rw other
        (record { whole = refl; due = tt; not_due = (later, later-All now key b q later s.0) })
]

from-All :
    (now : ℕ) (key : ℕ → ℕ) (a : ℕ) (q : List ℕ)
    → now ≤ key a
    → Before key a q
    → All (λ b. now ≤ key b) q
from-All now key a [] h s = tt
from-All now key a (b ∷ q) h s = (omega (arith, less-le key a b s.0), from-All now key a q h s.1)

-- Without a change of the clock the timers taken out are those that have expired.
pub expired_split-Split :
    (now addr : ℕ) (key : ℕ → ℕ) (q : List ℕ)
    → IsSorted key q
    → Split now key q (expired_split false now addr key q)
unfolding expired_split lower_bound skip_equal
expired_split-Split now addr key [] s = record { whole = refl; due = tt; not_due = tt }
expired_split-Split now addr key (b ∷ q) s =
    elim (Bool-cases (comparator (some (b, key b)) (some (addr, now)))) [
      | inl before ↦
          let r = expired_split-Split now addr key q s.1 in
          rw before (record {
            whole = ap (◌∷◌ b) r.whole;
            due = (before_le b before, r.due);
            not_due = r.not_due;
          })
      | inr from ↦
          let le : now ≤ key b = from_le b from in
          rw from (skip_equal-Split now key (b ∷ q) s (le, from-All now key b q le s.0))
    ]
  where
    before_le : (c : ℕ) → comparator (some (c, key c)) (some (addr, now)) ≡ true → key c ≤ now
    before_le c h = unfold comparator in ground arith

    from_le : (c : ℕ) → comparator (some (c, key c)) (some (addr, now)) ≡ false → now ≤ key c
    from_le c h = unfold comparator in ground arith
