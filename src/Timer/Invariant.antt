-- ===== src/Timer/Invariant.antt =====
-- The manager's invariant, and that every operation keeps it: the sequence is ordered by expiry,
-- and holds exactly the timers that still have a callback.
use kit_server.Common.{
  ℕ, ◌≡◌, refl, sym, arith, ◌==◌, List, [], ◌∷◌, Bool, true, false, Option, none, some, Bool-cases,
  inl, inr, ==_refl, ==_iff, subst,
}
use kit_server.Timer.{Timer, TimerManager, Callback, insert, erase, key_of, update}
use kit_server.Timer.Queue.{
  mem, IsSorted, mem-insert, insert-IsSorted, mem-erase, erase-IsSorted, IsSorted-cong,
}

abbrev pub is_some : Option Callback → Bool
is_some none = false
is_some (some f) = true

-- `out` are timers that an operation has taken out of the sequence and not yet dealt with.
pub record ValidBut (out : List ℕ) (m : TimerManager) : Type 0 where
  pub sorted : IsSorted (key_of m) m.timers
  pub taken : (b : ℕ) → mem b out ≡ true → mem b m.timers ≡ false
  pub armed : (b : ℕ) → mem b out ≡ false → mem b m.timers ≡ is_some (m.store b).cb

abbrev pub IsValid : TimerManager → Type 0
IsValid m = ValidBut [] m

-- A change of a timer outside the sequence keeps the order.
store-IsSorted :
    (a : ℕ) (t : Timer) (m : TimerManager) (q : List ℕ)
    → mem a q ≡ false
    → IsSorted (key_of m) q
    → IsSorted (λ b. (update m.store a t b).next) q
store-IsSorted a t m q absent s =
    IsSorted-cong (key_of m) (λ b. (update m.store a t b).next) q
      (λ b e. elim (Bool-cases (b == a)) [
        | inl same ↦
            let eq : b ≡ a = (==_iff b a).0 same in cc (subst (λ c. mem c q ≡ true) eq e, absent)
        | inr other ↦ rw other
      ])
      s

-- The timer `a` is given a callback and put in.
abbrev pub arm : ℕ → Timer → TimerManager → TimerManager
arm a t m =
    let m' = record m { store = update m.store a t } in
    record m' { timers = insert (key_of m') a m'.timers }

pub arm-ValidBut :
    (a : ℕ) (t : Timer) (out : List ℕ) (m : TimerManager)
    → is_some t.cb ≡ true
    → mem a out ≡ false
    → ValidBut (a ∷ out) m
    → ValidBut out (arm a t m)
arm-ValidBut a t out m live apart v =
    let absent : mem a m.timers ≡ false = v.taken a (rw (==_refl a)) in
    let key = λ (b : ℕ). (update m.store a t b).next in
    record {
      sorted = insert-IsSorted key a m.timers (store-IsSorted a t m m.timers absent v.sorted);
      taken = λ b e. elim (Bool-cases (b == a)) [
        | inl same ↦
            let eq : b ≡ a = (==_iff b a).0 same in cc (subst (λ c. mem c out ≡ true) eq e, apart)
        | inr other ↦ rw (mem-insert key a b m.timers, other) (v.taken b (rw other e))
      ];
      armed = λ b e. elim (Bool-cases (b == a)) [
        | inl same ↦ rw (mem-insert key a b m.timers, same) (sym live)
        | inr other ↦ rw (mem-insert key a b m.timers, other) (v.armed b (rw other e))
      ];
    }

-- The timer `a` loses its callback and stays out.
abbrev pub disarm : ℕ → TimerManager → TimerManager
disarm a m = record m { store = update m.store a (record (m.store a) { cb = none }) }

pub disarm-ValidBut :
    (a : ℕ) (out : List ℕ) (m : TimerManager)
    → mem a out ≡ false
    → ValidBut (a ∷ out) m
    → ValidBut out (disarm a m)
disarm-ValidBut a out m apart v =
    let absent : mem a m.timers ≡ false = v.taken a (rw (==_refl a)) in
    record {
      sorted = store-IsSorted a (record (m.store a) { cb = none }) m m.timers absent v.sorted;
      taken = λ b e. elim (Bool-cases (b == a)) [
        | inl same ↦
            let eq : b ≡ a = (==_iff b a).0 same in cc (subst (λ c. mem c out ≡ true) eq e, apart)
        | inr other ↦ v.taken b (rw other e)
      ];
      armed = λ b e. elim (Bool-cases (b == a)) [
        | inl same ↦
            let eq : b ≡ a = (==_iff b a).0 same in
            rw same (subst (λ c. mem c m.timers ≡ false) (sym eq) absent)
        | inr other ↦ rw other (v.armed b (rw other e))
      ];
    }

-- The timer `a` is taken out.
abbrev pub take_out : ℕ → TimerManager → TimerManager
take_out a m = record m { timers = erase (key_of m) a m.timers }

pub take_out-ValidBut : (a : ℕ) (m : TimerManager) → IsValid m → ValidBut (a ∷ []) (take_out a m)
take_out-ValidBut a m v = record {
  sorted = erase-IsSorted (key_of m) a m.timers v.sorted;
  taken = λ b e. rw (mem-erase (key_of m) a b m.timers v.sorted) (ground arith);
  armed = λ b e. rw (mem-erase (key_of m) a b m.timers v.sorted) (ground (arith, v.armed b refl));
}
