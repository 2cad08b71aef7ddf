-- ===== src/Timer/Queue.antt =====
-- The ordered sequence of timers: what its operations do to membership and to the order.
use kit_server.Common.{
  ℕ, ◌≡◌, refl, sym, ◌∙◌, arith, ◌==◌, List, [], ◌∷◌, Bool, true, false, not, ◌&&◌, ◌||◌,
  Bool-cases, inl, inr, ==_refl,
}
use kit_server.Timer.{less, insert, find, erase}

abbrev pub mem : ℕ → List ℕ → Bool
mem a [] = false
mem a (b ∷ q) = (a == b) || mem a q

module _ (key : ℕ → ℕ) where
  -- Every element is less than those behind it.
  abbrev pub Before : ℕ → List ℕ → Type 0
  Before a [] = Unit {0}
  Before a (b ∷ q) = (less key a b ≡ true) × Before a q

  abbrev pub IsSorted : List ℕ → Type 0
  IsSorted [] = Unit {0}
  IsSorted (a ∷ q) = Before a q × IsSorted q

  pub less_trans : (a b c : ℕ) → less key a b ≡ true → less key b c ≡ true → less key a c ≡ true
  unfolding less
  less_trans a b c p q = ground arith

  -- Timers that the set takes for one are the same object.
  pub equivalent_eq : (a b : ℕ) → (not (less key a b) && not (less key b a)) ≡ (a == b)
  unfolding less
  equivalent_eq a b = ground arith

  pub less-ne : (a b : ℕ) → less key a b ≡ true → (a == b) ≡ false
  unfolding less
  less-ne a b p = ground arith

  pub less_total : (a b : ℕ) → less key a b ≡ false → less key b a ≡ false → a ≡ b
  unfolding less
  less_total a b p q = ground arith

  Before-trans : (a b : ℕ) (q : List ℕ) → less key a b ≡ true → Before b q → Before a q
  Before-trans a b [] p h = tt
  Before-trans a b (c ∷ q) p h = (less_trans a b c p h.0, Before-trans a b q p h.1)

  pub Before-mem : (a b : ℕ) (q : List ℕ) → Before a q → mem b q ≡ true → less key a b ≡ true
  Before-mem a b [] h e = cc
  Before-mem a b (c ∷ q) h e = ground (arith, Before-mem a b q h.1)

  less_irrefl : (a : ℕ) → less key a a ≡ false
  unfolding less
  less_irrefl a = ground arith

  pub Before-not_mem : (a : ℕ) (q : List ℕ) → Before a q → mem a q ≡ false
  Before-not_mem a q h = elim (Bool-cases (mem a q)) [
    | inl e ↦ cc (Before-mem a a q h e, less_irrefl a)
    | inr e ↦ e
  ]

  pub find-eq-mem : (a : ℕ) (q : List ℕ) → find key a q ≡ mem a q
  unfolding find
  find-eq-mem a [] = refl
  find-eq-mem a (b ∷ q) = rw (equivalent_eq a b, find-eq-mem a q)

  pub mem-insert : (a b : ℕ) (q : List ℕ) → mem b (insert key a q) ≡ ((b == a) || mem b q)
  unfolding insert
  mem-insert a b [] = refl
  mem-insert a b (c ∷ q) = ground (arith, mem-insert a b q, less_total a c)

  Before-insert :
      (a b : ℕ) (q : List ℕ) → less key b a ≡ true → Before b q → Before b (insert key a q)
  unfolding insert
  Before-insert a b [] p h = (p, tt)
  Before-insert a b (c ∷ q) p h = ground (arith, Before-insert a b q p h.1)

  pub insert-IsSorted : (a : ℕ) (q : List ℕ) → IsSorted q → IsSorted (insert key a q)
  unfolding insert
  insert-IsSorted a [] s = (tt, tt)
  insert-IsSorted a (c ∷ q) s = elim (Bool-cases (less key a c)) [
    | inl first ↦ rw first ((first, Before-trans a c q first s.0), s)
    | inr not_first ↦ elim (Bool-cases (less key c a)) [
      | inl later ↦ rw (not_first, later) (Before-insert a c q later s.0, insert-IsSorted a q s.1)
      | inr same ↦ rw (not_first, same) s
    ]
  ]

  pub mem-erase :
      (a b : ℕ) (q : List ℕ) → IsSorted q → mem b (erase key a q) ≡ (not (b == a) && mem b q)
  unfolding erase
  mem-erase a b [] s = ground arith
  mem-erase a b (c ∷ q) s =
      rw (equivalent_eq a c) (ground (arith, mem-erase a b q s.1, Before-not_mem c q s.0))

  Before-erase : (a b : ℕ) (q : List ℕ) → Before b q → Before b (erase key a q)
  unfolding erase
  Before-erase a b [] h = tt
  Before-erase a b (c ∷ q) h = ground (arith, Before-erase a b q h.1)

  pub erase-IsSorted : (a : ℕ) (q : List ℕ) → IsSorted q → IsSorted (erase key a q)
  unfolding erase
  erase-IsSorted a [] s = tt
  erase-IsSorted a (c ∷ q) s = ground (arith, erase-IsSorted a q s.1, Before-erase a c q s.0)

-- The order depends only on the expiries of the timers in the sequence.
pub IsSorted-cong :
    (key key' : ℕ → ℕ) (q : List ℕ)
    → ((b : ℕ) → mem b q ≡ true → key b ≡ key' b)
    → IsSorted key q
    → IsSorted key' q
IsSorted-cong key key' [] same s = tt
IsSorted-cong key key' (a ∷ q) same s = (
  before q (λ b m. same b (ground arith)) s.0,
  IsSorted-cong key key' q (λ b m. same b (ground arith)) s.1,
)
  where
    less_cong : (b : ℕ) → key b ≡ key' b → less key a b ≡ less key' a b
    less_cong b e = unfold less in rw (same a (ground (arith, ==_refl a)), e)

    before :
        (r : List ℕ)
        → ((b : ℕ) → mem b r ≡ true → key b ≡ key' b)
        → Before key a r
        → Before key' a r
    before [] sm h = tt
    before (b ∷ r) sm h = (
      sym (less_cong b (sm b (ground (arith, ==_refl b)))) ∙ h.0,
      before r (λ c m. sm c (ground arith)) h.1,
    )
