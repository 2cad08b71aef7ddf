-- ===== src/Common/Overwrite.antt =====
-- Writes of a block into a buffer: where the buffer is split, what is read back, and two writes in
-- a row.
use Prim.Native.Nat.{ℕ, zero, suc, ◌+◌, ◌≤◌}
use mathlib.Core.Path.{◌≡◌, refl, ap, sym, ◌∙◌}
use mathlib.Core.List.{List, [], ◌∷◌, ◌++◌}
use native.Mathlib.Omega.{arith}
use kit_server.Common.Lists.{length, take, drop, overwrite}

module _ {ℓ} {A : Type ℓ} where
  pub overwrite-nil : (i : ℕ) (xs : List A) → overwrite i [] xs ≡ xs
  overwrite-nil i [] = refl
  overwrite-nil zero (x ∷ xs) = refl
  overwrite-nil (suc i) (x ∷ xs) = ap (◌∷◌ x) (overwrite-nil i xs)

  pub overwrite-append_front :
      (i : ℕ) (bs xs ys : List A)
      → i + length bs ≤ length xs
      → overwrite i bs (xs ++ ys) ≡ overwrite i bs xs ++ ys
  overwrite-append_front i [] xs ys h =
      overwrite-nil i (xs ++ ys) ∙ ap (λ zs. zs ++ ys) (sym (overwrite-nil i xs))
  overwrite-append_front i (b ∷ bs) [] ys h = absurd (omega arith)
  overwrite-append_front zero (b ∷ bs) (x ∷ xs) ys h =
      ap (◌∷◌ b) (overwrite-append_front zero bs xs ys (omega arith))
  overwrite-append_front (suc i) (b ∷ bs) (x ∷ xs) ys h =
      ap (◌∷◌ x) (overwrite-append_front i (b ∷ bs) xs ys (omega arith))

  pub overwrite-append_back :
      (i j : ℕ) (bs xs ys : List A)
      → i ≡ length xs + j
      → overwrite i bs (xs ++ ys) ≡ xs ++ overwrite j bs ys
  overwrite-append_back i j bs [] ys h = ap (λ k. overwrite k bs ys) (omega arith)
  overwrite-append_back zero j bs (x ∷ xs) ys h = absurd (omega arith)
  overwrite-append_back (suc i) j bs (x ∷ xs) ys h =
      ap (◌∷◌ x) (overwrite-append_back i j bs xs ys (omega arith))

  -- A block that crosses the border of two buffers.
  pub overwrite-append_split :
      (i k : ℕ) (bs xs ys : List A)
      → i + k ≡ length xs
      → k ≤ length bs
      → overwrite i bs (xs ++ ys) ≡ overwrite i (take k bs) xs ++ overwrite 0 (drop k bs) ys
  overwrite-append_split zero zero bs [] ys e h = refl
  overwrite-append_split (suc i) k bs [] ys e h = absurd (omega arith)
  overwrite-append_split zero (suc k) bs [] ys e h = absurd (omega arith)
  overwrite-append_split zero zero bs (x ∷ xs) ys e h = absurd (omega arith)
  overwrite-append_split zero (suc k) [] (x ∷ xs) ys e h = absurd (omega arith)
  overwrite-append_split zero (suc k) (b ∷ bs) (x ∷ xs) ys e h =
      ap (◌∷◌ b) (overwrite-append_split zero k bs xs ys (omega arith) (omega arith))
  overwrite-append_split (suc i) k bs (x ∷ xs) ys e h =
      ap (◌∷◌ x) (overwrite-append_split i k bs xs ys (omega arith) h)

  pub drop-overwrite :
      (i n : ℕ) (bs xs : List A)
      → n ≡ i + length bs
      → n ≤ length xs
      → drop i (overwrite i bs xs) ≡ bs ++ drop n xs
  drop-overwrite zero n [] xs e h =
      rw (overwrite-nil 0 xs) (ap (λ k. drop k xs) (let z : 0 ≡ n = omega arith in z))
  drop-overwrite zero zero (b ∷ bs) xs e h = absurd (omega arith)
  drop-overwrite zero (suc n) (b ∷ bs) [] e h = absurd (omega arith)
  drop-overwrite zero (suc n) (b ∷ bs) (x ∷ xs) e h =
      ap (◌∷◌ b) (drop-overwrite zero n bs xs (omega arith) (omega arith))
  drop-overwrite (suc i) zero bs xs e h = absurd (omega arith)
  drop-overwrite (suc i) (suc n) bs [] e h = absurd (omega arith)
  drop-overwrite (suc i) (suc n) bs (x ∷ xs) e h =
      drop-overwrite i n bs xs (omega arith) (omega arith)

  pub take-overwrite : (i : ℕ) (bs xs : List A) → take i (overwrite i bs xs) ≡ take i xs
  take-overwrite i bs [] = refl
  take-overwrite zero [] (x ∷ xs) = refl
  take-overwrite zero (b ∷ bs) (x ∷ xs) = refl
  take-overwrite (suc i) bs (x ∷ xs) = ap (◌∷◌ x) (take-overwrite i bs xs)

  -- A block behind a block is one block.
  pub overwrite-overwrite :
      (i j : ℕ) (bs cs xs : List A)
      → j ≡ i + length bs
      → j ≤ length xs
      → overwrite j cs (overwrite i bs xs) ≡ overwrite i (bs ++ cs) xs
  overwrite-overwrite i j [] cs xs e h =
      ap (overwrite j cs) (overwrite-nil i xs)
      ∙ ap (λ k. overwrite k cs xs) (let z : j ≡ i = omega arith in z)
  overwrite-overwrite i j (b ∷ bs) cs [] e h = absurd (omega arith)
  overwrite-overwrite zero zero (b ∷ bs) cs (x ∷ xs) e h = absurd (omega arith)
  overwrite-overwrite zero (suc j) (b ∷ bs) cs (x ∷ xs) e h =
      ap (◌∷◌ b) (overwrite-overwrite zero j bs cs xs (omega arith) (omega arith))
  overwrite-overwrite (suc i) zero (b ∷ bs) cs (x ∷ xs) e h = absurd (omega arith)
  overwrite-overwrite (suc i) (suc j) (b ∷ bs) cs (x ∷ xs) e h =
      ap (◌∷◌ x) (overwrite-overwrite i j (b ∷ bs) cs xs (omega arith) (omega arith))
