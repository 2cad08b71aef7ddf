-- ===== src/Stream/Tests.antt =====
-- A stream that gives at most four bytes a call, and one that fails once.
use kit_server.Common.{ℕ, ◌+◌, ◌≡◌, refl, arith, some, List, [], ◌∷◌, min, ◌^◌, ◌-◌}
use kit_server.Common.Ints.{ℤ, pos, negsuc, to_word, of_word}
use kit_server.Stream.{
  fix_size_loop, read_fix_size, write_fix_size, fix_size_array_loop, read_fix_size_array,
}
use kit_server.Stream.Contract.{Delivers, Ended, read_fix_size-Ended, write_fix_size_error}

-- The world is the number of bytes that came.
abbrev by_fours : ℕ → ℕ → ℕ → ℤ × ℕ
by_fours w offset left = (pos (min left 4), w + min left 4)

Came : ℕ → ℕ → Type 0
Came offset w = w ≡ offset

by_fours-Delivers : Delivers Came by_fours
unfolding Came
by_fours-Delivers offset left w p h = (min left 4, omega arith, refl, omega arith)

read_fix_size-Ended_example : Ended Came by_fours 10 (read_fix_size by_fours 11 10 0)
unfolding Came
read_fix_size-Ended_example =
    read_fix_size-Ended Came by_fours by_fours-Delivers 11 10 0 (omega arith) (omega arith) refl

by_fours_run : read_fix_size by_fours 11 10 0 ≡ some (pos 10, 10)
unfolding fix_size_loop to_word of_word
by_fours_run = refl

array_run : read_fix_size_array (λ w left. by_fours w 0 left) 11 10 0 ≡ some (pos 10, 10)
unfolding fix_size_array_loop to_word of_word
array_run = refl

-- The world is the calls so far, last one first.
abbrev fails_once : List (ℕ × ℕ) → ℕ → ℕ → ℤ × List (ℕ × ℕ)
fails_once [] offset left = (negsuc 0, (offset, left) ∷ [])
fails_once (c ∷ w) offset left = (pos left, (offset, left) ∷ c ∷ w)

write_fix_size_error_example :
    write_fix_size fails_once 3 7 [] ≡ some (pos 7, (2 ^ 64 - 1, 8) ∷ (0, 7) ∷ [])
write_fix_size_error_example =
    write_fix_size_error fails_once 0 6 0 [] ((0, 7) ∷ []) ((2 ^ 64 - 1, 8) ∷ (0, 7) ∷ [])
      (omega arith) refl refl (omega arith)
