-- ===== src/Stream/Contract.antt =====
-- What the loops of kit_server/stream.cpp promise: all bytes or an end, and what becomes of errors.
use kit_server.Common.{
  ℕ, zero, suc, ◌+◌, ◌-◌, ◌%◌, ◌^◌, ◌≤◌, ◌<◌, ◌≡◌, refl, arith, ◌==◌, Option, some, ◌⊎◌, inl, inr,
  subst, suc_==_zero, lt→ltb, false,
}
use kit_server.Common.Ints.{ℤ, pos, negsuc, to_word, of_word}
use kit_server.Stream.{fix_size_loop, read_fix_size, write_fix_size}

-- A call that fails with no error: it takes at most what is asked for, and keeps `P`, which says what
-- the world is after so many bytes.
abbrev pub Delivers {ℓ κ} : {W : Type ℓ} → (ℕ → W → Type κ) → (W → ℕ → ℕ → ℤ × W) → Type (ℓ ⊔ κ)
Delivers {W = W} P call =
    (offset left : ℕ) (w : W)
    → P offset w
    → 0 < left
    → (n : ℕ) × (n ≤ left)
      × ((call w offset left).0 ≡ pos n)
      × P (offset + n) (call w offset left).1

-- The loop ended after all bytes, with the length, or after fewer, with 0, which the last call said.
abbrev pub Ended {ℓ κ} :
    {W : Type ℓ} → (ℕ → W → Type κ) → (W → ℕ → ℕ → ℤ × W) → ℕ → Option (ℤ × W) → Type (ℓ ⊔ κ)
Ended {W = W} P call len r =
    (k : ℕ) × (v : ℤ) × (w : W) × (r ≡ some (v, w))
    × P k w
    × (((k ≡ len) × (v ≡ of_word 32 (len % 2 ^ 32)))
        ⊎ ((k < len) × (v ≡ pos 0) × ((last : W) × P k last × ((call last k (len - k)).0 ≡ pos 0))))

loop-Ended {ℓ κ} :
    {W : Type ℓ} (P : ℕ → W → Type κ) (call : W → ℕ → ℕ → ℤ × W)
    → Delivers P call
    → (fuel len left offset : ℕ) (w : W) → left < fuel
    → offset + left ≡ len
    → len < 2 ^ 64
    → P offset w
    → Ended P call len (fix_size_loop call len fuel left offset w)
unfolding fix_size_loop to_word of_word
loop-Ended P call d zero len left offset w f e b p = absurd (omega arith)
loop-Ended P call d (suc fuel) len zero offset w f e b p =
    (offset, _, w, refl, p, inl (omega arith, refl))
loop-Ended {W = W} P call d (suc fuel) len (suc left) offset w f e b p =
    let taken = d offset (suc left) w p (omega arith) in
    after taken.0 taken.1 taken.2 taken.3 (λ m h q.
      loop-Ended P call d fuel len (left - m) (offset + suc m) (call w offset (suc left)).1
        (omega arith) (omega arith) b q)
  where
    w' : W
    w' = (call w offset (suc left)).1

    after :
        (n : ℕ)
        → n ≤ suc left
        → (call w offset (suc left)).0 ≡ pos n
        → P (offset + n) w'
        → ((m : ℕ)
            → m ≤ left
            → P (offset + suc m) w'
            → Ended P call len (fix_size_loop call len fuel (left - m) (offset + suc m) w'))
        → Ended P call len (fix_size_loop call len (suc fuel) (suc left) offset w)
    after zero h r q more =
        let asked : suc left ≡ len - offset = omega arith in
        let said = subst (λ l. (call w offset l).0 ≡ pos 0) asked r in
        rw r (
          offset,
          pos 0,
          w',
          refl,
          subst (λ k. P k w') (omega arith) q,
          inr (omega arith, refl, (w, p, said)),
        )
    after (suc n) h r q more =
        let small : suc n % 2 ^ 64 ≡ suc n = omega arith in
        let back : (suc left + 2 ^ 64 - suc n) % 2 ^ 64 ≡ left - n = omega arith in
        let on : (offset + suc n) % 2 ^ 64 ≡ offset + suc n = omega arith in
        rw (r, small, suc_==_zero n, back, on) (more n (omega arith) q)

-- Where `read` keeps what it promises with no error, each call taking at most what is asked for,
-- readFixSize of fewer than 2 ^ 64 bytes ends, with more fuel than bytes: either all bytes were read
-- into consecutive places and the length is returned as an int, or a call of `read` answered 0
-- before, and 0 is returned.
pub read_fix_size-Ended {ℓ κ} :
    {W : Type ℓ} (P : ℕ → W → Type κ) (read : W → ℕ → ℕ → ℤ × W)
    → Delivers P read
    → (fuel len : ℕ) (w : W) → len < fuel
    → len < 2 ^ 64
    → P 0 w
    → Ended P read len (read_fix_size read fuel len w)
read_fix_size-Ended P read d fuel len w f b p =
    loop-Ended P read d fuel len len 0 w f (omega arith) b p

-- Where the first call of `write` answers a negative number, -1 - e, writeFixSize of `len` bytes does
-- not return it: it goes on e + 1 bytes before the buffer with e + 1 bytes more, and if the
-- stream takes them all, it returns `len`, as if nothing had failed.
pub write_fix_size_error {ℓ} :
    {W : Type ℓ} (write : W → ℕ → ℕ → ℤ × W) (fuel len e : ℕ) (w w1 w2 : W)
    → e < 2 ^ 31
    → write w 0 (suc len) ≡ (negsuc e, w1)
    → write w1 (2 ^ 64 - 1 - e) (suc (suc len + e)) ≡ (pos (suc (suc len + e)), w2)
    → suc len < 2 ^ 31
    → write_fix_size write (suc (suc (suc fuel))) (suc len) w ≡ some (pos (suc len), w2)
unfolding fix_size_loop to_word of_word
write_fix_size_error write fuel len e w w1 w2 be r1 r2 bl =
    let word : 2 ^ 64 - 1 - e % 2 ^ 64 ≡ 2 ^ 64 - 1 - e = omega arith in
    let go : (2 ^ 64 - 1 - e == 0) ≡ false = not_zero (2 ^ 64 - 1 - e) (omega arith) in
    let more : (suc len + 2 ^ 64 - (2 ^ 64 - 1 - e)) % 2 ^ 64 ≡ suc (suc len + e) = omega arith in
    let before : (0 + (2 ^ 64 - 1 - e)) % 2 ^ 64 ≡ 2 ^ 64 - 1 - e = omega arith in
    let all : suc (suc len + e) % 2 ^ 64 ≡ suc (suc len + e) = omega arith in
    let gone : (suc (suc len + e) + 2 ^ 64 - suc (suc len + e)) % 2 ^ 64 ≡ 0 = omega arith in
    let int : suc len % 2 ^ 32 ≡ suc len = omega arith in
    rw
      (
        r1,
        word,
        go,
        more,
        before,
        r2,
        all,
        suc_==_zero (suc len + e),
        gone,
        int,
        lt→ltb (suc len) (2 ^ 31) bl,
      )
      refl
  where
    not_zero : (n : ℕ) → 0 < n → (n == 0) ≡ false
    not_zero zero h = absurd (omega arith)
    not_zero (suc n) h = suc_==_zero n
