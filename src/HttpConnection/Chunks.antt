-- ===== src/HttpConnection/Chunks.antt =====
-- kit_server/http/http_connection.cpp: what becomes of the bytes of a chunk.
use kit_server.Common.{
  ℕ, zero, suc, ◌+◌, ◌-◌, ◌≤◌, ◌<◌, ◌≡◌, refl, sym, ap, ◌∙◌, arith, List, [], ◌∷◌, ◌++◌, length,
  take, drop, take-append_le, length-take, length-drop, min, dec_lt, not_le→leb, drop-drop,
  not_lt→ltb, le→leb,
}
use mathlib.Core.List.{append_assoc, append-nil}
use kit_server.Common.Ints.{ℤ, pos}
use kit_server.HttpSession.{Reads}
use kit_server.HttpSession.Body.{Feeds, take-take-drop}
use kit_server.HttpConnection.{Chunk, chunk, on_rest, read_rest, take_chunk}

-- A block and what is still taken behind it.
take_block :
    (n c : ℕ) (xs : List ℕ) {new rest : List ℕ}
    → new ≡ take c xs
    → rest ≡ drop c xs
    → c ≤ n
    → new ++ take (n - c) rest ≡ take n xs
take_block n c xs e f h =
    rw (e, f) (take-take-drop c (n - c) xs ∙ ap (λ k. take k xs) (omega arith))

take-append_ge :
    (n : ℕ) (xs ys : List ℕ) → length xs ≤ n → take n (xs ++ ys) ≡ xs ++ take (n - length xs) ys
take-append_ge n [] ys h = ap (λ k. take k ys) (omega arith)
take-append_ge zero (x ∷ xs) ys h = absurd (omega arith)
take-append_ge (suc n) (x ∷ xs) ys h =
    let e : n - length xs ≡ suc n - suc (length xs) = omega arith in
    ap (◌∷◌ x) (take-append_ge n xs ys (omega arith) ∙ ap (λ k. xs ++ take k ys) e)

take-take : (n k : ℕ) (xs : List ℕ) → n ≤ k → take n (take k xs) ≡ take n xs
take-take zero k xs h = refl
take-take (suc n) zero xs h = absurd (omega arith)
take-take (suc n) (suc k) [] h = refl
take-take (suc n) (suc k) (x ∷ xs) h = ap (◌∷◌ x) (take-take n k xs (omega arith))

module _ {κ} {W : Type κ} (incoming : W → List ℕ) (read : Reads W) (feeds : Feeds incoming read)
    (buff_size : ℕ) where
  -- The rest of a chunk is read to its end, if that much comes.
  read_rest_lem :
      (fuel left : ℕ) (body : List ℕ) (w : W)
      → 0 < buff_size
      → left ≤ fuel
      → left ≤ length (incoming w)
      → (v : W) × (read_rest read buff_size fuel left body w
          ≡ chunk (body ++ take left (incoming w)) [] v)
        × (incoming v ≡ drop left (incoming w))
  unfolding read_rest on_rest
  read_rest_lem fuel zero body w p f h = (w, ap (λ b. chunk b [] w) (sym (append-nil body)), refl)
  read_rest_lem zero (suc left) body w p f h = absurd (omega arith)
  read_rest_lem (suc fuel) (suc left) body w p f h =
      let fed = feeds w (min (suc left) buff_size) (omega arith) in
      let more = fed.6 (omega arith) in
      let (v, e, i) =
        read_rest_lem fuel (suc left - fed.0) (body ++ answer.1) answer.2 p (omega (arith, more))
          (omega (arith, fed.1, fed.2, ap length fed.5, length-drop fed.0 (incoming w))) in
      let chunk_body =
        append_assoc body answer.1 _
        ∙ ap (◌++◌ body)
            (take_block (suc left) fed.0 (incoming w) fed.4 fed.5 (omega (arith, fed.1))) in
      let rest =
        i
        ∙ (ap (drop (suc left - fed.0)) fed.5
            ∙ drop-drop (suc left - fed.0) fed.0 (suc left) (incoming w) (omega (arith, fed.1))) in
      by_count fed.0 fed.3 more (v, e ∙ ap (λ b. chunk b [] v) chunk_body, rest)
    where
      answer : ℤ × List ℕ × W
      answer = read w (min (suc left) buff_size)

      again : ℕ → Chunk W
      again n = read_rest read buff_size fuel (suc left - n) (body ++ answer.1) answer.2

      Goal : Chunk W → Type κ
      Goal c =
          (v : W) × (c ≡ chunk (body ++ take (suc left) (incoming w)) [] v)
          × (incoming v ≡ drop (suc left) (incoming w))

      by_count : (c : ℕ) → answer.0 ≡ pos c → 0 < c → Goal (again c) → Goal (on_rest answer again)
      by_count zero e h g = absurd (omega arith)
      by_count (suc c) e h g = rw e g

  -- A chunk of n bytes behind its header, with at least two bytes in the buffer, is taken from the bytes
  -- of the buffer without their last two and then from those that come later, if so much comes, with
  -- enough fuel; what the buffer, of at least one byte, keeps for the next chunk lacks the last two bytes
  -- as well.
  pub take_chunk_lem :
      (fuel n : ℕ) (bytes body : List ℕ) (w : W)
      → 0 < buff_size
      → 2 ≤ length bytes
      → n ≤ fuel
      → n + 2 ≤ length bytes + length (incoming w)
      → (v : W) × (take_chunk read buff_size fuel (pos n) bytes body w
          ≡ chunk
              (body ++ take n (take (length bytes - 2) bytes ++ incoming w))
              (take (length bytes - 2 - n) (drop n bytes))
              v)
        × (incoming v ≡ drop (n - (length bytes - 2)) (incoming w))
  unfolding take_chunk
  take_chunk_lem fuel n bytes body w p h f k = elim (dec_lt (length bytes - 2) n) [
    | no m ↦
        rw (not_lt→ltb (length bytes) 2 (omega arith), le→leb n (length bytes - 2) (omega arith))
          (
            w,
            ap (λ b. chunk (body ++ b) (take (length bytes - 2 - n) (drop n bytes)) w)
                (sym (inside (omega arith))),
            ap (λ j. drop j (incoming w)) (none_left m),
          )
    | yes l ↦
        let (v, e, i) =
          read_rest_lem fuel (n - (length bytes - 2)) (body ++ take (length bytes - 2) bytes) w p
            (omega arith) (omega arith) in
        rw (not_lt→ltb (length bytes) 2 (omega arith), not_le→leb n (length bytes - 2) l)
          (
            v,
            e
                ∙ ap (λ b. chunk b [] v) (append_assoc body _ _ ∙ ap (◌++◌ body) (outside l))
                ∙ ap
                    (λ k.
                      chunk (body ++ take n (take (length bytes - 2) bytes ++ incoming w))
                        (take k (drop n bytes)) v)
                    (none_kept l),
            i,
          )
  ]
    where
      known : length (take (length bytes - 2) bytes) ≡ length bytes - 2
      known = omega (arith, length-take (length bytes - 2) bytes)

      inside :
          n ≤ length bytes - 2 → take n (take (length bytes - 2) bytes ++ incoming w) ≡ take n bytes
      inside m =
          take-append_le n (take (length bytes - 2) bytes) (incoming w) (omega (arith, known))
          ∙ take-take n (length bytes - 2) bytes m

      outside :
          length bytes - 2 < n
          → take (length bytes - 2) bytes ++ take (n - (length bytes - 2)) (incoming w)
            ≡ take n (take (length bytes - 2) bytes ++ incoming w)
      outside l = sym (
          take-append_ge n (take (length bytes - 2) bytes) (incoming w) (omega (arith, known))
          ∙ ap (λ k. take (length bytes - 2) bytes ++ take (n - k) (incoming w)) known)

      none_left : ¬ (length bytes - 2 < n) → 0 ≡ n - (length bytes - 2)
      none_left m = omega arith

      none_kept : length bytes - 2 < n → 0 ≡ length bytes - 2 - n
      none_kept l = omega arith
