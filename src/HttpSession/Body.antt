-- ===== src/HttpSession/Body.antt =====
-- kit_server/http/http_session.cpp: what becomes of the body that recvRequest receives.
use kit_server.Common.{
  ℕ, zero, suc, ◌+◌, ◌-◌, ◌%◌, ◌^◌, ◌≤◌, ◌<◌, ◌≡◌, refl, sym, ap, ◌∙◌, arith, leb, lt→ltb, le→leb,
  not_le→leb, leb→le, leb→lt, Bool-cases, List, [], ◌∷◌, ◌++◌, length, take, drop, replicate,
  overwrite, length-append, length-take, length-drop, length-replicate, length-overwrite, take_all,
  drop-drop, overwrite-nil, overwrite-overwrite, overwrite-append_back, Option, none, some, inl,
  inr,
}
use kit_server.Common.Ints.{pos, of_word}
use kit_server.Stream.{fix_size_loop, read_fix_size}
use kit_server.Stream.Contract.{Delivers, read_fix_size-Ended}
use kit_server.HttpSession.{
  Reads, closed, request, overrun, store, read_into, finish_body, recv_body,
}

-- A stream that does not fail: a call stores the next bytes that come in, at most as many as are
-- asked for, and some if there are any.
abbrev pub Feeds {κ} : {W : Type κ} → (W → List ℕ) → Reads W → Type κ
Feeds {W = W} incoming read =
    (w : W) (n : ℕ)
    → 0 < n
    → (c : ℕ) × (c ≤ n)
      × (c ≤ length (incoming w))
      × ((read w n).0 ≡ pos c)
      × ((read w n).1 ≡ take c (incoming w))
      × (incoming (read w n).2 ≡ drop c (incoming w))
      × (0 < length (incoming w) → 0 < c)

pub take-take-drop {ℓ} :
    {A : Type ℓ} (k c : ℕ) (xs : List A) → take k xs ++ take c (drop k xs) ≡ take (k + c) xs
take-take-drop zero c xs = ap (λ n. take n xs) (omega arith)
take-take-drop (suc k) c [] =
    take_all c [] (omega arith) ∙ sym (take_all (suc k + c) [] (omega arith))
take-take-drop (suc k) c (x ∷ xs) =
    let e : suc k + c ≡ suc (k + c) = omega arith in rw e (ap (◌∷◌ x) (take-take-drop k c xs))

-- Two blocks, one behind the other.
store-store :
    (place k : ℕ) (xs ys body : List ℕ)
    → length xs ≡ k
    → store (place + k) ys (store place xs (some body)) ≡ store place (xs ++ ys) (some body)
unfolding store
store-store place k xs ys body e = elim (Bool-cases (leb (place + length xs) (length body))) [
  | inl h ↦
      let fits = leb→le _ _ h in
      let total : place + k + length ys ≡ place + length (xs ++ ys) =
        omega (arith, length-append xs ys) in
      rw
        (
          h,
          length-overwrite place xs body,
          total,
          overwrite-overwrite place (place + k) xs ys body (omega arith) (omega arith),
        )
        refl
  | inr h ↦
      let over = leb→lt _ _ h in
      rw
        (
          h,
          not_le→leb (place + length (xs ++ ys)) (length body) (omega (arith, length-append xs ys)),
        )
        refl
]

int_value : (n : ℕ) → n < 2 ^ 31 → of_word 32 (n % 2 ^ 32) ≡ pos n
unfolding of_word
int_value n h = let small : n % 2 ^ 32 ≡ n = omega arith in rw (small, lt→ltb n (2 ^ 31) h) refl

-- A block into zeros.
overwrite_zeros :
    (xs : List ℕ) (z : ℕ)
    → length xs ≤ z
    → overwrite 0 xs (replicate z 0) ≡ xs ++ replicate (z - length xs) 0
overwrite_zeros [] z h =
    let e : z - 0 ≡ z = omega arith in rw e (overwrite-nil {A = ℕ} 0 (replicate z 0))
overwrite_zeros (x ∷ xs) zero h = absurd (omega arith)
overwrite_zeros (x ∷ xs) (suc z) h =
    let e : suc z - suc (length xs) ≡ z - length xs = omega arith in
    rw e (ap (◌∷◌ x) (overwrite_zeros xs z (omega arith)))

store_fits :
    (bytes xs : List ℕ) (z : ℕ)
    → length xs ≤ z
    → store (length bytes) xs (some (bytes ++ replicate z 0))
      ≡ some (bytes ++ (xs ++ replicate (z - length xs) 0))
unfolding store
store_fits bytes xs z h =
    let size = length-append bytes (replicate z 0) in
    let zeros = length-replicate {A = ℕ} z 0 in
    rw
      (
        le→leb (length bytes + length xs) (length (bytes ++ replicate z 0))
            (omega (arith, size, zeros)),
        overwrite-append_back (length bytes) 0 xs bytes (replicate z 0) (omega arith),
        overwrite_zeros xs z h,
      )
      refl

store_over :
    (bytes xs : List ℕ) (z : ℕ)
    → z < length xs
    → store (length bytes) xs (some (bytes ++ replicate z 0)) ≡ none
unfolding store
store_over bytes xs z h =
    rw
      (not_le→leb (length bytes + length xs) (length (bytes ++ replicate z 0))
        (omega (arith, length-append bytes (replicate z 0), length-replicate {A = ℕ} z 0)))
      refl

pos-injective : {m n : ℕ} → pos m ≡ pos n → m ≡ n
pos-injective e = cc

module _ {κ} {W : Type κ} (incoming : W → List ℕ) (read : Reads W)
    (feeds : Feeds incoming read) where
  -- The body and the stream after `k` bytes.
  pub Taken : (place : ℕ) (body : List ℕ) → W → ℕ → Option (List ℕ) × W → Type 0
  Taken place body w k (m, w') =
      (incoming w' ≡ drop k (incoming w))
      × (k ≤ length (incoming w))
      × (m ≡ store place (take k (incoming w)) (some body))

  pub Taken-Delivers :
      (place : ℕ) (body : List ℕ) (w : W) → Delivers (Taken place body w) (read_into read place)
  unfolding Taken
  Taken-Delivers place body w offset left (m, w') t h =
      let f = feeds w' left h in
      let more : length (incoming w') ≡ length (incoming w) - offset =
        ap length t.0 ∙ length-drop offset (incoming w) in
      (
        f.0,
        f.1,
        f.3,
        (
          f.5 ∙ ap (drop f.0) t.0 ∙ drop-drop f.0 offset (offset + f.0) (incoming w) refl,
          omega (arith, more, f.2, t.1),
          ap (λ bs. store (place + offset) bs m) (f.4 ∙ ap (take f.0) t.0)
              ∙ ap (store (place + offset) (take f.0 (drop offset (incoming w)))) t.2
              ∙ store-store place offset (take offset (incoming w)) _ body
                  (length-take offset (incoming w) ∙ omega (arith, t.1))
              ∙ ap (λ bs. store place bs (some body)) (take-take-drop offset f.0 (incoming w)),
        ),
      )

  pub Taken-start :
      (place : ℕ) (body : List ℕ) (w : W)
      → place ≤ length body
      → Taken place body w 0 (some body, w)
  unfolding Taken store
  Taken-start place body w h = (
    refl,
    omega arith,
    sym (rw (le→leb (place + 0) (length body) (omega arith)) (ap some (overwrite-nil place body))),
  )

  -- While more is to come, a call does not answer 0.
  not_ended :
      (place : ℕ) (body : List ℕ) (w : W) (k n : ℕ) (last : Option (List ℕ) × W)
      → Taken place body w k last
      → 0 < n
      → k < length (incoming w)
      → ¬ ((read_into read place last k n).0 ≡ pos 0)
  unfolding Taken
  not_ended place body w k n (m, w') t h more e =
      let f = feeds w' n h in
      let left : length (incoming w') ≡ length (incoming w) - k =
        ap length t.0 ∙ length-drop k (incoming w) in
      omega (arith, f.6 (omega (arith, left)), pos-injective (sym f.3 ∙ e))

  -- The loop reads all that it is asked for, if that much comes.
  fed :
      (place : ℕ) (body : List ℕ) (w : W) (fuel len : ℕ)
      → place ≤ length body
      → len < fuel
      → len < 2 ^ 31
      → len ≤ length (incoming w)
      → (w' : W) × (incoming w' ≡ drop len (incoming w))
        × (read_fix_size (read_into read place) fuel len (some body, w)
            ≡ some (pos len, (store place (take len (incoming w)) (some body), w')))
  unfolding Taken
  fed place body w fuel len p f b enough =
      let (k, v, (m, w'), e, t, ends) =
        read_fix_size-Ended (Taken place body w) (read_into read place)
          (Taken-Delivers place body w) fuel len (some body, w) f (omega arith)
          (Taken-start place body w p) in
      elim ends [
        | inl all ↦ (
          w',
          t.0 ∙ ap (λ j. drop j (incoming w)) all.0,
          e
              ∙ ap (λ x. some (x, (m, w'))) (all.1 ∙ int_value len b)
              ∙ ap (λ y. some (pos len, (y, w')))
                  (t.2 ∙ ap (λ j. store place (take j (incoming w)) (some body)) all.0),
        )
        | inr short ↦ absurd (
            not_ended place body w k (len - k) short.2.0 short.2.1 (omega (arith, short.0))
              (omega (arith, short.0)) short.2.2)
      ]

  -- What recvRequest does with a part of the body that came with the headers.
  body_so_far :
      {P : Type 0} (p : P) (len fuel : ℕ) (bytes : List ℕ) (w : W)
      → length bytes < len
      → length bytes < fuel
      → len < 2 ^ 31
      → length bytes ≤ length (incoming w)
      → (w' : W) × (incoming w' ≡ drop (length bytes) (incoming w))
        × (recv_body read fuel p len bytes w
            ≡ finish_body p (
                some (
                  pos (length bytes),
                  (
                    store
                        (length bytes)
                        (take (length bytes) (incoming w))
                        (some (bytes ++ replicate (len - length bytes) 0)),
                    w',
                  ),
                )))
  unfolding recv_body
  body_so_far p len fuel bytes w part f b enough =
      let body = bytes ++ replicate (len - length bytes) 0 in
      let r =
        fed (length bytes) body w fuel (length bytes)
          (omega (arith, length-append bytes (replicate (len - length bytes) 0))) f (omega arith)
          enough in
      (
        r.0,
        r.1,
        rw (take_all len bytes (omega arith), lt→ltb (length bytes) len part)
            (ap (finish_body p) r.2),
      )

  -- Where a part of a body of less than 2 ^ 31 bytes, but more than half of it, came with the
  -- headers, and at least as many bytes again come later from a stream that does not fail, then
  -- recvRequest, behind body.resize and with more fuel than bytes came with the headers, writes
  -- behind the end of the body.
  pub recv_body-overrun :
      {P : Type 0} (p : P) (len fuel : ℕ) (bytes : List ℕ) (w : W)
      → length bytes < len
      → len < length bytes + length bytes
      → length bytes < fuel
      → len < 2 ^ 31
      → length bytes ≤ length (incoming w)
      → recv_body read fuel p len bytes w ≡ overrun
  unfolding finish_body
  recv_body-overrun p len fuel bytes w part half f b enough =
      let r = body_so_far p len fuel bytes w part f b enough in
      let many : length (take (length bytes) (incoming w)) ≡ length bytes =
        length-take (length bytes) (incoming w) ∙ omega (arith, enough) in
      r.2
      ∙ ap (λ m. finish_body p (some (pos (length bytes), (m, r.0))))
          (store_over bytes (take (length bytes) (incoming w)) (len - length bytes)
            (omega (arith, many, part, half)))

  -- Where at least one byte and at most half of a body of less than 2 ^ 31 bytes came with the
  -- headers, and as many bytes again come later from a stream that does not fail, then
  -- recvRequest, behind body.resize and with more fuel than bytes came with the headers, reads
  -- only as many bytes again and returns a body with zeros in place of the others.
  pub recv_body-short :
      {P : Type 0} (p : P) (len fuel : ℕ) (bytes : List ℕ) (w : W)
      → 0 < length bytes
      → length bytes + length bytes ≤ len
      → length bytes < fuel
      → len < 2 ^ 31
      → length bytes ≤ length (incoming w)
      → (w' : W) × (incoming w' ≡ drop (length bytes) (incoming w))
        × (recv_body read fuel p len bytes w
            ≡ request p
                (some (
                  bytes
                  ++ (take (length bytes) (incoming w)
                      ++ replicate (len - (length bytes + length bytes)) 0)))
                w')
  unfolding finish_body
  recv_body-short p len fuel bytes w some_came half f b enough =
      let r = body_so_far p len fuel bytes w (omega (arith, some_came, half)) f b enough in
      let many : length (take (length bytes) (incoming w)) ≡ length bytes =
        length-take (length bytes) (incoming w) ∙ omega (arith, enough) in
      let left : len - length bytes - length (take (length bytes) (incoming w))
          ≡ len - (length bytes + length bytes) =
        omega (arith, many) in
      (
        r.0,
        r.1,
        r.2
            ∙ ap (λ m. finish_body p (some (pos (length bytes), (m, r.0))))
                (store_fits bytes (take (length bytes) (incoming w)) (len - length bytes)
                    (omega (arith, many, half))
                  ∙ ap (λ z. some (bytes ++ (take (length bytes) (incoming w) ++ replicate z 0)))
                      left)
            ∙ returned (length bytes) some_came,
      )
    where
      returned :
          (n : ℕ)
          → 0 < n
          → {m : List ℕ} {u : W} → finish_body p (some (pos n, (some m, u))) ≡ request p (some m) u
      returned zero h = absurd (omega arith)
      returned (suc n) h = refl

  -- Where the body is still to come whole, recvRequest reads nothing, and closes the stream.
  pub recv_body-closed :
      {P : Type 0} (p : P) (len fuel : ℕ) (w : W)
      → 0 < len
      → 0 < fuel
      → recv_body read fuel p len [] w ≡ closed w
  unfolding recv_body finish_body fix_size_loop of_word
  recv_body-closed p len zero w h f = absurd (omega arith)
  recv_body-closed p len (suc fuel) w h f =
      rw (take_all {A = ℕ} len [] (omega arith), lt→ltb 0 len h) refl
