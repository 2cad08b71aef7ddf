-- ===== src/HttpSession/Headers.antt =====
-- kit_server/http/http_session.cpp: recvRequest comes to an end, inside its buffer.
use kit_server.Common.{
  ℕ, zero, suc, ◌+◌, ◌-◌, ◌^◌, ◌≤◌, ◌<◌, ◌≡◌, sym, ap, subst, arith, ltb, leb, ◌==◌, Bool-cases,
  List, [], ◌++◌, length, take, length-append, length-take, length-drop, replicate, Option, none,
  some, false, inl, inr, if_both,
}
use kit_server.Common.Ints.{ℤ, pos, negsuc}
use kit_server.Stream.{read_fix_size}
use kit_server.Stream.Contract.{read_fix_size-Ended}
use kit_server.HttpSession.{
  Parser, Reads, execute, has_error, Received, closed, request, overrun, too_long, no_fuel, Parsed,
  rejected, parsed, more, after_execute, on_read, recv_headers, read_into, finish_body, recv_body,
  with_length, with_headers, recv_request,
}
use kit_server.HttpSession.Body.{Feeds, Taken, Taken-Delivers, Taken-start}

-- The loop over the headers ended; what it leaves does not fill the buffer, and less than n bytes are
-- still to come.
unfoldable pub EndsIn {ℓ κ} :
    {P : Type ℓ} {W : Type κ} → (W → List ℕ) → (buff_size n : ℕ) → Parsed P W → Type 0
EndsIn incoming buff_size n (rejected w) = Unit
EndsIn incoming buff_size n (parsed p rest w) =
    (length rest < buff_size) × (length (incoming w) < n)
EndsIn incoming buff_size n more = ⊥

unfoldable pub Ends {ℓ κ} : {P : Type ℓ} {W : Type κ} → Received P W → Type 0
Ends (closed w) = Unit
Ends (request p body w) = Unit
Ends overrun = Unit
Ends too_long = Unit
Ends no_fuel = ⊥

module _ {ℓ κ} {P : Type ℓ} {W : Type κ} (parser : Parser P) (incoming : W → List ℕ)
    (read : Reads W) (feeds : Feeds incoming read) (buff_size : ℕ) where
  after_execute-EndsIn :
      (n : ℕ) (e : P × List ℕ) (w : W) (again : Parsed P W)
      → length e.1 ≤ buff_size
      → length (incoming w) < n
      → (length e.1 < buff_size → EndsIn incoming buff_size n again)
      → EndsIn incoming buff_size n (after_execute parser buff_size e w again)
  unfolding after_execute EndsIn
  after_execute-EndsIn n e w again fits less next =
      if_both (EndsIn incoming buff_size n) (has_error parser e.0) tt
        (elim (Bool-cases (length e.1 == buff_size)) [
          | inl full ↦ rw full tt
          | inr h ↦ rw h (
              let inside : length e.1 < buff_size = inside_lem (length e.1) buff_size fits h in
              if_both (EndsIn incoming buff_size n) (parser.finished e.0) (inside, less)
                (next inside))
        ])
    where
      inside_lem : (m n : ℕ) → m ≤ n → (m == n) ≡ false → m < n
      inside_lem m n h e = ground arith

  -- The bytes that are left of those in the buffer fit into it again.
  execute-fits :
      (p : P) (bytes new : List ℕ) (n c : ℕ)
      → length bytes + n ≡ buff_size
      → c ≤ n
      → length new ≤ c
      → length (execute parser p (bytes ++ new)).1 ≤ buff_size
  unfolding execute
  execute-fits p bytes new n c e h k =
      omega
        (arith, length-drop (parser.run p (bytes ++ new)).1 (bytes ++ new), length-append bytes new)

  -- With more fuel than bytes to come the loop over the headers ends.
  pub recv_headers-EndsIn :
      (n fuel : ℕ) (p : P) (bytes : List ℕ) (w : W)
      → length (incoming w) ≤ n
      → length (incoming w) < fuel
      → length bytes < buff_size
      → EndsIn incoming buff_size n (recv_headers parser read buff_size fuel p bytes w)
  unfolding recv_headers on_read EndsIn
  recv_headers-EndsIn n zero p bytes w l f b = absurd (omega arith)
  recv_headers-EndsIn n (suc fuel) p bytes w l f b =
      let fed = feeds w (buff_size - length bytes) (omega arith) in
      let fewer : 0 < fed.0
          → length (incoming (read w (buff_size - length bytes)).2) < length (incoming w) =
        λ s. omega (arith, ap length fed.5, length-drop fed.0 (incoming w), fed.2, s) in
      by_count fed.0 fed.3 (λ s.
        after_execute-EndsIn n (execute parser p (bytes ++ (read w (buff_size - length bytes)).1))
          (read w (buff_size - length bytes)).2 _
          (execute-fits p bytes _ (buff_size - length bytes) fed.0 (omega arith) fed.1
            (omega (arith, ap length fed.4, length-take fed.0 (incoming w))))
          (omega (arith, fewer s))
          (λ inside.
            recv_headers-EndsIn n fuel _ _ _ (omega (arith, fewer s)) (omega (arith, fewer s))
              inside))
    where
      answer : ℤ × List ℕ × W
      answer = read w (buff_size - length bytes)

      again : P → List ℕ → Parsed P W
      again q rest = recv_headers parser read buff_size fuel q rest answer.2

      by_count :
          (c : ℕ)
          → answer.0 ≡ pos c
          → (0 < c
              → EndsIn incoming buff_size n (
                  after_execute parser buff_size (execute parser p (bytes ++ answer.1)) answer.2 (
                    again
                      (execute parser p (bytes ++ answer.1)).0
                      (execute parser p (bytes ++ answer.1)).1)))
          → EndsIn incoming buff_size n (on_read parser buff_size p bytes answer again)
      by_count zero e next = rw e tt
      by_count (suc c) e next = rw e (next (omega arith))

  finish_body-Ends :
      (p : P) (v : ℤ) (m : Option (List ℕ)) (w : W) → Ends (finish_body p (some (v, (m, w))))
  unfolding finish_body Ends
  finish_body-Ends p v none w = tt
  finish_body-Ends p (negsuc n) (some body) w = tt
  finish_body-Ends p (pos zero) (some body) w = tt
  finish_body-Ends p (pos (suc n)) (some body) w = tt

  recv_body-Ends :
      (fuel : ℕ) (p : P) (len : ℕ) (bytes : List ℕ) (w : W)
      → length bytes < fuel
      → length bytes < 2 ^ 64
      → Ends (recv_body read fuel p len bytes w)
  unfolding recv_body Ends
  recv_body-Ends fuel p len bytes w f b = if_both Ends (ltb (length bytes) len) all tt
    where
      real : List ℕ
      real = take len bytes

      body : List ℕ
      body = real ++ replicate (len - length real) 0

      all : Ends (
          finish_body p
            (read_fix_size (read_into read (length real)) fuel (length real) (some body, w)))
      all =
          let short : length real ≤ length bytes = omega (arith, length-take len bytes) in
          let (k, v, (m, w'), e, t, ends) =
            read_fix_size-Ended (Taken incoming read feeds (length real) body w)
              (read_into read (length real))
              (Taken-Delivers incoming read feeds (length real) body w) fuel (length real)
              (some body, w) (omega (arith, short, f)) (omega (arith, short, b))
              (Taken-start incoming read feeds (length real) body w
                (omega (arith, length-append real (replicate {A = ℕ} (len - length real) 0)))) in
          subst (λ r. Ends (finish_body p r)) (sym e) (finish_body-Ends p v m w')

  with_length-Ends :
      (room fuel : ℕ) (p : P) (len : ℤ) (bytes : List ℕ) (w : W)
      → length bytes < fuel
      → length bytes < 2 ^ 64
      → Ends (with_length read room fuel p len bytes w)
  unfolding with_length Ends
  with_length-Ends room fuel p (negsuc n) bytes w f b = tt
  with_length-Ends room fuel p (pos zero) bytes w f b = tt
  with_length-Ends room fuel p (pos (suc n)) bytes w f b =
      if_both Ends (leb (suc n) room) (recv_body-Ends fuel p (suc n) bytes w f b) tt

  pub with_headers-Ends :
      (n room fuel : ℕ) (h : Parsed P W)
      → buff_size < fuel
      → buff_size < 2 ^ 64
      → EndsIn incoming buff_size n h
      → Ends (with_headers parser read room fuel h)
  unfolding with_headers Ends EndsIn
  with_headers-Ends n room fuel (rejected w) f b e = tt
  with_headers-Ends n room fuel more f b e = e
  with_headers-Ends n room fuel (parsed p rest w) f b e =
      with_length-Ends room fuel p _ rest w (omega (arith, e.0)) (omega (arith, e.0))

  -- On a stream that does not fail and from which finitely many bytes come, with a buffer of at
  -- least one and less than 2 ^ 64 bytes, and with more fuel than those and than these,
  -- recvRequest comes to an end: a request, a closed stream, a write behind the body, or the
  -- exception of `body.resize`. The bytes that are left behind the headers do not fill the
  -- buffer, and where there are headers at least one byte was read.
  pub recv_request-Ends :
      (room fuel : ℕ) (p : P) (w : W)
      → 0 < buff_size
      → buff_size < 2 ^ 64
      → buff_size < fuel
      → length (incoming w) < fuel
      → Ends (recv_request parser read buff_size room fuel p w)
        × EndsIn incoming buff_size
            (length (incoming w))
            (recv_headers parser read buff_size fuel p [] w)
  unfolding recv_request
  recv_request-Ends room fuel p w h b f e =
      let headers = recv_headers-EndsIn (length (incoming w)) fuel p [] w (omega arith) e h in
      (with_headers-Ends _ room fuel _ f b headers, headers)
