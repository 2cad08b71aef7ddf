-- ===== src/HttpSession.antt =====
-- kit_server/http/http_session.cpp: HttpSession::recvRequest, and what it uses of
-- kit_server/http/http_parser.cpp.
--
-- The parser that Ragel generates is a parameter, and so is `read` of the socket stream: from the state
-- of the world and the number of bytes asked for, to the int that it returns, the bytes that it
-- stores and the new state. The buffer is the list of its bytes up to the first that is not used.
-- The body is memory of its own, and a write behind its end is a crash.
pub mod Body
pub mod Headers
mod Tests
use kit_server.Common.{
  ℕ, zero, suc, ◌+◌, ◌-◌, ◌%◌, ◌^◌, ltb, leb, ◌==◌, if◌then◌else◌, List, [], ◌∷◌, ◌++◌, length,
  take, drop, replicate, overwrite, Option, none, some, Bool, true, false, ◌||◌,
}
use kit_server.Common.Ints.{ℤ, pos, negsuc, of_word}
use kit_server.Stream.{read_fix_size}

-- HttpRequestParser: the generated parser's state and functions. `run` says how
-- many bytes it has consumed, at most all that it was given.
pub record Parser {ℓ} (P : Type ℓ) : Type ℓ where
  pub run : P → List ℕ → P × ℕ
  pub generated_error : P → Bool
  pub error : P → Bool
  pub finished : P → Bool
  pub content_length : P → ℕ

-- HttpRequestParser::execute: the bytes that are not consumed move to the front of the buffer.
unfoldable pub execute {ℓ} : {P : Type ℓ} → Parser P → P → List ℕ → P × List ℕ
execute parser p bytes = let r = parser.run p bytes in (r.0, drop r.1 bytes)

abbrev pub has_error {ℓ} : {P : Type ℓ} → Parser P → P → Bool
has_error parser p = parser.error p || parser.generated_error p

-- A call of the stream's `read`.
abbrev pub Reads {ℓ} : Type ℓ → Type ℓ
Reads W = W → ℕ → ℤ × List ℕ × W

-- What recvRequest comes to: the stream is closed and the null pointer returned; a request, with its
-- body where it has one; a write behind the body; the exception of `body.resize`; the fuel did not
-- suffice.
pub data Received {ℓ κ} (P : Type ℓ) (W : Type κ) : Type (ℓ ⊔ κ) where
  closed : W → Received P W
  request : P → Option (List ℕ) → W → Received P W
  overrun : Received P W
  too_long : Received P W
  no_fuel : Received P W

-- The loop over the headers: the parser and the bytes behind the headers.
pub data Parsed {ℓ κ} (P : Type ℓ) (W : Type κ) : Type (ℓ ⊔ κ) where
  rejected : W → Parsed P W
  parsed : P → List ℕ → W → Parsed P W
  more : Parsed P W

-- The tests behind `execute`; `again` is the next round.
unfoldable pub after_execute {ℓ κ} :
    {P : Type ℓ} {W : Type κ}
    → Parser P
    → (buff_size : ℕ) → P × List ℕ
    → W
    → Parsed P W
    → Parsed P W
after_execute parser buff_size e w again =
    if has_error parser e.0
    then rejected w
    else (if length e.1 == buff_size
        then rejected w
        else (if parser.finished e.0 then parsed e.0 e.1 w else again))

-- What a round does with the answer of `read`.
unfoldable pub on_read {ℓ κ} :
    {P : Type ℓ} {W : Type κ}
    → Parser P
    → (buff_size : ℕ) → P
    → List ℕ
    → ℤ × List ℕ × W
    → (P → List ℕ → Parsed P W)
    → Parsed P W
on_read parser buff_size p bytes (negsuc n, new, w) again = rejected w
on_read parser buff_size p bytes (pos zero, new, w) again = rejected w
on_read parser buff_size p bytes (pos (suc n), new, w) again =
    let e = execute parser p (bytes ++ new) in after_execute parser buff_size e w (again e.0 e.1)

unfoldable pub recv_headers {ℓ κ} :
    {P : Type ℓ} {W : Type κ}
    → Parser P
    → Reads W
    → (buff_size fuel : ℕ) → P
    → List ℕ
    → W
    → Parsed P W
recv_headers parser read buff_size zero p bytes w = more
recv_headers parser read buff_size (suc fuel) p bytes w =
    let r = read w (buff_size - length bytes) in
    on_read parser buff_size p bytes r
      (λ q rest. recv_headers parser read buff_size fuel q rest r.2)

-- A write at `place` of the body, which is `none` after a write behind its end.
unfoldable pub store : ℕ → List ℕ → Option (List ℕ) → Option (List ℕ)
store place bytes none = none
store place bytes (some body) =
    if leb (place + length bytes) (length body) then some (overwrite place bytes body) else none

-- `read` into the body, as readFixSize calls it.
abbrev pub read_into {κ} :
    {W : Type κ} → Reads W → (place : ℕ) → Option (List ℕ) × W → ℕ → ℕ → ℤ × (Option (List ℕ) × W)
read_into read place (body, w) offset left =
    let r = read w left in (r.0, (store (place + offset) r.1 body, r.2))

unfoldable pub finish_body {ℓ κ} :
    {P : Type ℓ} {W : Type κ} → P → Option (ℤ × (Option (List ℕ) × W)) → Received P W
finish_body p none = no_fuel
finish_body p (some (v, (none, w))) = overrun
finish_body p (some (negsuc n, (some body, w))) = closed w
finish_body p (some (pos zero, (some body, w))) = closed w
finish_body p (some (pos (suc n), (some body, w))) = request p (some body) w

-- The body behind `body.resize(len)`: `bytes` are those behind the headers, `len` is above 0.
unfoldable pub recv_body {ℓ κ} :
    {P : Type ℓ} {W : Type κ} → Reads W → (fuel : ℕ) → P → (len : ℕ) → List ℕ → W → Received P W
recv_body read fuel p len bytes w =
    let real = take len bytes in
    let body = real ++ replicate (len - length real) 0 in
    if ltb (length bytes) len
    then finish_body p
        (read_fix_size (read_into read (length real)) fuel (length real) (some body, w))
    else request p (some body) w

-- `int64_t len`; `body.resize(len)` throws where it finds no memory for more than `room` bytes.
unfoldable pub with_length {ℓ κ} :
    {P : Type ℓ} {W : Type κ} → Reads W → (room fuel : ℕ) → P → ℤ → List ℕ → W → Received P W
with_length read room fuel p (negsuc n) bytes w = request p none w
with_length read room fuel p (pos zero) bytes w = request p none w
with_length read room fuel p (pos (suc n)) bytes w =
    if leb (suc n) room then recv_body read fuel p (suc n) bytes w else too_long

unfoldable pub with_headers {ℓ κ} :
    {P : Type ℓ} {W : Type κ} → Parser P → Reads W → (room fuel : ℕ) → Parsed P W → Received P W
with_headers parser read room fuel (rejected w) = closed w
with_headers parser read room fuel more = no_fuel
with_headers parser read room fuel (parsed p bytes w) =
    with_length read room fuel p (of_word 64 (parser.content_length p)) bytes w

unfoldable pub recv_request {ℓ κ} :
    {P : Type ℓ} {W : Type κ}
    → Parser P
    → Reads W
    → (buff_size room fuel : ℕ) → P
    → W
    → Received P W
recv_request parser read buff_size room fuel p w =
    with_headers parser read room fuel (recv_headers parser read buff_size fuel p [] w)
