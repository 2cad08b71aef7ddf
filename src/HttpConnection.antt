-- ===== src/HttpConnection.antt =====
-- kit_server/http/http_connection.cpp: HttpConnection::recvResponse, and what it uses of
-- kit_server/http/http_parser.cpp.
--
-- The generated parser and `read` of the stream are parameters, as in HttpSession, whose loop over
-- the headers and whose body of known length have the same text. A length of the source that is an
-- int and may be negative is compared before it is taken off.
pub mod Chunks
pub mod Ends
mod Tests
use kit_server.Common.{
  ℕ, zero, suc, ◌+◌, ◌-◌, ltb, leb, if◌then◌else◌, List, [], ◌++◌, length, take, drop, Option, none,
  some, Bool, min,
}
use kit_server.Common.Ints.{ℤ, pos, negsuc}
use kit_server.HttpSession.{
  Parser, Reads, Received, closed, request, overrun, no_fuel, Parsed, rejected, parsed, more,
  recv_headers, with_headers,
}

-- HttpResponseParser: the generated parser of both messages and chunks; `restart` is
-- `httpclient_parser_init`, `chunk_len` the int `content_len`.
pub record ClientParser {ℓ} (P : Type ℓ) : Type ℓ where
  pub parser : Parser P
  pub restart : P → P
  pub chunked : P → Bool
  pub chunk_len : P → ℤ
  pub chunks_done : P → Bool

-- `execute` with a chunk starts the parser anew.
unfoldable pub chunk_parser {ℓ} : {P : Type ℓ} → ClientParser P → Parser P
chunk_parser c = record (c.parser) { run = λ p bytes. c.parser.run (c.restart p) bytes }

-- What recvResponse comes to; `thrown` is std::length_error, from `append` with a negative length.
pub data Answered {ℓ κ} (P : Type ℓ) (W : Type κ) : Type (ℓ ⊔ κ) where
  plain : Received P W → Answered P W
  thrown : Answered P W

-- What becomes of one chunk: the body, the bytes that are kept and the stream.
pub data Chunk {κ} (W : Type κ) : Type κ where
  chunk : List ℕ → List ℕ → W → Chunk W
  broken : W → Chunk W
  negative : Chunk W
  unfinished : Chunk W

-- What a round of the loop over the rest of a chunk does with the answer of `read`.
unfoldable pub on_rest {κ} : {W : Type κ} → ℤ × List ℕ × W → (ℕ → Chunk W) → Chunk W
on_rest (negsuc n, new, w) again = broken w
on_rest (pos zero, new, w) again = broken w
on_rest (pos (suc n), new, w) again = again (suc n)

-- `while(left > 0)`.
unfoldable pub read_rest {κ} :
    {W : Type κ} → Reads W → (buff_size fuel left : ℕ) → List ℕ → W → Chunk W
read_rest read buff_size fuel zero body w = chunk body [] w
read_rest read buff_size zero (suc left) body w = unfinished
read_rest read buff_size (suc fuel) (suc left) body w =
    let r = read w (min (suc left) buff_size) in
    on_rest r (λ n. read_rest read buff_size fuel (suc left - n) (body ++ r.1) r.2)

-- A chunk behind its header, whose `bytes` are in the buffer.
unfoldable pub take_chunk {κ} :
    {W : Type κ} → Reads W → (buff_size fuel : ℕ) → ℤ → List ℕ → List ℕ → W → Chunk W
take_chunk read buff_size fuel (negsuc n) bytes body w = negative
take_chunk read buff_size fuel (pos n) bytes body w =
    let len = length bytes - 2 in
    if ltb (length bytes) 2
    then negative
    else (if leb n len
        then chunk (body ++ take n bytes) (take (len - n) (drop n bytes)) w
        else read_rest read buff_size fuel (n - len) (body ++ take len bytes) w)

unfoldable pub after_chunk {ℓ κ} :
    {P : Type ℓ} {W : Type κ}
    → ClientParser P
    → P
    → Chunk W
    → (List ℕ → List ℕ → W → Answered P W)
    → Answered P W
after_chunk c p (chunk body bytes w) again =
    if c.chunks_done p then plain (request p (some body) w) else again bytes body w
after_chunk c p (broken w) again = plain (closed w)
after_chunk c p negative again = thrown
after_chunk c p unfinished again = plain no_fuel

unfoldable pub on_chunk {ℓ κ} :
    {P : Type ℓ} {W : Type κ}
    → ClientParser P
    → Reads W
    → (buff_size fuel : ℕ) → List ℕ
    → Parsed P W
    → (P → List ℕ → List ℕ → W → Answered P W)
    → Answered P W
on_chunk c read buff_size fuel body (rejected w) again = plain (closed w)
on_chunk c read buff_size fuel body more again = plain no_fuel
on_chunk c read buff_size fuel body (parsed p bytes w) again =
    after_chunk c p (take_chunk read buff_size fuel (c.chunk_len p) bytes body w) (again p)

-- The loop over the chunks; each header is read at least once.
unfoldable pub recv_chunks {ℓ κ} :
    {P : Type ℓ} {W : Type κ}
    → ClientParser P
    → Reads W
    → (buff_size inner fuel : ℕ) → P
    → List ℕ
    → List ℕ
    → W
    → Answered P W
recv_chunks c read buff_size inner zero p bytes body w = plain no_fuel
recv_chunks c read buff_size inner (suc fuel) p bytes body w =
    on_chunk c read buff_size inner body
      (recv_headers (chunk_parser c) read buff_size inner p bytes w)
      (λ q rest b v. recv_chunks c read buff_size inner fuel q rest b v)

unfoldable pub with_response {ℓ κ} :
    {P : Type ℓ} {W : Type κ}
    → ClientParser P
    → Reads W
    → (buff_size room fuel : ℕ) → Parsed P W
    → Answered P W
with_response c read buff_size room fuel (rejected w) = plain (closed w)
with_response c read buff_size room fuel more = plain no_fuel
with_response c read buff_size room fuel (parsed p bytes w) =
    if c.chunked p
    then recv_chunks c read buff_size fuel fuel p bytes [] w
    else plain (with_headers c.parser read room fuel (parsed p bytes w))

unfoldable pub recv_response {ℓ κ} :
    {P : Type ℓ} {W : Type κ}
    → ClientParser P
    → Reads W
    → (buff_size room fuel : ℕ) → P
    → W
    → Answered P W
recv_response c read buff_size room fuel p w =
    with_response c read buff_size room fuel (recv_headers (c.parser) read buff_size fuel p [] w)
