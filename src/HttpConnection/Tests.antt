-- ===== src/HttpConnection/Tests.antt =====
-- kit_server/http/http_connection.cpp: a stream of at most three bytes a call, and a parser of lines whose
-- first byte is the length of a chunk.
use kit_server.Common.{
  ℕ, suc, ◌-◌, ◌==◌, ◌≡◌, refl, arith, if◌then◌else◌, List, [], ◌∷◌, ◌++◌, length, take, drop, min,
  Bool, true, false,
}
use kit_server.Common.Ints.{pos}
use kit_server.HttpSession.{Reads, execute, after_execute, on_read, recv_headers}
use kit_server.HttpSession.Body.{Feeds}
use kit_server.HttpConnection.{
  ClientParser, chunk_parser, thrown, chunk, on_rest, read_rest, take_chunk, after_chunk, on_chunk,
  recv_chunks, with_response, recv_response,
}
use kit_server.HttpConnection.Chunks.{take_chunk_lem}

abbrev by_threes : Reads (List ℕ)
by_threes w n = (
  pos (min (min n 3) (length w)),
  take (min (min n 3) (length w)) w,
  drop (min (min n 3) (length w)) w,
)

by_threes-Feeds : Feeds (λ w. w) by_threes
by_threes-Feeds w n h =
    (min (min n 3) (length w), omega arith, omega arith, refl, refl, refl, λ more. omega arith)

-- The bytes up to the line feed; 0 where there is none.
line_end : List ℕ → ℕ
line_end [] = 0
line_end (b ∷ bs) =
    let rest = line_end bs in if b == 10 then 1 else (if rest == 0 then 0 else suc rest)

first_byte : List ℕ → ℕ
first_byte [] = 0
first_byte (b ∷ bs) = b - b'0'

-- The length of the chunk, and whether its line is complete.
abbrev client : ClientParser (ℕ × Bool)
client = record {
  parser = record {
    run = λ p bytes.
        ((first_byte bytes, if line_end bytes == 0 then false else true), line_end bytes);
    generated_error = λ p. false;
    error = λ p. false;
    finished = λ p. p.1;
    content_length = λ p. p.0;
  };
  restart = λ p. (0, false);
  chunked = λ p. true;
  chunk_len = λ p. pos p.0;
  chunks_done = λ p. p.0 == 0;
}

abbrev start : ℕ × Bool
start = (0, false)

-- The line of a chunk that comes with no byte behind it ends in the exception.
line_alone :
    recv_response client by_threes 8 99 20 start
      (b'H' ∷ b'h' ∷ 10 ∷ b'1' ∷ b';' ∷ 10 ∷ b'x' ∷ 13 ∷ 10 ∷ [])
    ≡ thrown
unfolding recv_response with_response recv_chunks on_chunk recv_headers on_read after_execute
    execute line_end first_byte take_chunk chunk_parser after_chunk
line_alone = refl

-- A chunk of three bytes that is read before its line ending loses its last two bytes.
cut_chunk :
    take_chunk by_threes 8 9 (pos 3) (b'a' ∷ b'b' ∷ b'c' ∷ []) [] (13 ∷ 10 ∷ [])
    ≡ chunk (b'a' ∷ 13 ∷ 10 ∷ []) [] []
unfolding take_chunk read_rest on_rest
cut_chunk = refl

take_chunk_lem_example :
    (v : List ℕ) × (take_chunk by_threes 8 9 (pos 3) (b'a' ∷ b'b' ∷ b'c' ∷ []) [] (13 ∷ 10 ∷ [])
      ≡ chunk
          ([] ++ take 3 (take (3 - 2) (b'a' ∷ b'b' ∷ b'c' ∷ []) ++ (13 ∷ 10 ∷ [])))
          (take (3 - 2 - 3) (drop 3 (b'a' ∷ b'b' ∷ b'c' ∷ [])))
          v)
    × (v ≡ drop (3 - (3 - 2)) (13 ∷ 10 ∷ []))
take_chunk_lem_example =
    take_chunk_lem (λ w. w) by_threes by_threes-Feeds 8 9 3 (b'a' ∷ b'b' ∷ b'c' ∷ []) []
      (13 ∷ 10 ∷ []) (omega arith) (omega arith) (omega arith) (omega arith)
