-- ===== src/HttpSession/Tests.antt =====
-- A stream that gives at most three bytes a call, and a parser whose headers end with a line feed.
use kit_server.Common.{
  ℕ, suc, ◌==◌, if◌then◌else◌, ◌≡◌, refl, arith, List, [], ◌∷◌, length, take, drop, min, some, Bool,
  true, false,
}
use kit_server.Common.Ints.{pos, to_word, of_word}
use kit_server.Stream.{fix_size_loop}
use kit_server.HttpSession.{
  Parser, Reads, execute, request, overrun, after_execute, on_read, recv_headers, store,
  finish_body, recv_body, with_length, with_headers, recv_request,
}
use kit_server.HttpSession.Body.{Feeds, recv_body-overrun, recv_body-short}
use kit_server.HttpSession.Headers.{Ends, EndsIn, recv_request-Ends}

abbrev by_threes : Reads (List ℕ)
by_threes w n = (
  pos (min (min n 3) (length w)),
  take (min (min n 3) (length w)) w,
  drop (min (min n 3) (length w)) w,
)

by_threes-Feeds : Feeds (λ w. w) by_threes
by_threes-Feeds w n h =
    (min (min n 3) (length w), omega arith, omega arith, refl, refl, refl, λ more. omega arith)

-- The headers up to the line feed, and how many bytes they are; 0 where there is none.
headers : List ℕ → ℕ
headers [] = 0
headers (b ∷ bs) =
    let rest = headers bs in if b == 10 then 1 else (if rest == 0 then 0 else suc rest)

abbrev lines : ℕ → Parser Bool
lines len = record {
  run = λ p bytes. (if headers bytes == 0 then false else true, headers bytes);
  generated_error = λ p. false;
  error = λ p. false;
  finished = λ p. p;
  content_length = λ p. len;
}

-- Half of the body came with the headers.
half_body :
    recv_request (lines 2) by_threes 8 99 20 false (65 ∷ 10 ∷ 1 ∷ 2 ∷ [])
    ≡ request true (some (1 ∷ 2 ∷ [])) []
unfolding recv_request recv_headers on_read after_execute execute headers with_headers with_length
    recv_body finish_body store fix_size_loop to_word of_word
half_body = refl

recv_body-overrun_example :
    recv_body by_threes 5 true 4 (1 ∷ 2 ∷ 3 ∷ []) (4 ∷ 5 ∷ 6 ∷ 7 ∷ []) ≡ overrun
recv_body-overrun_example =
    recv_body-overrun (λ w. w) by_threes by_threes-Feeds true 4 5 (1 ∷ 2 ∷ 3 ∷ [])
      (4 ∷ 5 ∷ 6 ∷ 7 ∷ []) (omega arith) (omega arith) (omega arith) (omega arith) (omega arith)

recv_body-short_example :
    (w' : List ℕ) × (w' ≡ 3 ∷ 4 ∷ [])
    × (recv_body by_threes 5 true 4 (1 ∷ []) (2 ∷ 3 ∷ 4 ∷ [])
        ≡ request true (some (1 ∷ 2 ∷ 0 ∷ 0 ∷ [])) w')
recv_body-short_example =
    recv_body-short (λ w. w) by_threes by_threes-Feeds true 4 5 (1 ∷ []) (2 ∷ 3 ∷ 4 ∷ [])
      (omega arith) (omega arith) (omega arith) (omega arith) (omega arith)

recv_request-Ends_example :
    Ends (recv_request (lines 2) by_threes 8 99 20 false (65 ∷ 10 ∷ 1 ∷ 2 ∷ []))
    × EndsIn (λ w. w) 8 4 (recv_headers (lines 2) by_threes 8 20 false [] (65 ∷ 10 ∷ 1 ∷ 2 ∷ []))
recv_request-Ends_example =
    recv_request-Ends (lines 2) (λ w. w) by_threes by_threes-Feeds 8 99 20 false
      (65 ∷ 10 ∷ 1 ∷ 2 ∷ []) (omega arith) (omega arith) (omega arith) (omega arith)
