-- ===== src/HttpConnection/Ends.antt =====
-- kit_server/http/http_connection.cpp: recvResponse comes to an end.
use kit_server.Common.{ℕ, ◌≤◌, ◌<◌, ltb, ltb, List, length}
use kit_server.HttpSession.Headers.{Ends}
use kit_server.HttpConnection.{Answered, plain, thrown, Chunk, chunk, broken, negative, unfinished}

-- A chunk ended: what is kept does not fill the buffer, and at most n bytes are still to come.
unfoldable pub ChunkEnds {κ} : {W : Type κ} → (W → List ℕ) → (buff_size n : ℕ) → Chunk W → Type 0
ChunkEnds incoming buff_size n (chunk body bytes w) =
    (length bytes < buff_size) × (length (incoming w) ≤ n)
ChunkEnds incoming buff_size n (broken w) = Unit
ChunkEnds incoming buff_size n negative = Unit
ChunkEnds incoming buff_size n unfinished = ⊥

-- recvResponse ended, with an exception or without.
unfoldable pub AnswerEnds {ℓ κ} : {P : Type ℓ} {W : Type κ} → Answered P W → Type 0
AnswerEnds (plain r) = Ends r
AnswerEnds thrown = Unit
