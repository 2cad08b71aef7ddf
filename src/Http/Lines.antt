-- ===== src/Http/Lines.antt =====
-- kit_server/http/http.cpp: what the messages' texts are made of.
pub mod Decimal
use kit_server.Common.{
  ℕ, zero, suc, ◌+◌, ◌/◌, ◌%◌, length, ltb, if◌then◌else◌, List, [], ◌∷◌, ◌++◌, Bool, true, false,
  not,
}
use kit_server.Http.Method.{Text, same_text}
use kit_server.Http.Headers.{MapType, folded}

-- `strcasecmp` is 0.
unfoldable pub same_folded : Text → Text → Bool
same_folded u v = same_text (folded u) (folded v)

-- `os << n`, before the digits already written; a number below 2 ^ 64 has at most 20.
unfoldable pub decimal_on : ℕ → ℕ → Text → Text
decimal_on zero n t = t
decimal_on (suc fuel) n t =
    let rest = decimal_on fuel (n / 10) ((n % 10 + b'0') ∷ t) in
    if ltb n 10 then (n + b'0') ∷ t else rest

unfoldable pub decimal : ℕ → Text
decimal n = decimal_on 20 n []

-- `s.size()` as a test.
unfoldable pub has_text : Text → Bool
has_text [] = false
has_text (c ∷ u) = true

-- A text after a mark, where there is one.
unfoldable pub marked : ℕ → Text → Text
marked mark u = if has_text u then mark ∷ u else []

abbrev pub cr_lf : Text
cr_lf = 13 ∷ 10 ∷ []

abbrev pub connection : Text
connection = b'c' ∷ b'o' ∷ b'n' ∷ b'n' ∷ b'e' ∷ b'c' ∷ b't' ∷ b'i' ∷ b'o' ∷ b'n' ∷ []

abbrev pub close_text : Text
close_text = b'c' ∷ b'l' ∷ b'o' ∷ b's' ∷ b'e' ∷ []

abbrev pub keep_alive : Text
keep_alive = b'k' ∷ b'e' ∷ b'e' ∷ b'p' ∷ b'-' ∷ b'a' ∷ b'l' ∷ b'i' ∷ b'v' ∷ b'e' ∷ []

abbrev pub connection_state : Bool → Text
connection_state close = if close then close_text else keep_alive

-- The version's two numbers, of one byte.
unfoldable pub version_text : ℕ → Text
version_text version = decimal (version / 16) ++ (b'.' ∷ decimal (version % 16))

-- The header lines, in the order of the map, without the connection's.
unfoldable pub header_lines : MapType → Text
header_lines [] = []
header_lines (e ∷ m) =
    let rest = header_lines m in
    if same_folded e.0 connection then rest else e.0 ++ (b':' ∷ e.1 ++ (cr_lf ++ rest))

abbrev pub content_length : Text
content_length =
    b'c' ∷ b'o' ∷ b'n' ∷ b't' ∷ b'e' ∷ b'n' ∷ b't' ∷ b'-' ∷ b'l' ∷ b'e' ∷ b'n' ∷ b'g' ∷ b't' ∷ b'h'
    ∷ b':' ∷ b' ' ∷ []

unfoldable pub body_text : Text → Text
body_text body =
    if has_text body
    then content_length ++ (decimal (length body) ++ (cr_lf ++ (cr_lf ++ body)))
    else cr_lf
