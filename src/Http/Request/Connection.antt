-- ===== src/Http/Request/Connection.antt =====
-- kit_server/http/http.cpp: the connection header of a request, in `init` and in `dump`.
use kit_server.Common.{◌≡◌, refl, arith, [], ◌∷◌, true}
use kit_server.Http.Method.{Text, same_text}

same_text_refl : (u : Text) → same_text u u ≡ true
unfolding same_text
same_text_refl [] = refl
same_text_refl (a ∷ u) = ground (arith, same_text_refl u)
