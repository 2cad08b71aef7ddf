-- ===== src/Http/Tests.antt =====
-- kit_server/http/http.cpp and servlet.cpp: runs of the messages.
use kit_server.Common.{◌≡◌, ◌↔◌, refl, [], ◌∷◌, none, some, true, if◌then◌else◌}
use kit_server.Http.Method.{
  Text, HttpMethod, first_method, http_method_map, starts, http_method_to_string,
  chars_to_http_method,
}
use kit_server.Http.Headers.{
  MapType, c_str, case_insensitive_less, same_key, folded, find, set, erase, to_lower, text_less,
}
use kit_server.Http.Headers.Lookup.{IsSorted, IsBelow, find_lem}
use kit_server.Http.Lines.{has_text, decimal, decimal_on, body_text, keep_alive}
use kit_server.Http.Request.{HttpRequest, new_request, set_header}
use kit_server.Http.Response.{new_response, hello_handle, answer_page}
use kit_server.Http.Response

abbrev host_key : Text
host_key = b'H' ∷ b'o' ∷ b's' ∷ b't' ∷ []

abbrev host_lower : Text
host_lower = b'h' ∷ b'o' ∷ b's' ∷ b't' ∷ []

abbrev connection_key : Text
connection_key = b'C' ∷ b'o' ∷ b'n' ∷ b'n' ∷ b'e' ∷ b'c' ∷ b't' ∷ b'i' ∷ b'o' ∷ b'n' ∷ []

abbrev old_headers : MapType
old_headers = (connection_key, keep_alive) ∷ (host_key, b'a' ∷ []) ∷ []

-- The second spelling finds and replaces the first.
replaced :
    set host_lower (b'b' ∷ []) old_headers
    ≡ (connection_key, keep_alive) ∷ (host_key, b'b' ∷ []) ∷ []
unfolding set case_insensitive_less text_less c_str to_lower
replaced = refl

body_written :
    body_text (b'x' ∷ [])
    ≡ b'c' ∷ b'o' ∷ b'n' ∷ b't' ∷ b'e' ∷ b'n' ∷ b't' ∷ b'-' ∷ b'l' ∷ b'e' ∷ b'n' ∷ b'g' ∷ b't'
      ∷ b'h' ∷ b':' ∷ b' ' ∷ b'1' ∷ 13 ∷ 10 ∷ 13 ∷ 10 ∷ b'x' ∷ []
unfolding body_text decimal decimal_on has_text
body_written = refl

-- CharsToHttpMethod takes any text that begins with a method.
getter_is_get : chars_to_http_method (b'G' ∷ b'E' ∷ b'T' ∷ b'X' ∷ []) ≡ HttpMethod.get
unfolding chars_to_http_method first_method http_method_map starts http_method_to_string
getter_is_get = refl

-- The greeting has the status of a missing page.
hello_not_found : (hello_handle host_key (new_response 17 true)).status ≡ 404
unfolding hello_handle answer_page Response.set_header
hello_not_found = refl

old_headers-IsSorted : IsSorted old_headers
unfolding IsSorted IsBelow case_insensitive_less text_less c_str to_lower
old_headers-IsSorted = ((refl, tt), (tt, tt))

find_lem_example :
    IsSorted (set host_lower (b'b' ∷ []) old_headers)
    × IsSorted (erase host_lower old_headers)
    × (find host_key (set host_lower (b'b' ∷ []) old_headers)
        ≡ (if same_key host_lower host_key then some (b'b' ∷ []) else find host_key old_headers))
    × (find host_key (erase host_lower old_headers)
        ≡ (if same_key host_lower host_key then none else find host_key old_headers))
    × ((same_key host_lower host_key ≡ true) ↔ (folded host_lower ≡ folded host_key))
find_lem_example = find_lem host_lower (b'b' ∷ []) host_key old_headers old_headers-IsSorted

abbrev plain : HttpRequest
plain = new_request 17 true
