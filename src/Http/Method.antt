-- ===== src/Http/Method.antt =====
-- kit_server/http/http.h and http.cpp: request methods and status codes, and their texts.
--
-- A text is its bytes; those that this file compares have none that is 0.
pub mod RoundTrip
use kit_server.Common.{ℕ, ◌==◌, if◌then◌else◌, List, [], ◌∷◌, Bool, true, false, ◌&&◌}

abbrev pub Text : Type 0
Text = List ℕ

pub data HttpMethod : Type 0 where
  delete get head post put connect options trace : HttpMethod
  copy lock mkcol move propfind proppatch search unlock : HttpMethod
  bind rebind unbind acl report mkactivity checkout merge : HttpMethod
  msearch notify subscribe unsubscribe patch purge mkcalendar link : HttpMethod
  unlink source ok : HttpMethod
  invalid_method : HttpMethod

-- `strcmp` is 0.
unfoldable pub same_text : Text → Text → Bool
same_text [] [] = true
same_text [] (b ∷ v) = false
same_text (a ∷ u) [] = false
same_text (a ∷ u) (b ∷ v) = a == b && same_text u v

-- `strncmp` with the length of the first text is 0.
unfoldable pub starts : Text → Text → Bool
starts [] v = true
starts (a ∷ u) [] = false
starts (a ∷ u) (b ∷ v) = a == b && starts u v

unfoldable pub unknown : Text
unknown = b'<' ∷ b'u' ∷ b'n' ∷ b'k' ∷ b'n' ∷ b'o' ∷ b'w' ∷ b'n' ∷ b'>' ∷ []

unfoldable pub http_method_to_string : HttpMethod → Text
http_method_to_string delete = b'D' ∷ b'E' ∷ b'L' ∷ b'E' ∷ b'T' ∷ b'E' ∷ []
http_method_to_string get = b'G' ∷ b'E' ∷ b'T' ∷ []
http_method_to_string head = b'H' ∷ b'E' ∷ b'A' ∷ b'D' ∷ []
http_method_to_string post = b'P' ∷ b'O' ∷ b'S' ∷ b'T' ∷ []
http_method_to_string put = b'P' ∷ b'U' ∷ b'T' ∷ []
http_method_to_string connect = b'C' ∷ b'O' ∷ b'N' ∷ b'N' ∷ b'E' ∷ b'C' ∷ b'T' ∷ []
http_method_to_string options = b'O' ∷ b'P' ∷ b'T' ∷ b'I' ∷ b'O' ∷ b'N' ∷ b'S' ∷ []
http_method_to_string trace = b'T' ∷ b'R' ∷ b'A' ∷ b'C' ∷ b'E' ∷ []
http_method_to_string copy = b'C' ∷ b'O' ∷ b'P' ∷ b'Y' ∷ []
http_method_to_string lock = b'L' ∷ b'O' ∷ b'C' ∷ b'K' ∷ []
http_method_to_string mkcol = b'M' ∷ b'K' ∷ b'C' ∷ b'O' ∷ b'L' ∷ []
http_method_to_string move = b'M' ∷ b'O' ∷ b'V' ∷ b'E' ∷ []
http_method_to_string propfind = b'P' ∷ b'R' ∷ b'O' ∷ b'P' ∷ b'F' ∷ b'I' ∷ b'N' ∷ b'D' ∷ []
http_method_to_string proppatch = b'P' ∷ b'R' ∷ b'O' ∷ b'P' ∷ b'P' ∷ b'A' ∷ b'T' ∷ b'C' ∷ b'H' ∷ []
http_method_to_string search = b'S' ∷ b'E' ∷ b'A' ∷ b'R' ∷ b'C' ∷ b'H' ∷ []
http_method_to_string unlock = b'U' ∷ b'N' ∷ b'L' ∷ b'O' ∷ b'C' ∷ b'K' ∷ []
http_method_to_string bind = b'B' ∷ b'I' ∷ b'N' ∷ b'D' ∷ []
http_method_to_string rebind = b'R' ∷ b'E' ∷ b'B' ∷ b'I' ∷ b'N' ∷ b'D' ∷ []
http_method_to_string unbind = b'U' ∷ b'N' ∷ b'B' ∷ b'I' ∷ b'N' ∷ b'D' ∷ []
http_method_to_string acl = b'A' ∷ b'C' ∷ b'L' ∷ []
http_method_to_string report = b'R' ∷ b'E' ∷ b'P' ∷ b'O' ∷ b'R' ∷ b'T' ∷ []
http_method_to_string mkactivity =
    b'M' ∷ b'K' ∷ b'A' ∷ b'C' ∷ b'T' ∷ b'I' ∷ b'V' ∷ b'I' ∷ b'T' ∷ b'Y' ∷ []
http_method_to_string checkout = b'C' ∷ b'H' ∷ b'E' ∷ b'C' ∷ b'K' ∷ b'O' ∷ b'U' ∷ b'T' ∷ []
http_method_to_string merge = b'M' ∷ b'E' ∷ b'R' ∷ b'G' ∷ b'E' ∷ []
http_method_to_string msearch = b'M' ∷ b'-' ∷ b'S' ∷ b'E' ∷ b'A' ∷ b'R' ∷ b'C' ∷ b'H' ∷ []
http_method_to_string notify = b'N' ∷ b'O' ∷ b'T' ∷ b'I' ∷ b'F' ∷ b'Y' ∷ []
http_method_to_string subscribe = b'S' ∷ b'U' ∷ b'B' ∷ b'S' ∷ b'C' ∷ b'R' ∷ b'I' ∷ b'B' ∷ b'E' ∷ []
http_method_to_string unsubscribe =
    b'U' ∷ b'N' ∷ b'S' ∷ b'U' ∷ b'B' ∷ b'S' ∷ b'C' ∷ b'R' ∷ b'I' ∷ b'B' ∷ b'E' ∷ []
http_method_to_string patch = b'P' ∷ b'A' ∷ b'T' ∷ b'C' ∷ b'H' ∷ []
http_method_to_string purge = b'P' ∷ b'U' ∷ b'R' ∷ b'G' ∷ b'E' ∷ []
http_method_to_string mkcalendar =
    b'M' ∷ b'K' ∷ b'C' ∷ b'A' ∷ b'L' ∷ b'E' ∷ b'N' ∷ b'D' ∷ b'A' ∷ b'R' ∷ []
http_method_to_string link = b'L' ∷ b'I' ∷ b'N' ∷ b'K' ∷ []
http_method_to_string unlink = b'U' ∷ b'N' ∷ b'L' ∷ b'I' ∷ b'N' ∷ b'K' ∷ []
http_method_to_string source = b'S' ∷ b'O' ∷ b'U' ∷ b'R' ∷ b'C' ∷ b'E' ∷ []
http_method_to_string ok = b'O' ∷ b'K' ∷ []
http_method_to_string invalid_method = unknown

-- The methods in the order of the macro.
unfoldable pub http_method_map : List HttpMethod
http_method_map =
    delete ∷ get ∷ head ∷ post ∷ put ∷ connect ∷ options ∷ trace ∷ copy ∷ lock ∷ mkcol ∷ move
    ∷ propfind ∷ proppatch ∷ search ∷ unlock ∷ bind ∷ rebind ∷ unbind ∷ acl ∷ report ∷ mkactivity
    ∷ checkout ∷ merge ∷ msearch ∷ notify ∷ subscribe ∷ unsubscribe ∷ patch ∷ purge ∷ mkcalendar
    ∷ link ∷ unlink ∷ source ∷ ok ∷ []

-- The tests that the macro unfolds to, one after the other.
unfoldable pub first_method : (Text → Bool) → List HttpMethod → HttpMethod
first_method test [] = invalid_method
first_method test (m ∷ ms) = if test (http_method_to_string m) then m else first_method test ms

unfoldable pub string_to_http_method : Text → HttpMethod
string_to_http_method method = first_method (λ t. same_text t method) http_method_map

unfoldable pub chars_to_http_method : Text → HttpMethod
chars_to_http_method method = first_method (λ t. starts t method) http_method_map

-- The codes and the texts of the status macro.
unfoldable pub http_status_map : List (ℕ × Text)
http_status_map =
    (100, b'C' ∷ b'o' ∷ b'n' ∷ b't' ∷ b'i' ∷ b'n' ∷ b'u' ∷ b'e' ∷ [])
    ∷ (
      101,
      b'S' ∷ b'w' ∷ b'i' ∷ b't' ∷ b'c' ∷ b'h' ∷ b'i' ∷ b'n' ∷ b'g' ∷ b' ' ∷ b'P' ∷ b'r' ∷ b'o'
          ∷ b't' ∷ b'o' ∷ b'c' ∷ b'o' ∷ b'l' ∷ b's' ∷ [],
    )
    ∷ (102, b'P' ∷ b'r' ∷ b'o' ∷ b'c' ∷ b'e' ∷ b's' ∷ b's' ∷ b'i' ∷ b'n' ∷ b'g' ∷ [])
    ∷ (200, b'O' ∷ b'K' ∷ [])
    ∷ (201, b'C' ∷ b'r' ∷ b'e' ∷ b'a' ∷ b't' ∷ b'e' ∷ b'd' ∷ [])
    ∷ (202, b'A' ∷ b'c' ∷ b'c' ∷ b'e' ∷ b'p' ∷ b't' ∷ b'e' ∷ b'd' ∷ [])
    ∷ (
      203,
      b'N' ∷ b'o' ∷ b'n' ∷ b'-' ∷ b'A' ∷ b'u' ∷ b't' ∷ b'h' ∷ b'o' ∷ b'r' ∷ b'i' ∷ b't' ∷ b'a'
          ∷ b't' ∷ b'i' ∷ b'v' ∷ b'e' ∷ b' ' ∷ b'I' ∷ b'n' ∷ b'f' ∷ b'o' ∷ b'r' ∷ b'm' ∷ b'a' ∷ b't'
          ∷ b'i' ∷ b'o' ∷ b'n' ∷ [],
    )
    ∷ (204, b'N' ∷ b'o' ∷ b' ' ∷ b'C' ∷ b'o' ∷ b'n' ∷ b't' ∷ b'e' ∷ b'n' ∷ b't' ∷ [])
    ∷ (
      205,
      b'R' ∷ b'e' ∷ b's' ∷ b'e' ∷ b't' ∷ b' ' ∷ b'C' ∷ b'o' ∷ b'n' ∷ b't' ∷ b'e' ∷ b'n' ∷ b't' ∷ [],
    )
    ∷ (
      206,
      b'P' ∷ b'a' ∷ b'r' ∷ b't' ∷ b'i' ∷ b'a' ∷ b'l' ∷ b' ' ∷ b'C' ∷ b'o' ∷ b'n' ∷ b't' ∷ b'e'
          ∷ b'n' ∷ b't' ∷ [],
    )
    ∷ (207, b'M' ∷ b'u' ∷ b'l' ∷ b't' ∷ b'i' ∷ b'-' ∷ b'S' ∷ b't' ∷ b'a' ∷ b't' ∷ b'u' ∷ b's' ∷ [])
    ∷ (
      208,
      b'A' ∷ b'l' ∷ b'r' ∷ b'e' ∷ b'a' ∷ b'd' ∷ b'y' ∷ b' ' ∷ b'R' ∷ b'e' ∷ b'p' ∷ b'o' ∷ b'r'
          ∷ b't' ∷ b'e' ∷ b'd' ∷ [],
    )
    ∷ (226, b'I' ∷ b'M' ∷ b' ' ∷ b'U' ∷ b's' ∷ b'e' ∷ b'd' ∷ [])
    ∷ (
      300,
      b'M' ∷ b'u' ∷ b'l' ∷ b't' ∷ b'i' ∷ b'p' ∷ b'l' ∷ b'e' ∷ b' ' ∷ b'C' ∷ b'h' ∷ b'o' ∷ b'i'
          ∷ b'c' ∷ b'e' ∷ b's' ∷ [],
    )
    ∷ (
      301,
      b'M' ∷ b'o' ∷ b'v' ∷ b'e' ∷ b'd' ∷ b' ' ∷ b'P' ∷ b'e' ∷ b'r' ∷ b'm' ∷ b'a' ∷ b'n' ∷ b'e'
          ∷ b'n' ∷ b't' ∷ b'l' ∷ b'y' ∷ [],
    )
    ∷ (302, b'F' ∷ b'o' ∷ b'u' ∷ b'n' ∷ b'd' ∷ [])
    ∷ (303, b'S' ∷ b'e' ∷ b'e' ∷ b' ' ∷ b'O' ∷ b't' ∷ b'h' ∷ b'e' ∷ b'r' ∷ [])
    ∷ (304, b'N' ∷ b'o' ∷ b't' ∷ b' ' ∷ b'M' ∷ b'o' ∷ b'd' ∷ b'i' ∷ b'f' ∷ b'i' ∷ b'e' ∷ b'd' ∷ [])
    ∷ (305, b'U' ∷ b's' ∷ b'e' ∷ b' ' ∷ b'P' ∷ b'r' ∷ b'o' ∷ b'x' ∷ b'y' ∷ [])
    ∷ (
      307,
      b'T' ∷ b'e' ∷ b'm' ∷ b'p' ∷ b'o' ∷ b'r' ∷ b'a' ∷ b'r' ∷ b'y' ∷ b' ' ∷ b'R' ∷ b'e' ∷ b'd'
          ∷ b'i' ∷ b'r' ∷ b'e' ∷ b'c' ∷ b't' ∷ [],
    )
    ∷ (
      308,
      b'P' ∷ b'e' ∷ b'r' ∷ b'm' ∷ b'a' ∷ b'n' ∷ b'e' ∷ b'n' ∷ b't' ∷ b' ' ∷ b'R' ∷ b'e' ∷ b'd'
          ∷ b'i' ∷ b'r' ∷ b'e' ∷ b'c' ∷ b't' ∷ [],
    )
    ∷ (400, b'B' ∷ b'a' ∷ b'd' ∷ b' ' ∷ b'R' ∷ b'e' ∷ b'q' ∷ b'u' ∷ b'e' ∷ b's' ∷ b't' ∷ [])
    ∷ (401, b'U' ∷ b'n' ∷ b'a' ∷ b'u' ∷ b't' ∷ b'h' ∷ b'o' ∷ b'r' ∷ b'i' ∷ b'z' ∷ b'e' ∷ b'd' ∷ [])
    ∷ (
      402,
      b'P' ∷ b'a' ∷ b'y' ∷ b'm' ∷ b'e' ∷ b'n' ∷ b't' ∷ b' ' ∷ b'R' ∷ b'e' ∷ b'q' ∷ b'u' ∷ b'i'
          ∷ b'r' ∷ b'e' ∷ b'd' ∷ [],
    )
    ∷ (403, b'F' ∷ b'o' ∷ b'r' ∷ b'b' ∷ b'i' ∷ b'd' ∷ b'd' ∷ b'e' ∷ b'n' ∷ [])
    ∷ (404, b'N' ∷ b'o' ∷ b't' ∷ b' ' ∷ b'F' ∷ b'o' ∷ b'u' ∷ b'n' ∷ b'd' ∷ [])
    ∷ (
      405,
      b'M' ∷ b'e' ∷ b't' ∷ b'h' ∷ b'o' ∷ b'd' ∷ b' ' ∷ b'N' ∷ b'o' ∷ b't' ∷ b' ' ∷ b'A' ∷ b'l'
          ∷ b'l' ∷ b'o' ∷ b'w' ∷ b'e' ∷ b'd' ∷ [],
    )
    ∷ (
      406,
      b'N' ∷ b'o' ∷ b't' ∷ b' ' ∷ b'A' ∷ b'c' ∷ b'c' ∷ b'e' ∷ b'p' ∷ b't' ∷ b'a' ∷ b'b' ∷ b'l'
          ∷ b'e' ∷ [],
    )
    ∷ (
      407,
      b'P' ∷ b'r' ∷ b'o' ∷ b'x' ∷ b'y' ∷ b' ' ∷ b'A' ∷ b'u' ∷ b't' ∷ b'h' ∷ b'e' ∷ b'n' ∷ b't'
          ∷ b'i' ∷ b'c' ∷ b'a' ∷ b't' ∷ b'i' ∷ b'o' ∷ b'n' ∷ b' ' ∷ b'R' ∷ b'e' ∷ b'q' ∷ b'u' ∷ b'i'
          ∷ b'r' ∷ b'e' ∷ b'd' ∷ [],
    )
    ∷ (
      408,
      b'R' ∷ b'e' ∷ b'q' ∷ b'u' ∷ b'e' ∷ b's' ∷ b't' ∷ b' ' ∷ b'T' ∷ b'i' ∷ b'm' ∷ b'e' ∷ b'o'
          ∷ b'u' ∷ b't' ∷ [],
    )
    ∷ (409, b'C' ∷ b'o' ∷ b'n' ∷ b'f' ∷ b'l' ∷ b'i' ∷ b'c' ∷ b't' ∷ [])
    ∷ (410, b'G' ∷ b'o' ∷ b'n' ∷ b'e' ∷ [])
    ∷ (
      411,
      b'L' ∷ b'e' ∷ b'n' ∷ b'g' ∷ b't' ∷ b'h' ∷ b' ' ∷ b'R' ∷ b'e' ∷ b'q' ∷ b'u' ∷ b'i' ∷ b'r'
          ∷ b'e' ∷ b'd' ∷ [],
    )
    ∷ (
      412,
      b'P' ∷ b'r' ∷ b'e' ∷ b'c' ∷ b'o' ∷ b'n' ∷ b'd' ∷ b'i' ∷ b't' ∷ b'i' ∷ b'o' ∷ b'n' ∷ b' '
          ∷ b'F' ∷ b'a' ∷ b'i' ∷ b'l' ∷ b'e' ∷ b'd' ∷ [],
    )
    ∷ (
      413,
      b'P' ∷ b'a' ∷ b'y' ∷ b'l' ∷ b'o' ∷ b'a' ∷ b'd' ∷ b' ' ∷ b'T' ∷ b'o' ∷ b'o' ∷ b' ' ∷ b'L'
          ∷ b'a' ∷ b'r' ∷ b'g' ∷ b'e' ∷ [],
    )
    ∷ (414, b'U' ∷ b'R' ∷ b'I' ∷ b' ' ∷ b'T' ∷ b'o' ∷ b'o' ∷ b' ' ∷ b'L' ∷ b'o' ∷ b'n' ∷ b'g' ∷ [])
    ∷ (
      415,
      b'U' ∷ b'n' ∷ b's' ∷ b'u' ∷ b'p' ∷ b'p' ∷ b'o' ∷ b'r' ∷ b't' ∷ b'e' ∷ b'd' ∷ b' ' ∷ b'M'
          ∷ b'e' ∷ b'd' ∷ b'i' ∷ b'a' ∷ b' ' ∷ b'T' ∷ b'y' ∷ b'p' ∷ b'e' ∷ [],
    )
    ∷ (
      416,
      b'R' ∷ b'a' ∷ b'n' ∷ b'g' ∷ b'e' ∷ b' ' ∷ b'N' ∷ b'o' ∷ b't' ∷ b' ' ∷ b'S' ∷ b'a' ∷ b't'
          ∷ b'i' ∷ b's' ∷ b'f' ∷ b'i' ∷ b'a' ∷ b'b' ∷ b'l' ∷ b'e' ∷ [],
    )
    ∷ (
      417,
      b'E' ∷ b'x' ∷ b'p' ∷ b'e' ∷ b'c' ∷ b't' ∷ b'a' ∷ b't' ∷ b'i' ∷ b'o' ∷ b'n' ∷ b' ' ∷ b'F'
          ∷ b'a' ∷ b'i' ∷ b'l' ∷ b'e' ∷ b'd' ∷ [],
    )
    ∷ (
      421,
      b'M' ∷ b'i' ∷ b's' ∷ b'd' ∷ b'i' ∷ b'r' ∷ b'e' ∷ b'c' ∷ b't' ∷ b'e' ∷ b'd' ∷ b' ' ∷ b'R'
          ∷ b'e' ∷ b'q' ∷ b'u' ∷ b'e' ∷ b's' ∷ b't' ∷ [],
    )
    ∷ (
      422,
      b'U' ∷ b'n' ∷ b'p' ∷ b'r' ∷ b'o' ∷ b'c' ∷ b'e' ∷ b's' ∷ b's' ∷ b'a' ∷ b'b' ∷ b'l' ∷ b'e'
          ∷ b' ' ∷ b'E' ∷ b'n' ∷ b't' ∷ b'i' ∷ b't' ∷ b'y' ∷ [],
    )
    ∷ (423, b'L' ∷ b'o' ∷ b'c' ∷ b'k' ∷ b'e' ∷ b'd' ∷ [])
    ∷ (
      424,
      b'F' ∷ b'a' ∷ b'i' ∷ b'l' ∷ b'e' ∷ b'd' ∷ b' ' ∷ b'D' ∷ b'e' ∷ b'p' ∷ b'e' ∷ b'n' ∷ b'd'
          ∷ b'e' ∷ b'n' ∷ b'c' ∷ b'y' ∷ [],
    )
    ∷ (
      426,
      b'U' ∷ b'p' ∷ b'g' ∷ b'r' ∷ b'a' ∷ b'd' ∷ b'e' ∷ b' ' ∷ b'R' ∷ b'e' ∷ b'q' ∷ b'u' ∷ b'i'
          ∷ b'r' ∷ b'e' ∷ b'd' ∷ [],
    )
    ∷ (
      428,
      b'P' ∷ b'r' ∷ b'e' ∷ b'c' ∷ b'o' ∷ b'n' ∷ b'd' ∷ b'i' ∷ b't' ∷ b'i' ∷ b'o' ∷ b'n' ∷ b' '
          ∷ b'R' ∷ b'e' ∷ b'q' ∷ b'u' ∷ b'i' ∷ b'r' ∷ b'e' ∷ b'd' ∷ [],
    )
    ∷ (
      429,
      b'T' ∷ b'o' ∷ b'o' ∷ b' ' ∷ b'M' ∷ b'a' ∷ b'n' ∷ b'y' ∷ b' ' ∷ b'R' ∷ b'e' ∷ b'q' ∷ b'u'
          ∷ b'e' ∷ b's' ∷ b't' ∷ b's' ∷ [],
    )
    ∷ (
      431,
      b'R' ∷ b'e' ∷ b'q' ∷ b'u' ∷ b'e' ∷ b's' ∷ b't' ∷ b' ' ∷ b'H' ∷ b'e' ∷ b'a' ∷ b'd' ∷ b'e'
          ∷ b'r' ∷ b' ' ∷ b'F' ∷ b'i' ∷ b'e' ∷ b'l' ∷ b'd' ∷ b's' ∷ b' ' ∷ b'T' ∷ b'o' ∷ b'o' ∷ b' '
          ∷ b'L' ∷ b'a' ∷ b'r' ∷ b'g' ∷ b'e' ∷ [],
    )
    ∷ (
      451,
      b'U' ∷ b'n' ∷ b'a' ∷ b'v' ∷ b'a' ∷ b'i' ∷ b'l' ∷ b'a' ∷ b'b' ∷ b'l' ∷ b'e' ∷ b' ' ∷ b'F'
          ∷ b'o' ∷ b'r' ∷ b' ' ∷ b'L' ∷ b'e' ∷ b'g' ∷ b'a' ∷ b'l' ∷ b' ' ∷ b'R' ∷ b'e' ∷ b'a' ∷ b's'
          ∷ b'o' ∷ b'n' ∷ b's' ∷ [],
    )
    ∷ (
      500,
      b'I' ∷ b'n' ∷ b't' ∷ b'e' ∷ b'r' ∷ b'n' ∷ b'a' ∷ b'l' ∷ b' ' ∷ b'S' ∷ b'e' ∷ b'r' ∷ b'v'
          ∷ b'e' ∷ b'r' ∷ b' ' ∷ b'E' ∷ b'r' ∷ b'r' ∷ b'o' ∷ b'r' ∷ [],
    )
    ∷ (
      501,
      b'N' ∷ b'o' ∷ b't' ∷ b' ' ∷ b'I' ∷ b'm' ∷ b'p' ∷ b'l' ∷ b'e' ∷ b'm' ∷ b'e' ∷ b'n' ∷ b't'
          ∷ b'e' ∷ b'd' ∷ [],
    )
    ∷ (502, b'B' ∷ b'a' ∷ b'd' ∷ b' ' ∷ b'G' ∷ b'a' ∷ b't' ∷ b'e' ∷ b'w' ∷ b'a' ∷ b'y' ∷ [])
    ∷ (
      503,
      b'S' ∷ b'e' ∷ b'r' ∷ b'v' ∷ b'i' ∷ b'c' ∷ b'e' ∷ b' ' ∷ b'U' ∷ b'n' ∷ b'a' ∷ b'v' ∷ b'a'
          ∷ b'i' ∷ b'l' ∷ b'a' ∷ b'b' ∷ b'l' ∷ b'e' ∷ [],
    )
    ∷ (
      504,
      b'G' ∷ b'a' ∷ b't' ∷ b'e' ∷ b'w' ∷ b'a' ∷ b'y' ∷ b' ' ∷ b'T' ∷ b'i' ∷ b'm' ∷ b'e' ∷ b'o'
          ∷ b'u' ∷ b't' ∷ [],
    )
    ∷ (
      505,
      b'H' ∷ b'T' ∷ b'T' ∷ b'P' ∷ b' ' ∷ b'V' ∷ b'e' ∷ b'r' ∷ b's' ∷ b'i' ∷ b'o' ∷ b'n' ∷ b' '
          ∷ b'N' ∷ b'o' ∷ b't' ∷ b' ' ∷ b'S' ∷ b'u' ∷ b'p' ∷ b'p' ∷ b'o' ∷ b'r' ∷ b't' ∷ b'e' ∷ b'd'
          ∷ [],
    )
    ∷ (
      506,
      b'V' ∷ b'a' ∷ b'r' ∷ b'i' ∷ b'a' ∷ b'n' ∷ b't' ∷ b' ' ∷ b'A' ∷ b'l' ∷ b's' ∷ b'o' ∷ b' '
          ∷ b'N' ∷ b'e' ∷ b'g' ∷ b'o' ∷ b't' ∷ b'i' ∷ b'a' ∷ b't' ∷ b'e' ∷ b's' ∷ [],
    )
    ∷ (
      507,
      b'I' ∷ b'n' ∷ b's' ∷ b'u' ∷ b'f' ∷ b'f' ∷ b'i' ∷ b'c' ∷ b'i' ∷ b'e' ∷ b'n' ∷ b't' ∷ b' '
          ∷ b'S' ∷ b't' ∷ b'o' ∷ b'r' ∷ b'a' ∷ b'g' ∷ b'e' ∷ [],
    )
    ∷ (
      508,
      b'L' ∷ b'o' ∷ b'o' ∷ b'p' ∷ b' ' ∷ b'D' ∷ b'e' ∷ b't' ∷ b'e' ∷ b'c' ∷ b't' ∷ b'e' ∷ b'd' ∷ [],
    )
    ∷ (510, b'N' ∷ b'o' ∷ b't' ∷ b' ' ∷ b'E' ∷ b'x' ∷ b't' ∷ b'e' ∷ b'n' ∷ b'd' ∷ b'e' ∷ b'd' ∷ [])
    ∷ (
      511,
      b'N' ∷ b'e' ∷ b't' ∷ b'w' ∷ b'o' ∷ b'r' ∷ b'k' ∷ b' ' ∷ b'A' ∷ b'u' ∷ b't' ∷ b'h' ∷ b'e'
          ∷ b'n' ∷ b't' ∷ b'i' ∷ b'c' ∷ b'a' ∷ b't' ∷ b'i' ∷ b'o' ∷ b'n' ∷ b' ' ∷ b'R' ∷ b'e' ∷ b'q'
          ∷ b'u' ∷ b'i' ∷ b'r' ∷ b'e' ∷ b'd' ∷ [],
    )
    ∷ []

unfoldable pub status_text : ℕ → List (ℕ × Text) → Text
status_text status [] = unknown
status_text status (e ∷ es) = if status == e.0 then e.1 else status_text status es

unfoldable pub http_status_to_string : ℕ → Text
http_status_to_string status = status_text status http_status_map
