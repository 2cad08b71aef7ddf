-- ===== src/Http/Response.antt =====
-- kit_server/http/http.h and http.cpp: class HttpResponse; kit_server/http/servlet.cpp: the servlets that
-- come with the server.
use kit_server.Common.{ℕ, if◌then◌else◌, [], ◌∷◌, ◌++◌, Option, Bool}
use kit_server.Http.Method.{Text, http_status_to_string}
use kit_server.Http.Headers.{MapType, set, erase, get, check_get_as, get_as}
use kit_server.Http.Lines.{
  decimal, has_text, cr_lf, connection, connection_state, version_text, header_lines, body_text,
}

pub record HttpResponse : Type 0 where
  pub status : ℕ
  pub version : ℕ
  pub close : Bool
  pub body : Text
  pub reason : Text
  pub headers : MapType

unfoldable pub new_response : ℕ → Bool → HttpResponse
new_response version close = record {
  status = 200;
  version = version;
  close = close;
  body = [];
  reason = [];
  headers = [];
}

unfoldable pub set_header : Text → Text → HttpResponse → HttpResponse
set_header key val r = record r { headers = set key val (r.headers) }

unfoldable pub get_header : Text → Text → HttpResponse → Text
get_header key def r = get key def (r.headers)

unfoldable pub del_header : Text → HttpResponse → HttpResponse
del_header key r = record r { headers = erase key (r.headers) }

-- The cast is that of `boost::lexical_cast`.
module _ {ℓ} {T : Type ℓ} (lexical_cast : Text → Option T) where
  unfoldable pub check_get_header_as : Text → T → HttpResponse → T × Bool
  check_get_header_as key def r = check_get_as lexical_cast key def (r.headers)

  unfoldable pub get_header_as : Text → T → HttpResponse → T
  get_header_as key def r = get_as lexical_cast key def (r.headers)

-- The text of a response, which `toString` and `operator<<` write too.
unfoldable pub dump : HttpResponse → Text
dump r =
    b'H' ∷ b'T' ∷ b'T' ∷ b'P' ∷ b'/' ∷ version_text (r.version)
    ++ (b' ' ∷ decimal (r.status)
        ++ (b' ' ∷ (if has_text (r.reason) then r.reason else http_status_to_string (r.status))
            ++ (cr_lf
                ++ (header_lines (r.headers)
                    ++ (connection
                        ++ (b':' ∷ b' ' ∷ connection_state (r.close)
                            ++ (cr_lf ++ body_text (r.body))))))))

abbrev server_key : Text
server_key = b'S' ∷ b'e' ∷ b'r' ∷ b'v' ∷ b'e' ∷ b'r' ∷ []

abbrev content_type_key : Text
content_type_key =
    b'C' ∷ b'o' ∷ b'n' ∷ b't' ∷ b'e' ∷ b'n' ∷ b't' ∷ b'-' ∷ b't' ∷ b'y' ∷ b'p' ∷ b'e' ∷ []

abbrev text_html : Text
text_html = b't' ∷ b'e' ∷ b'x' ∷ b't' ∷ b'/' ∷ b'h' ∷ b't' ∷ b'm' ∷ b'l' ∷ []

-- The page of NotFoundServlet and the page of HelloServlet, with the server's name.
unfoldable pub not_found_content : Text → Text
not_found_content server_name =
    (b'<' ∷ b'h' ∷ b't' ∷ b'm' ∷ b'l' ∷ b'>' ∷ b'<' ∷ b'h' ∷ b'e' ∷ b'a' ∷ b'd' ∷ b'>' ∷ b'<' ∷ b't'
      ∷ b'i' ∷ b't' ∷ b'l' ∷ b'e' ∷ b'>' ∷ b'4' ∷ b'0' ∷ b'4' ∷ b' ' ∷ b'N' ∷ b'o' ∷ b't' ∷ b' '
      ∷ b'F' ∷ b'o' ∷ b'u' ∷ b'n' ∷ b'd' ∷ b'<' ∷ b'/' ∷ b't' ∷ b'i' ∷ b't' ∷ b'l' ∷ b'e' ∷ b'>'
      ∷ b'<' ∷ b'/' ∷ b'h' ∷ b'e' ∷ b'a' ∷ b'd' ∷ b'>' ∷ b'<' ∷ b'b' ∷ b'o' ∷ b'd' ∷ b'y' ∷ b'>'
      ∷ b'<' ∷ b'c' ∷ b'e' ∷ b'n' ∷ b't' ∷ b'e' ∷ b'r' ∷ b'>' ∷ b'<' ∷ b'h' ∷ b'1' ∷ b'>' ∷ b'4'
      ∷ b'0' ∷ b'4' ∷ b' ' ∷ b'N' ∷ b'o' ∷ b't' ∷ b' ' ∷ b'F' ∷ b'o' ∷ b'u' ∷ b'n' ∷ b'd' ∷ b'<'
      ∷ b'/' ∷ b'h' ∷ b'l' ∷ b'>' ∷ b'<' ∷ b'/' ∷ b'c' ∷ b'e' ∷ b'n' ∷ b't' ∷ b'e' ∷ b'r' ∷ b'>'
      ∷ b'<' ∷ b'h' ∷ b'r' ∷ b'>' ∷ b'<' ∷ b'c' ∷ b'e' ∷ b'n' ∷ b't' ∷ b'e' ∷ b'r' ∷ b'>' ∷ [])
    ++ (server_name
        ++ (b'<' ∷ b'/' ∷ b'c' ∷ b'e' ∷ b'n' ∷ b't' ∷ b'e' ∷ b'r' ∷ b'>' ∷ b'<' ∷ b'/' ∷ b'h' ∷ b'r'
            ∷ b'>' ∷ b'<' ∷ b'/' ∷ b'b' ∷ b'o' ∷ b'd' ∷ b'y' ∷ b'>' ∷ b'<' ∷ b'/' ∷ b'h' ∷ b't'
            ∷ b'm' ∷ b'l' ∷ b'>' ∷ []))

unfoldable pub hello_content : Text → Text
hello_content server_name =
    (b'<' ∷ b'h' ∷ b't' ∷ b'm' ∷ b'l' ∷ b'>' ∷ b'<' ∷ b'h' ∷ b'e' ∷ b'a' ∷ b'd' ∷ b'>' ∷ b'<' ∷ b't'
      ∷ b'i' ∷ b't' ∷ b'l' ∷ b'e' ∷ b'>' ∷ b'4' ∷ b'0' ∷ b'4' ∷ b' ' ∷ b'H' ∷ b'e' ∷ b'l' ∷ b'l'
      ∷ b'o' ∷ b',' ∷ b' ' ∷ b'W' ∷ b'e' ∷ b'l' ∷ b'c' ∷ b'o' ∷ b'm' ∷ b'e' ∷ b' ' ∷ b'm' ∷ b'y'
      ∷ b' ' ∷ b's' ∷ b'e' ∷ b'r' ∷ b'v' ∷ b'e' ∷ b'r' ∷ b'!' ∷ b' ' ∷ b'<' ∷ b'/' ∷ b't' ∷ b'i'
      ∷ b't' ∷ b'l' ∷ b'e' ∷ b'>' ∷ b'<' ∷ b'/' ∷ b'h' ∷ b'e' ∷ b'a' ∷ b'd' ∷ b'>' ∷ b'<' ∷ b'b'
      ∷ b'o' ∷ b'd' ∷ b'y' ∷ b'>' ∷ b'<' ∷ b'c' ∷ b'e' ∷ b'n' ∷ b't' ∷ b'e' ∷ b'r' ∷ b'>' ∷ b'<'
      ∷ b'h' ∷ b'1' ∷ b'>' ∷ b'H' ∷ b'e' ∷ b'l' ∷ b'l' ∷ b'o' ∷ b',' ∷ b' ' ∷ b'W' ∷ b'e' ∷ b'l'
      ∷ b'c' ∷ b'o' ∷ b'm' ∷ b'e' ∷ b' ' ∷ b'm' ∷ b'y' ∷ b' ' ∷ b's' ∷ b'e' ∷ b'r' ∷ b'v' ∷ b'e'
      ∷ b'r' ∷ b'!' ∷ b'<' ∷ b'/' ∷ b'h' ∷ b'l' ∷ b'>' ∷ b'<' ∷ b'/' ∷ b'c' ∷ b'e' ∷ b'n' ∷ b't'
      ∷ b'e' ∷ b'r' ∷ b'>' ∷ b'<' ∷ b'h' ∷ b'r' ∷ b'>' ∷ b'<' ∷ b'c' ∷ b'e' ∷ b'n' ∷ b't' ∷ b'e'
      ∷ b'r' ∷ b'>' ∷ [])
    ++ (server_name
        ++ (b'<' ∷ b'/' ∷ b'c' ∷ b'e' ∷ b'n' ∷ b't' ∷ b'e' ∷ b'r' ∷ b'>' ∷ b'<' ∷ b'/' ∷ b'h' ∷ b'r'
            ∷ b'>' ∷ b'<' ∷ b'/' ∷ b'b' ∷ b'o' ∷ b'd' ∷ b'y' ∷ b'>' ∷ b'<' ∷ b'/' ∷ b'h' ∷ b't'
            ∷ b'm' ∷ b'l' ∷ b'>' ∷ []))

-- The calls that both `handle` functions make, with their own page.
unfoldable pub answer_page : Text → Text → HttpResponse → HttpResponse
answer_page server_name content r =
    let r_1 = record r { status = 404 } in
    let r_2 = set_header server_key server_name r_1 in
    let r_3 = set_header content_type_key text_html r_2 in record r_3 { body = content }

unfoldable pub not_found_handle : Text → HttpResponse → HttpResponse
not_found_handle server_name r = answer_page server_name (not_found_content server_name) r

unfoldable pub hello_handle : Text → HttpResponse → HttpResponse
hello_handle server_name r = answer_page server_name (hello_content server_name) r
