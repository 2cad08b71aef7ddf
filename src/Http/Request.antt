-- ===== src/Http/Request.antt =====
-- kit_server/http/http.h and http.cpp: class HttpRequest.
pub mod Connection
use kit_server.Common.{
  ℕ, ◌+◌, if◌then◌else◌, List, [], ◌∷◌, ◌++◌, Option, none, some, Bool, true, false,
}
use kit_server.Http.Method.{Text, HttpMethod, http_method_to_string}
use kit_server.Http.Headers.{MapType, find, set, erase, get, check_get_as, get_as}
use kit_server.Http.Lines.{
  same_folded, has_text, marked, cr_lf, connection, keep_alive, connection_state, version_text,
  header_lines, body_text,
}

pub record HttpRequest : Type 0 where
  pub method : HttpMethod
  pub version : ℕ
  pub close : Bool
  pub path : Text
  pub query : Text
  pub fragment : Text
  pub body : Text
  pub headers : MapType
  pub params : MapType
  pub cookies : MapType

unfoldable pub new_request : ℕ → Bool → HttpRequest
new_request version close = record {
  method = HttpMethod.get;
  version = version;
  close = close;
  path = b'/' ∷ [];
  query = [];
  fragment = [];
  body = [];
  headers = [];
  params = [];
  cookies = [];
}

unfoldable pub set_header : Text → Text → HttpRequest → HttpRequest
set_header key val r = record r { headers = set key val (r.headers) }

unfoldable pub get_header : Text → Text → HttpRequest → Text
get_header key def r = get key def (r.headers)

unfoldable pub del_header : Text → HttpRequest → HttpRequest
del_header key r = record r { headers = erase key (r.headers) }

-- Whether it is there, with the text for `val`.
unfoldable pub has_header : Text → HttpRequest → Option Text
has_header key r = find key (r.headers)

unfoldable pub set_param : Text → Text → HttpRequest → HttpRequest
set_param key val r = record r { params = set key val (r.params) }

unfoldable pub get_param : Text → Text → HttpRequest → Text
get_param key def r = get key def (r.params)

unfoldable pub del_param : Text → HttpRequest → HttpRequest
del_param key r = record r { params = erase key (r.params) }

-- Whether it is there, with the text for `val`.
unfoldable pub has_param : Text → HttpRequest → Option Text
has_param key r = find key (r.params)

unfoldable pub set_cookie : Text → Text → HttpRequest → HttpRequest
set_cookie key val r = record r { cookies = set key val (r.cookies) }

unfoldable pub get_cookie : Text → Text → HttpRequest → Text
get_cookie key def r = get key def (r.cookies)

unfoldable pub del_cookie : Text → HttpRequest → HttpRequest
del_cookie key r = record r { cookies = erase key (r.cookies) }

-- Whether it is there, with the text for `val`.
unfoldable pub has_cookie : Text → HttpRequest → Option Text
has_cookie key r = find key (r.cookies)

-- The cast is that of `boost::lexical_cast`. The cookies' functions read the parameters, as written.
module _ {ℓ} {T : Type ℓ} (lexical_cast : Text → Option T) where
  unfoldable pub check_get_header_as : Text → T → HttpRequest → T × Bool
  check_get_header_as key def r = check_get_as lexical_cast key def (r.headers)

  unfoldable pub get_header_as : Text → T → HttpRequest → T
  get_header_as key def r = get_as lexical_cast key def (r.headers)

  unfoldable pub check_get_param_as : Text → T → HttpRequest → T × Bool
  check_get_param_as key def r = check_get_as lexical_cast key def (r.params)

  unfoldable pub get_param_as : Text → T → HttpRequest → T
  get_param_as key def r = get_as lexical_cast key def (r.params)

  unfoldable pub check_get_cookie_as : Text → T → HttpRequest → T × Bool
  check_get_cookie_as key def r = check_get_as lexical_cast key def (r.params)

  unfoldable pub get_cookie_as : Text → T → HttpRequest → T
  get_cookie_as key def r = get_as lexical_cast key def (r.params)

-- The text of a request, which `toString` and `operator<<` write too.
unfoldable pub dump : HttpRequest → Text
dump r =
    http_method_to_string (r.method)
    ++ (b' ' ∷ r.path
        ++ (marked b'?' (r.query)
            ++ (marked b'#' (r.fragment)
                ++ (b' ' ∷ b'H' ∷ b'T' ∷ b'T' ∷ b'P' ∷ b'/' ∷ version_text (r.version)
                    ++ (cr_lf
                        ++ (connection
                            ++ (b':' ∷ connection_state (r.close)
                                ++ (cr_lf
                                    ++ (header_lines (r.headers) ++ body_text (r.body))))))))))

unfoldable pub init : HttpRequest → HttpRequest
init r =
    let state = get_header connection [] r in
    if has_text state
    then record r { close = if same_folded state keep_alive then false else true }
    else r
