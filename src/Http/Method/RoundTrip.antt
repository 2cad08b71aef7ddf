-- ===== src/Http/Method/RoundTrip.antt =====
-- kit_server/http/http.cpp: methods as texts and back.
use kit_server.Common.{◌≡◌, ◌≢◌, refl, ◌++◌}
use kit_server.Http.Method.{
  Text, HttpMethod, same_text, starts, http_method_to_string, http_method_map, first_method,
  string_to_http_method, chars_to_http_method,
}

-- Each method but the invalid one is found by its text, in StringToHttpMethod and, whatever follows the
-- text in the buffer, in CharsToHttpMethod.
to_http_method-http_method_to_string :
    (m : HttpMethod) (rest : Text)
    → m ≢ HttpMethod.invalid_method
    → (string_to_http_method (http_method_to_string m) ≡ m)
      × (chars_to_http_method (http_method_to_string m ++ rest) ≡ m)
unfolding string_to_http_method chars_to_http_method first_method http_method_map
    http_method_to_string same_text starts
to_http_method-http_method_to_string HttpMethod.delete rest h = (refl, refl)
to_http_method-http_method_to_string HttpMethod.get rest h = (refl, refl)
to_http_method-http_method_to_string HttpMethod.head rest h = (refl, refl)
to_http_method-http_method_to_string HttpMethod.post rest h = (refl, refl)
to_http_method-http_method_to_string HttpMethod.put rest h = (refl, refl)
to_http_method-http_method_to_string HttpMethod.connect rest h = (refl, refl)
to_http_method-http_method_to_string HttpMethod.options rest h = (refl, refl)
to_http_method-http_method_to_string HttpMethod.trace rest h = (refl, refl)
to_http_method-http_method_to_string HttpMethod.copy rest h = (refl, refl)
to_http_method-http_method_to_string HttpMethod.lock rest h = (refl, refl)
to_http_method-http_method_to_string HttpMethod.mkcol rest h = (refl, refl)
to_http_method-http_method_to_string HttpMethod.move rest h = (refl, refl)
to_http_method-http_method_to_string HttpMethod.propfind rest h = (refl, refl)
to_http_method-http_method_to_string HttpMethod.proppatch rest h = (refl, refl)
to_http_method-http_method_to_string HttpMethod.search rest h = (refl, refl)
to_http_method-http_method_to_string HttpMethod.unlock rest h = (refl, refl)
to_http_method-http_method_to_string HttpMethod.bind rest h = (refl, refl)
to_http_method-http_method_to_string HttpMethod.rebind rest h = (refl, refl)
to_http_method-http_method_to_string HttpMethod.unbind rest h = (refl, refl)
to_http_method-http_method_to_string HttpMethod.acl rest h = (refl, refl)
to_http_method-http_method_to_string HttpMethod.report rest h = (refl, refl)
to_http_method-http_method_to_string HttpMethod.mkactivity rest h = (refl, refl)
to_http_method-http_method_to_string HttpMethod.checkout rest h = (refl, refl)
to_http_method-http_method_to_string HttpMethod.merge rest h = (refl, refl)
to_http_method-http_method_to_string HttpMethod.msearch rest h = (refl, refl)
to_http_method-http_method_to_string HttpMethod.notify rest h = (refl, refl)
to_http_method-http_method_to_string HttpMethod.subscribe rest h = (refl, refl)
to_http_method-http_method_to_string HttpMethod.unsubscribe rest h = (refl, refl)
to_http_method-http_method_to_string HttpMethod.patch rest h = (refl, refl)
to_http_method-http_method_to_string HttpMethod.purge rest h = (refl, refl)
to_http_method-http_method_to_string HttpMethod.mkcalendar rest h = (refl, refl)
to_http_method-http_method_to_string HttpMethod.link rest h = (refl, refl)
to_http_method-http_method_to_string HttpMethod.unlink rest h = (refl, refl)
to_http_method-http_method_to_string HttpMethod.source rest h = (refl, refl)
to_http_method-http_method_to_string HttpMethod.ok rest h = (refl, refl)
to_http_method-http_method_to_string HttpMethod.invalid_method rest h = absurd (h refl)
