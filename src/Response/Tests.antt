-- ===== src/Response/Tests.antt =====
-- Tests and witnesses for responses (include/libnavajo/HttpResponse.hh, src/WebServer.cc).
use libnavajo.Base.{
  ℕ, suc, ◌≡◌, ◌≢◌, refl, Bool, true, false, List, [], ◌∷◌, ◌++◌, Option, some, none, Bytes, codes,
  length, arith,
}
use libnavajo.Response.{
  HttpResponse, new_response, set_cors, add_specific_header, add_cookie, add_session_cookie,
  cookie_entry, get_http_return_code_str,
}
use libnavajo.Response.Status.{content, code, status_calls, get_http_return_code_str-status_of}
use libnavajo.Response.MimeTypes.{get_mime_type}
use libnavajo.Response.Headers.{
  Surroundings, get_http_header, generate_web_socket_server_key, get_http_web_socket_header,
}
use libnavajo.Response.Headers.Reading.{client_reads}
use libnavajo.Response.Headers.RoundTrip.{client_reads-get_http_header}
use libnavajo.Response.Headers.Lines.{header_lines}

upper_case : get_mime_type (codes "a.b.HTM") ≡ some (codes "text/html")
unfolding get_mime_type
upper_case = refl

-- The fifth byte is the last that counts.
long_extension : get_mime_type (codes "page.htmlx") ≡ some (codes "text/html")
unfolding get_mime_type
long_extension = refl

session_cookie :
    (add_session_cookie (λ t. codes "never") 1200 (codes "abc") (new_response [])).response_cookies
    ≡ codes "SID=abc; Max-Age=1200; HttpOnly" ∷ []
unfolding cookie_entry new_response libnavajo.Server.Text.Numbers.size_text libnavajo.Base.bytes_eq
session_cookie = refl

get_http_return_code_str-status_of_example :
    (get_http_return_code_str (
      status_calls
        (content (some (codes "a")) 1 ∷ code 404 ∷ content none 0 ∷ [])
        (new_response []))).0
    ≡ codes "404 Not Found"
unfolding new_response libnavajo.Server.Text.Numbers.size_text
    libnavajo.Response.ReturnCodes.message_of
get_http_return_code_str-status_of_example =
    get_http_return_code_str-status_of
      (content (some (codes "a")) 1 ∷ code 404 ∷ content none 0 ∷ []) (new_response [])
      (tt, (refl, (tt, tt))) refl

abbrev surroundings : Surroundings
surroundings = record { date = codes "Date: d"; web_server_name = codes "Server: s" }

abbrev response : HttpResponse
response = add_specific_header (codes "X: y") (new_response (codes "text/plain"))

client_reads-get_http_header_example :
    client_reads
      (suc (
        length (
          header_lines surroundings
            (codes "200 OK")
            2
            true
            none
            false
            (some response)
            (codes "X: y" ∷ []))))
      (get_http_header surroundings (codes "200 OK") 2 true none false (some response)
        ++ codes "hi")
    ≡ some (
      header_lines surroundings
          (codes "200 OK")
          2
          true
          none
          false
          (some response)
          (codes "X: y" ∷ []),
      codes "hi",
    )
unfolding new_response libnavajo.Response.Headers.Reading.no_cr
client_reads-get_http_header_example =
    client_reads-get_http_header surroundings (codes "200 OK") 2 true none false (some response)
      (codes "X: y" ∷ []) (codes "hi") refl
      (record {
        date = (omega arith, refl);
        name = (omega arith, refl);
        status = refl;
        more = tt;
        answer = (refl, refl, tt);
        own = ((omega arith, refl), tt);
      })
