-- ===== src/Server/Answering.antt =====
-- The choice of the answer in `WebServer::accept_request` (src/WebServer.cc), once the header of a
-- request is read.
pub mod Looking
pub mod Encodings
pub mod Connections
pub mod Releases
pub mod Handling
mod Tests
use libnavajo.Base.{
  ℕ, ◌+◌, ◌-◌, ◌^◌, ◌%◌, Bool, true, false, not, ◌&&◌, ◌||◌, List, [], ◌∷◌, ◌++◌, Option, none,
  some, ◌==◌, ltb, if◌then◌else◌, Bytes, codes, bytes_eq, length, take, starts_with,
}
use libnavajo.Response.{HttpResponse, new_response, get_http_return_code_str}
use libnavajo.Response.MimeTypes.{get_mime_type}
use libnavajo.Response.Headers.{Surroundings, get_http_header, get_http_web_socket_header}
use libnavajo.Response.Headers.Messages.{
  get_not_found_error_msg, get_internal_server_error_msg, get_not_implemented_error_msg,
}
use libnavajo.Server.Text.{is_some}
use libnavajo.Server.Request.Url.{is_get, is_unknown, resource_of}
use libnavajo.Server.Request.Line.{Reading}
use libnavajo.Server.Request.Body.{Content, or_nothing}
use libnavajo.Server.Answering.Looking.{Repository, Search, found, not_found, stands_still, search}

-- The checks on the header of a request; `auth_resp_header` is what `isTokenAllowed` left. The text of
-- the first one that fails is sent.
abbrev pub unless_empty : Bytes → Option Bytes
unless_empty [] = none
unless_empty (c ∷ s) = some (c ∷ s)

abbrev pub is_handshake : Reading → Bool
is_handshake r =
    is_get r.request_method && is_some r.web_socket_client_key && r.web_socket_version == 13

unfoldable pub check_request : Surroundings → Bytes → Reading → Option Bytes
unfolding get_http_header get_not_implemented_error_msg
check_request e auth_resp_header r =
    if not r.auth_ok
    then some (
        get_http_header e (codes "401 Authorization Required") 0 false
          (unless_empty auth_resp_header) false none)
    else if is_unknown r.request_method
    then some (get_not_implemented_error_msg e)
    else if r.websocket && not (is_handshake r)
    then some (get_http_header e (codes "400 Bad Request") 0 false none false none)
    else none

-- The count of the queries of a connection, which is a `size_t`.
pub record KeepAlive : Type 0 where
  pub keep_alive : Bool
  pub closing : Bool
  pub nb_file_keep_alive : ℕ

abbrev pub keepalive_max_nb_query : ℕ
keepalive_max_nb_query = 25

unfoldable pub count_query : KeepAlive → KeepAlive
count_query k =
    let left = (k.nb_file_keep_alive + (2 ^ 64 - 1)) % 2 ^ 64 in
    if not k.keep_alive
    then k
    else if left == 0
    then record { keep_alive = false; closing = true; nb_file_keep_alive = left }
    else record k { nb_file_keep_alive = left }

-- The condition of the loop over the requests, where the server is not exiting.
abbrev pub goes_on : KeepAlive → Bool
goes_on k = k.keep_alive && not k.closing

-- The plain text of a benchmark.
unfoldable pub plaintext_answer : KeepAlive → Bytes
plaintext_answer k =
    (codes "HTTP/1.1 200 OK\r\nServer: libNavajo/1.6.0\r\nConnection: "
      ++ (if k.keep_alive then codes "Keep-Alive" else codes "close"))
    ++ codes "\r\nContent-Type: text/plain\r\nContent-Length: 13\r\n\r\nHello, World!"

-- `nvj_gzip` and `nvj_gunzip`; none for a negative size or an exception.
pub record Compression : Type 0 where
  pub gzip : Bytes → Option Bytes
  pub gunzip : Bytes → Option Bytes

-- What is sent for the page: as it is, zipped, or not at all.
pub data Body : Type 0 where
  failed : Body
  as_it_is : Bytes → Body
  zipped_as : Bytes → Body

abbrev pub unzipped : Option Bytes → Body
unzipped none = failed
unzipped (some page) = as_it_is page

-- A page that zipping makes longer is sent as it is.
abbrev pub zipped_or : Bytes → Option Bytes → Body
zipped_or page none = failed
zipped_or page (some small) =
    if ltb (length page) (length small) || length small == 0 then as_it_is page else zipped_as small

abbrev pub is_worth_zipping : Bytes → Bytes → Bool
is_worth_zipping mime page =
    ltb 2048 (length page)
    && (starts_with (codes "application") mime || starts_with (codes "text") mime)

-- The first flag says that the client takes gzip, the second that the page is zipped.
unfoldable pub choose_body : Compression → Bool → Bytes → Bool → Bytes → Body
choose_body z client mime zipped_file page =
    if not client && zipped_file
    then unzipped (z.gunzip page)
    else if not zipped_file && client && is_worth_zipping mime page
    then zipped_or page (z.gzip page)
    else if zipped_file
    then zipped_as page
    else as_it_is page

-- What a request comes to: a text that is sent before the connection ends, an end without a text, an
-- upgrade, a header and a body with the count that is left, a loop without an end, more forwards than
-- there are, or an exception that is not caught.
pub data Answer : Type 0 where
  ends : Bytes → Answer
  ends_silently : Answer
  upgrades : Bytes → Answer
  sends : Bytes → Bytes → KeepAlive → Answer
  never out_of_forwards : Answer
  dies : Answer

abbrev pub send_page : Surroundings → KeepAlive → HttpResponse → Bool → Bytes → Answer
send_page e k r zipped body =
    sends
      (get_http_header e (get_http_return_code_str r).0 (length body) k.keep_alive none zipped
        (some r))
      body k

abbrev pub send_body : Surroundings → KeepAlive → HttpResponse → Body → Answer
send_body e k r failed = ends (get_internal_server_error_msg e)
send_body e k r (as_it_is page) = send_page e (count_query k) r false page
send_body e k r (zipped_as page) = send_page e (count_query k) r true page

abbrev pub no_content : Surroundings → HttpResponse → Answer
no_content e r = ends (get_http_header e (get_http_return_code_str r).0 0 false none false none)

-- The page of a response, if it has one and its length is not 0. Sizes are below 2 ^ 31.
abbrev pub page_of : Option Bytes → ℕ → Option Bytes
page_of none n = none
page_of (some webpage) n = if n == 0 then none else some (take n webpage)

abbrev pub answer_with :
    Compression → Surroundings → Bool → KeepAlive → HttpResponse → Option Bytes → Answer
answer_with z e client k r none = no_content e r
answer_with z e client k r (some page) =
    send_body e k r (choose_body z client r.mime_type r.zipped_file page)

-- The answer with a response that was found.
unfoldable pub answer_page : Compression → Surroundings → Bool → KeepAlive → HttpResponse → Answer
unfolding choose_body count_query get_http_header get_http_return_code_str
    get_internal_server_error_msg
answer_page z e client k r =
    answer_with z e client k r (page_of r.response_content r.response_content_length)

abbrev pub answer_search : Compression → Surroundings → Bool → KeepAlive → Option Search → Answer
answer_search z e client k none = out_of_forwards
answer_search z e client k (some stands_still) = never
answer_search z e client k (some not_found) = ends (get_not_found_error_msg e)
answer_search z e client k (some (found i r)) = answer_page z e client k r

-- The server as a request meets it; what a repository answers depends on the request.
pub record Site : Type 0 where
  pub compression : Compression
  pub surroundings : Surroundings
  pub sha1 : Bytes → Bytes
  pub web_socket_end_points : List Bytes
  pub web_repositories : Reading → Content → List (Option Repository)

-- An endpoint is looked for by its name. The client's compression is never `ZLIB` here.
unfoldable pub has_end_point : Bytes → List Bytes → Bool
unfolding bytes_eq
has_end_point url [] = false
has_end_point url (name ∷ names) = bytes_eq url name || has_end_point url names

abbrev pub answer_web_socket : Site → Bytes → Bytes → Answer
answer_web_socket site key url =
    if has_end_point url site.web_socket_end_points
    then upgrades (
        get_http_web_socket_header site.sha1 site.surroundings (codes "101 Switching Protocols") key
          false)
    else ends (get_not_found_error_msg site.surroundings)

-- The answer once the content is read; `forwards` is the fuel for forwards.
abbrev pub answer_content : Site → ℕ → Bytes → KeepAlive → Reading → Content → Answer
answer_content site forwards url k r content =
    if r.websocket
    then answer_web_socket site (or_nothing r.web_socket_client_key) url
    else answer_search site.compression site.surroundings r.gzip k (
        search forwards (site.web_repositories r content) url
          (new_response (or_nothing (get_mime_type url))))

-- The request of a benchmark, which is answered before its content is read.
abbrev pub is_plaintext : Bytes → Reading → Bool
is_plaintext url r = is_get r.request_method && bytes_eq url (codes "plaintext")

-- The answer to a request that passed the checks; none for a content that is cut off.
abbrev pub answer_unless_cut : Site → ℕ → Bytes → KeepAlive → Reading → Option Content → Answer
answer_unless_cut site forwards url k r none = ends_silently
answer_unless_cut site forwards url k r (some content) =
    answer_content site forwards url k r content

unfoldable pub answer_checked : Site → ℕ → Option Content → Bytes → KeepAlive → Reading → Answer
unfolding answer_page plaintext_answer count_query get_not_found_error_msg has_end_point
answer_checked site forwards content url k r =
    if is_plaintext url r
    then sends (plaintext_answer (count_query k)) [] (count_query k)
    else answer_unless_cut site forwards url k r content

-- The resource that a request asks for, and the count with which it comes.
abbrev pub resource : Reading → Bytes
resource r = resource_of (or_nothing r.url_buffer)

abbrev pub count_of : ℕ → Reading → KeepAlive
count_of left r = record {
  keep_alive = r.keep_alive;
  closing = r.closing;
  nb_file_keep_alive = left;
}
