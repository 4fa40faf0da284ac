-- ===== src/Server/Tests.antt =====
-- Tests and witnesses for the web server (src/WebServer.cc).
use libnavajo.Base.{
  ℕ, ◌+◌, ◌<◌, ◌≤◌, ◌≡◌, refl, Bool, true, false, ◌||◌, List, [], ◌∷◌, ◌++◌, Option, some, none,
  Bytes, codes, arith, length, lookup, false≢true,
}
use libnavajo.Auth.{TokenCallbacks}
use libnavajo.Auth.Users.{IsTrusted}
use libnavajo.Server.Text.{trim, add_extra_header}
use libnavajo.Server.Text.Numbers.{size_text, atoi, size_of_int}
use libnavajo.Server.Stream.Reads.{
  Connection, line, body, read_calls, stream_reads, stream_of, Serves, read_calls-stream_reads,
}
use libnavajo.Server.Request.Url.{resource_of, url_written, url_allocated}
use libnavajo.Request.Client.{get_method}
use libnavajo.Server.Request.Url.Bounds.{url_written_within, url_written_beyond}
use libnavajo.Server.Request.Line.{AuthSettings, Reading, begin_request, read_basic}
use libnavajo.Server.Request.Headers.{
  HeaderEnd, complete, closed, uncaught, Moment, read_headers, parse_headers,
}
use libnavajo.Server.Request.Body.{Content, read_content, finished}
use libnavajo.Server.Request.Body.Payload.{GivesContent}
use libnavajo.Server.Request.Body.Ends.{read_content-content_end}
use libnavajo.Server.Sending.{sends, interrupted, blocked, http_send, http_send2}
use libnavajo.Server.Sending.Answers.{Sends, http_send2-Sends}
use libnavajo.Server.Request.Headers.Streams.{EndAlike, read_headers-parse_headers}
use libnavajo.Server.Request.Headers.Credentials.{any_good}
use libnavajo.Server.Request.Headers.Authorisation.{lines_of, read_headers-Authorised}

trims : trim (codes " \tab c \r") ≡ codes "ab c"
unfolding trim
trims = refl

-- The value of a header may have colons in it.
host_with_port : add_extra_header (codes "Host: a:80") [] ≡ (codes "Host", codes "a:80") ∷ []
unfolding add_extra_header libnavajo.Base.insert
host_with_port = refl

negative_length : size_of_int (atoi (codes "-1")) ≡ 18446744073709551615
unfolding atoi
negative_length = refl

size_text-runs : size_text 1200 ≡ codes "1200"
unfolding size_text
size_text-runs = refl

default_page : resource_of (codes "a%20b/") ≡ codes "a b/index.html"
unfolding resource_of
default_page = refl

-- Two lines and a body, cut into pieces in the midst of each.
abbrev pieces : List Bytes
pieces = codes "GE" ∷ codes "T\nab" ∷ codes "c\nde" ∷ codes "fg" ∷ []

abbrev socket : Connection
socket = record { buffers = λ c. []; coming = pieces }

read_calls-stream_reads_example :
    Serves 3 socket
      (codes "GET\n" ∷ codes "abc\n" ∷ codes "def" ∷ [])
      (codes "g")
      (read_calls 3 (line 9 ∷ line 9 ∷ body 3 ∷ []) socket)
read_calls-stream_reads_example =
    read_calls-stream_reads 3 (line 9 ∷ line 9 ∷ body 3 ∷ []) socket
      (omega arith, (omega arith, (tt, tt)))
      (omega arith, (omega arith, (omega arith, (omega arith, tt))))

url_written_within_example : url_written (codes "/ab c") ≤ url_allocated (codes "/ab c")
url_written_within_example =
    url_written_within 32 (codes "/ab") (codes "c") refl
      ((refl, refl), ((refl, refl), ((refl, refl), tt)))

url_written_beyond_example :
    url_allocated (codes "ab" ++ (0 ∷ codes "c")) < url_written (codes "ab" ++ (0 ∷ codes "c"))
url_written_beyond_example =
    url_written_beyond b'a' (codes "b") (codes "c") ((refl, refl), ((refl, refl), tt)) refl
      (omega arith)

-- A server with one login, a=b, and no tokens.
abbrev no_callbacks : TokenCallbacks
no_callbacks = record { decodes = λ t. none; expiration_of = λ t. 0; scopes_check = none }

abbrev one_login : AuthSettings
one_login = record {
  auth_login_pwd_list = codes "a:b" ∷ [];
  auth_bearer_enabled = false;
  callbacks = no_callbacks;
}

abbrev moments : ℕ → Moment
moments k = record { now = 7; exiting = false }

abbrev start : Reading
start = begin_request (record {
  request_method = get_method;
  url_buffer = none;
  request_params = none;
  request_cookies = none;
  request_origin = none;
  request_extra_headers = [];
  mime_type = [];
  request_content_length = 0;
  urlencoded_form = false;
  multipart_content = none;
  web_socket_client_key = none;
  websocket = false;
  web_socket_version = 0;
  username = [];
  keep_alive = false;
  closing = false;
  gzip = false;
  auth_ok = false;
  users_auth_history = [];
  tokens_auth_history = [];
})

abbrev request_text : Bytes
request_text = codes "GET / HTTP/1.1\r\nAuthorization: Basic YTpi\r\n\r\nrest"

abbrev request : Connection
request = record {
  buffers = λ c. [];
  coming = codes "GET / HT" ∷ codes "TP/1.1\r\nAuthorization: Basic YTpi\r\n\r\nrest" ∷ [];
}

read_headers-parse_headers_example :
    EndAlike 3
      (read_headers 60 3 one_login moments 0 start request)
      (parse_headers 60 one_login moments 0 start request_text)
read_headers-parse_headers_example =
    read_headers-parse_headers 60 3 one_login moments 0 start request
      (omega arith, (omega arith, tt)) (omega arith)

abbrev reading_of : Option (HeaderEnd × Connection) → Reading
reading_of (some (complete r, c)) = r
reading_of (some (closed, c)) = start
reading_of (some (uncaught, c)) = start
reading_of none = start

abbrev connection_of : Option (HeaderEnd × Connection) → Connection
connection_of none = request
connection_of (some (e, c)) = c

run : Option (HeaderEnd × Connection)
run = read_headers 60 3 one_login moments 0 start request

run-complete :
    read_headers 60 3 one_login moments 0 start request
    ≡ some (complete (reading_of run), connection_of run)
unfolding run read_headers libnavajo.Server.Stream.Reads.read_call libnavajo.Server.Stream.recv_line
    libnavajo.Base.find_byte libnavajo.Server.Stream.recv libnavajo.Base.starts_with
    libnavajo.Server.Text.starts_with_nocase begin_request
run-complete = refl

empty-IsTrusted : IsTrusted (codes "a:b" ∷ []) []
unfolding lookup
empty-IsTrusted p t f = let g : false ≡ true = cc in absurd (false≢true g)

read_headers-Authorised_example :
    ((reading_of run).auth_ok
      ≡ false || any_good (codes "a:b" ∷ []) (lines_of 60 moments 0 request_text))
    × IsTrusted (codes "a:b" ∷ []) (reading_of run).users_auth_history
unfolding begin_request
read_headers-Authorised_example =
    read_headers-Authorised 60 3 one_login moments 0 start request (reading_of run)
      (connection_of run) (omega arith, (omega arith, tt)) (omega arith) refl empty-IsTrusted
      run-complete

abbrev no_content : Content
no_content = record { request_params = none; payload = []; parser = none }

read_content-content_end_example :
    GivesContent 3
      (finished (record no_content { payload = codes "GET\nabc" }))
      (codes "\ndefg")
      (read_content 9 3 (λ p. true) (λ n. true) false 7 0 no_content socket)
read_content-content_end_example =
    read_content-content_end 3 (λ p. true) (λ n. true) 7 9 no_content socket
      (omega arith, (omega arith, (omega arith, (omega arith, tt)))) refl refl (omega arith)

-- An interruption ends the sending: it is not tried again.
interrupted_once :
    http_send 3 (sends 2 ∷ interrupted ∷ sends 2 ∷ []) (codes "abcd")
    ≡ some (record { result = false; bytes = codes "ab"; coming = sends 2 ∷ [] })
unfolding http_send
interrupted_once = refl

http_send2-Sends_example : Sends (codes "hea" ++ codes "bo") (
    http_send2 3
      (sends 2 ∷ blocked (some (some 1)) ∷ sends 4 ∷ sends 1 ∷ sends 1 ∷ sends 1 ∷ [])
      (codes "hea")
      (codes "bo"))
http_send2-Sends_example =
    http_send2-Sends 3
      (sends 2 ∷ blocked (some (some 1)) ∷ sends 4 ∷ sends 1 ∷ sends 1 ∷ sends 1 ∷ []) (codes "hea")
      (codes "bo") refl
      (omega arith, (omega arith, (omega arith, (omega arith, (omega arith, (omega arith, tt))))))
      (omega arith) (omega arith) (omega arith)

-- Credentials are not looked at again on a connection that is authorised, though the name is forgotten
-- with each request.
second_request_without_name :
    (read_basic one_login 0
      (codes "YTpi\r\n")
      (begin_request (record start { auth_ok = true }))).username
    ≡ []
unfolding read_basic begin_request
second_request_without_name = refl
