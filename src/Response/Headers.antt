-- ===== src/Response/Headers.antt =====
-- The texts that the server sends before a body, and those of its errors: `getHttpHeader`,
-- `getHttpWebSocketHeader`, the error messages and `generateWebSocketServerKey` (src/WebServer.cc).
pub mod Messages
pub mod Reading
pub mod RoundTrip
pub mod Lines
use libnavajo.Base.{
  ℕ, Bool, true, false, not, List, [], ◌∷◌, ◌++◌, Option, none, some, ◌==◌, if◌then◌else◌, Bytes,
  codes, map, starts_with, length,
}
use libnavajo.Base64.{base64_encode}
use libnavajo.Server.Text.Numbers.{size_text}
use libnavajo.Response.{HttpResponse}

abbrev pub crlf : Bytes
crlf = b'\r' ∷ b'\n' ∷ []

-- Lines with their ends.
abbrev pub lines_text : List Bytes → Bytes
lines_text [] = []
lines_text (l ∷ ls) = l ++ (crlf ++ lines_text ls)

abbrev pub line_if : Bool → Bytes → List Bytes
line_if b l = if b then l ∷ [] else []

-- What the clock and the settings give: the `Date` line, and the line with the server's name.
pub record Surroundings : Type 0 where
  pub date : Bytes
  pub web_server_name : Bytes

abbrev pub status_lines : Surroundings → Bytes → List Bytes
status_lines e message_type = (codes "HTTP/1.1 " ++ message_type) ∷ e.date ∷ e.web_server_name ∷ []

-- The line for a client that is not authorised, with the additional text for tokens.
abbrev pub challenge : Option Bytes → Bytes
challenge none =
    codes "WWW-Authenticate: Basic realm=\"Restricted area: please enter Login/Password\""
challenge (some more) = codes "WWW-Authenticate: Bearer " ++ more

abbrev pub cors_lines : HttpResponse → List Bytes
cors_lines r =
    if r.cors
    then (codes "Access-Control-Allow-Origin: " ++ r.cors_domain)
      ∷ (codes "Access-Control-Allow-Credentials: "
          ++ (if r.cors_cred then codes "true" else codes "false"))
      ∷ []
    else []

-- What a response adds: the lines for other sites, its own headers and its cookies.
abbrev pub response_text : Option HttpResponse → Bytes
response_text none = []
response_text (some r) =
    lines_text (cors_lines r)
    ++ (r.http_specific_headers
        ++ lines_text (map (λ cookie. codes "Set-Cookie: " ++ cookie) r.response_cookies))

abbrev pub mime_of : Option HttpResponse → Bytes
mime_of none = codes "text/html"
mime_of (some r) = r.mime_type

abbrev pub connection_line : Bool → Bytes
connection_line keep_alive =
    if keep_alive then codes "Connection: Keep-Alive" else codes "Connection: close"

abbrev pub last_lines : ℕ → Bool → Bool → Option HttpResponse → List Bytes
last_lines len keep_alive zipped response =
    codes "Accept-Ranges: bytes"
    ∷ connection_line keep_alive
    ∷ (codes "Content-Type: " ++ mime_of response)
    ∷ (line_if zipped (codes "Content-Encoding: gzip")
        ++ line_if (not (len == 0)) (codes "Content-Length: " ++ size_text len))

-- `getHttpHeader`
unfoldable pub get_http_header :
    Surroundings → Bytes → ℕ → Bool → Option Bytes → Bool → Option HttpResponse → Bytes
get_http_header e message_type len keep_alive bearer zipped response =
    lines_text (status_lines e message_type)
    ++ (lines_text (line_if (starts_with (codes "401") message_type) (challenge bearer))
        ++ (response_text response
            ++ (lines_text (last_lines len keep_alive zipped response) ++ crlf)))

-- `SHA1`, of OpenSSL, is a parameter: the bytes of the digest.
abbrev pub web_socket_magic_string : Bytes
web_socket_magic_string = codes "258EAFA5-E914-47DA-95CA-C5AB0DC85B11"

unfoldable pub generate_web_socket_server_key : (Bytes → Bytes) → Bytes → Bytes
unfolding base64_encode
generate_web_socket_server_key sha1 web_socket_key =
    base64_encode (sha1 (web_socket_key ++ web_socket_magic_string))

-- `getHttpWebSocketHeader`
unfoldable pub get_http_web_socket_header :
    (Bytes → Bytes) → Surroundings → Bytes → Bytes → Bool → Bytes
unfolding generate_web_socket_server_key
get_http_web_socket_header sha1 e message_type client_key deflate =
    lines_text (
      (codes "HTTP/1.1 " ++ message_type)
      ∷ codes "Upgrade: websocket"
      ∷ codes "Connection: Upgrade"
      ∷ e.date
      ∷ e.web_server_name
      ∷ (codes "Sec-WebSocket-Accept: " ++ generate_web_socket_server_key sha1 client_key)
      ∷ line_if deflate (codes "Sec-WebSocket-Extensions: permessage-deflate"))
    ++ crlf
