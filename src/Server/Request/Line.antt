-- ===== src/Server/Request/Line.antt =====
-- One line of a request's header in `WebServer::accept_request` (src/WebServer.cc).
use libnavajo.Base.{
  ℕ, ◌-◌, ◌^◌, Bool, true, false, ◌&&◌, ◌||◌, List, [], ◌∷◌, ◌++◌, Option, none, some, ◌==◌,
  if◌then◌else◌, Bytes, codes, length, take, drop, min, find_byte, starts_with,
}
use libnavajo.Auth.{History, TokenCallbacks, is_user_allowed, is_token_allowed}
use libnavajo.Request.Parameters.{ParametersMap}
use libnavajo.Server.Text.{c_str, ltrim, add_extra_header, starts_with_nocase, has_text}
use libnavajo.Server.Text.Numbers.{atoi, size_of_int}
use libnavajo.Request.Client.{HttpRequestMethod, unknown_method}
use libnavajo.Server.Request.Url.{buf_size, is_unknown, method_of, RequestLine, read_request_line}

-- What the server asks of its clients.
pub record AuthSettings : Type 0 where
  pub auth_login_pwd_list : List Bytes
  pub auth_bearer_enabled : Bool
  pub callbacks : TokenCallbacks

-- The variables of the loop over the header's lines, with the histories. `content_length` is a
-- `size_t` and `web_socket_version` the bits of an `int`; a null pointer is `none`.
pub record Reading : Type 0 where
  pub request_method : HttpRequestMethod
  pub url_buffer : Option Bytes
  pub request_params : Option Bytes
  pub request_cookies : Option Bytes
  pub request_origin : Option Bytes
  pub request_extra_headers : ParametersMap
  pub mime_type : Bytes
  pub request_content_length : ℕ
  pub urlencoded_form : Bool
  pub multipart_content : Option Bytes
  pub web_socket_client_key : Option Bytes
  pub websocket : Bool
  pub web_socket_version : ℕ
  pub username : Bytes
  pub keep_alive : Bool
  pub closing : Bool
  pub gzip : Bool
  pub auth_ok : Bool
  pub users_auth_history : History Bytes
  pub tokens_auth_history : History Bytes

-- The initialisation at the head of the request loop: the authorisation and the histories stay.
unfoldable pub begin_request : Reading → Reading
begin_request r = record {
  request_method = unknown_method;
  url_buffer = none;
  request_params = none;
  request_cookies = none;
  request_origin = none;
  request_extra_headers = [];
  mime_type = [];
  request_content_length = 0;
  urlencoded_form = false;
  multipart_content = none;
  web_socket_client_key = none;
  websocket = false;
  web_socket_version = 2 ^ 32 - 1;
  username = [];
  keep_alive = false;
  closing = false;
  gzip = false;
  auth_ok = r.auth_ok;
  users_auth_history = r.users_auth_history;
  tokens_auth_history = r.tokens_auth_history;
}

-- `authOK` before the first request.
unfoldable pub authorised_at_start : AuthSettings → Bool
authorised_at_start a = if a.auth_bearer_enabled then false else length a.auth_login_pwd_list == 0

-- What a line comes to. The constructor of `std::string` from the null `urlBuffer` throws.
pub data LineEnd : Type 0 where
  reads : Reading → LineEnd
  throws : LineEnd

-- The loop that collects credentials: up to the end of the line.
unfoldable pub until_eol : Bytes → Bytes
until_eol [] = []
until_eol (c ∷ s) = if c == 0x0d || c == 0x0a then [] else c ∷ until_eol s

abbrev pub or_kept : Option Bytes → Bytes → Bytes
or_kept none old = old
or_kept (some new) old = new

abbrev pub or_kept_flag : Option Bool → Bool → Bool
or_kept_flag none old = old
or_kept_flag (some new) old = new

-- `Authorization: Basic `
unfoldable pub read_basic : AuthSettings → ℕ → Bytes → Reading → Reading
unfolding until_eol
read_basic a t l r =
    let answer = is_user_allowed a.auth_login_pwd_list t (until_eol l) r.users_auth_history in
    if r.auth_ok then r else record r {
      auth_ok = answer.allowed;
      username = or_kept answer.login r.username;
      users_auth_history = answer.history;
    }

-- `Authorization: Bearer `
abbrev pub token_read : Reading → Bool × History Bytes → LineEnd
token_read r (ok, h) = reads (record r { auth_ok = ok; tokens_auth_history = h })

unfoldable pub read_bearer : AuthSettings → ℕ → Bytes → Reading → LineEnd
unfolding until_eol
read_bearer a t l r =
    if a.auth_bearer_enabled
    then (elim r.url_buffer [
      | none ↦ throws
      | some url ↦
          token_read r (is_token_allowed a.callbacks t (until_eol l) url r.tokens_auth_history)
    ])
    else reads r

-- `Connection: `
unfoldable pub read_connection : Bytes → Reading → Reading
read_connection l r =
    if has_text (codes "pgrade") l
    then record r { websocket = true }
    else (if has_text (codes "lose") l
        then record r { closing = true }
        else (if has_text (codes "eep-") l && has_text (codes "live") (drop 4 l)
            then record r { keep_alive = true }
            else r))

-- `Content-Type: `
abbrev pub type_length : Option ℕ → Bytes → ℕ
type_length none l = min 63 (length l)
type_length (some sep) l = min 63 sep

unfoldable pub read_content_type : Bytes → Reading → Reading
read_content_type l r =
    let mime = take (type_length (find_byte b';' l) l) l in
    if starts_with_nocase (codes "application/x-www-form-urlencoded") mime
    then record r { mime_type = mime; urlencoded_form = true }
    else (if starts_with_nocase (codes "multipart/form-data") mime
        then record r { mime_type = mime; multipart_content = some l }
        else record r { mime_type = mime })

-- What follows the method of a request line.
abbrev pub put_request_line : HttpRequestMethod → RequestLine → Reading → Reading
put_request_line method line r = record r {
  request_method = method;
  url_buffer = some line.url;
  request_params = elim line.query [ none ↦ r.request_params | some q ↦ some q ];
  keep_alive = or_kept_flag line.keep_alive r.keep_alive;
}

-- `authBearerStr` is looked for where the request line or the method search has stopped.
abbrev pub bearer_str : Bytes
bearer_str = codes "Authorization: Bearer "

abbrev pub then_bearer : AuthSettings → ℕ → Bytes → Reading → LineEnd
then_bearer a t l r = if starts_with bearer_str l then read_bearer a t (drop 22 l) r else reads r

-- A line that is none of the headers above: a further header, and a request line if it begins with
-- a method.
unfoldable pub read_other : AuthSettings → ℕ → Bytes → Reading → LineEnd
unfolding method_of read_request_line read_bearer add_extra_header
read_other a t l r =
    let (method, passed) = method_of l in
    let line = read_request_line r.urlencoded_form (drop passed l) in
    let r' = record r {
      request_extra_headers = add_extra_header (c_str l) r.request_extra_headers;
    } in
    if is_unknown method
    then then_bearer a t l r'
    else then_bearer a t line.rest (put_request_line method line r')

-- The headers by their names; `l` is the line without the blanks before it.
unfoldable pub read_header : AuthSettings → ℕ → Bytes → Reading → LineEnd
unfolding read_basic read_connection read_content_type read_other
read_header a t l r =
    let value = λ (n : ℕ). c_str (drop n l) in
    if starts_with (codes "Authorization: Basic ") l
    then reads (read_basic a t (drop 21 l) r)
    else (if starts_with_nocase (codes "Connection: ") l
        then reads (read_connection (value 12) r)
        else (if starts_with_nocase (codes "Accept-Encoding: ") l
            then reads (record r { gzip = r.gzip || has_text (codes "gzip") (value 17) })
            else (if starts_with_nocase (codes "Content-Type: ") l
                then reads (read_content_type (value 14) r)
                else (if starts_with_nocase (codes "Content-Length: ") l
                    then reads (record r { request_content_length = size_of_int (atoi (value 16)) })
                    else (if starts_with_nocase (codes "Cookie: ") l
                        then reads (record r { request_cookies = some (value 8) })
                        else (if starts_with_nocase (codes "Origin: ") l
                            then reads (record r { request_origin = some (value 8) })
                            else (if starts_with_nocase (codes "Sec-WebSocket-Key: ") l
                                then reads (record r { web_socket_client_key = some (value 19) })
                                else (if starts_with_nocase (codes "Sec-WebSocket-Extensions: ") l
                                    then reads r
                                    else (if starts_with_nocase (codes "Sec-WebSocket-Version: ") l
                                        then reads
                                            (record r { web_socket_version = atoi (value 23) })
                                        else read_other a t l r)))))))))

-- The line with its end cut off: a zero stands in the place of the last byte but one.
abbrev pub cut_line : Bytes → Bytes
cut_line line =
    let n = length line in
    if n == buf_size - 1 then line else take (n - 2) line ++ (0 ∷ drop (n - 1) line)

unfoldable pub read_line : AuthSettings → ℕ → Bytes → Reading → LineEnd
unfolding read_header ltrim
read_line a t line r = read_header a t (ltrim (cut_line line)) r
