-- ===== src/Server/Answering/Handling.antt =====
-- One request of `WebServer::accept_request` (src/WebServer.cc), from the socket to its answer.
use libnavajo.Base.{
  ℕ, ◌<◌, ◌≡◌, ◌⊎◌, refl, sym, ap, ◌∙◌, subst, inl, inr, Bool, false, [], ◌||◌, Option, none, some,
  if◌then◌else◌, Bytes, codes, length,
}
use libnavajo.Mpfd.TempFiles.{Disk}
use libnavajo.Mpfd.Headers.{Parser}
use libnavajo.Auth.Users.{IsTrusted}
use libnavajo.Response.Headers.{get_http_header}
use libnavajo.Session.{Sessions}
use libnavajo.Request.{HttpRequest, new_request}
use libnavajo.Request.Client.{ClientSockData}
use libnavajo.Server.Stream.Pieces.{Flows}
use libnavajo.Server.Stream.Reads.{Connection, stream_of}
use libnavajo.Server.Request.Line.{AuthSettings, Reading, begin_request}
use libnavajo.Server.Request.Headers.{HeaderEnd, complete, closed, uncaught, Moment, read_headers}
use libnavajo.Server.Request.Headers.Streams.{read_headers-parse_headers}
use libnavajo.Server.Request.Headers.Credentials.{any_good}
use libnavajo.Server.Request.Headers.Authorisation.{lines_of, read_headers-Authorised}
use libnavajo.Server.Request.Body.{
  Content, ContentEnd, finished, given_up, cut_off, length_error, faults, make_parser, read_content,
}
use libnavajo.Server.Answering.{
  Answer, ends, ends_silently, dies, Site, KeepAlive, is_plaintext, resource, count_of,
  check_request, unless_empty, answer_checked,
}

-- What the server is set to: who is let in, the parser of forms, the files and the memory there are, and
-- the pages. `auth_resp_header` is what `isTokenAllowed` leaves.
pub record Settings : Type 0 where
  pub auth : AuthSettings
  pub mutipart_temp_dir : Bytes
  pub mutipart_max_collected_data_length : ℕ
  pub disk : Disk
  pub can_create : Bytes → Bool
  pub fits : ℕ → Bool
  pub site : Site
  pub auth_resp_header : Bytes

-- The parser of a form, where the request has one.
abbrev pub parser_for : Settings → Option Bytes → Option Parser
parser_for w none = none
parser_for w (some multipart_content) =
    make_parser w.mutipart_temp_dir w.mutipart_max_collected_data_length w.disk multipart_content

abbrev pub no_content_yet : Settings → Reading → Content
no_content_yet w r = record {
  request_params = r.request_params;
  payload = [];
  parser = parser_for w r.multipart_content;
}

-- The object that is made of a request for the repositories and for a websocket. It points to the payload
-- even where nothing was read.
abbrev pub page_request : ℕ → ClientSockData → Reading → Content → Sessions → Sessions × HttpRequest
page_request now client r b s =
    new_request now
      (record {
        type = r.request_method;
        url = r.url_buffer;
        params = b.request_params;
        raw_cookies = r.request_cookies;
        headers = r.request_extra_headers;
        origin = r.request_origin;
        username = r.username;
        client = some client;
        mime_type = some r.mime_type;
        payload = some b.payload;
        parser = b.parser;
      })
      s

-- The answer, and what is left: the variables of the loop and the connection.
pub record Handled : Type 0 where
  pub answer : Answer
  pub reading : Reading
  pub connection : Connection

abbrev pub handled : Answer → Reading → Connection → Option Handled
handled answer r c = some (record { answer = answer; reading = r; connection = c })

abbrev pub after_content :
    Settings → ℕ → KeepAlive → Reading → Option (ContentEnd × Connection) → Option Handled
after_content w forwards k r none = none
after_content w forwards k r (some (finished b, c)) =
    handled (answer_checked w.site forwards (some b) (resource r) k r) r c
after_content w forwards k r (some (given_up b, c)) =
    handled (answer_checked w.site forwards (some b) (resource r) k r) r c
after_content w forwards k r (some (cut_off, c)) = handled ends_silently r c
after_content w forwards k r (some (length_error, c)) = handled dies r c
after_content w forwards k r (some (faults, c)) = handled dies r c

-- A request that passed the checks. Its content is not read for the plain text of a benchmark.
abbrev pub handle_checked : ℕ → ℕ → ℕ → Settings → ℕ → Reading → Connection → Option Handled
handle_checked fuel client forwards w left r c =
    if is_plaintext (resource r) r
    then handled (answer_checked w.site forwards none (resource r) (count_of left r) r) r c
    else after_content w forwards (count_of left r) r (
        read_content fuel client w.can_create w.fits r.urlencoded_form r.request_content_length 0
          (no_content_yet w r) c)

abbrev pub handle_unless :
    Option Bytes → ℕ → ℕ → ℕ → Settings → ℕ → Reading → Connection → Option Handled
handle_unless none fuel client forwards w left r c = handle_checked fuel client forwards w left r c
handle_unless (some text) fuel client forwards w left r c = handled (ends text) r c

-- How the header ended, and what comes of it.
abbrev pub after_header :
    ℕ → ℕ → ℕ → Settings → ℕ → Reading → Option (HeaderEnd × Connection) → Option Handled
after_header fuel client forwards w left before none = none
after_header fuel client forwards w left before (some (closed, c)) = handled ends_silently before c
after_header fuel client forwards w left before (some (uncaught, c)) = handled dies before c
after_header fuel client forwards w left before (some (complete r, c)) =
    handle_unless (check_request w.site.surroundings w.auth_resp_header r) fuel client forwards w
      left r c

-- A round of the request loop, with the state of the connection before it. The fuel is for its header and
-- for its content.
unfoldable pub handle_request :
    ℕ → ℕ → ℕ → ℕ → Settings → (ℕ → Moment) → ℕ → Reading → Connection → Option Handled
unfolding read_headers read_content check_request make_parser answer_checked
handle_request header_fuel fuel client forwards w moments left r c =
    after_header fuel client forwards w left (begin_request r)
      (read_headers header_fuel client w.auth moments 0 (begin_request r) c)

-- The text for those who are not let in.
abbrev pub unauthorised : Settings → Bytes
unauthorised w =
    get_http_header w.site.surroundings (codes "401 Authorization Required") 0 false
      (unless_empty w.auth_resp_header) false none

check_request-unauthorised :
    (w : Settings) (r : Reading)
    → r.auth_ok ≡ false
    → check_request w.site.surroundings w.auth_resp_header r ≡ some (unauthorised w)
unfolding check_request
check_request-unauthorised w r h = rw h refl

-- A request that is not answered with a page: the text for those who are not let in, or the connection
-- ends without a text, or an exception ends the thread.
abbrev pub KeepsOut : Settings → Answer → Type 0
KeepsOut w answer = (answer ≡ ends (unauthorised w)) ⊎ (answer ≡ ends_silently) ⊎ (answer ≡ dies)

abbrev pub IsKeptOut : Settings → Option Handled → Type 0
IsKeptOut w none = ⊥
IsKeptOut w (some h) = KeepsOut w h.answer

after_header-IsKeptOut :
    (fuel client forwards : ℕ) (w : Settings) (left : ℕ) (before : Reading) (e : HeaderEnd)
    (c : Connection)
    → ((r : Reading) → e ≡ complete r → r.auth_ok ≡ false)
    → IsKeptOut w (after_header fuel client forwards w left before (some (e, c)))
after_header-IsKeptOut fuel client forwards w left before (complete r) c out =
    subst (λ text. IsKeptOut w (handle_unless text fuel client forwards w left r c))
      (sym (check_request-unauthorised w r (out r refl))) (inl refl)
after_header-IsKeptOut fuel client forwards w left before closed c out = inr (inl refl)
after_header-IsKeptOut fuel client forwards w left before uncaught c out = inr (inr refl)

-- With logins and passwords and no tokens, a history that knows good credentials only, and no call of
-- recv that fails before the end of the stream: where the connection is not authorised yet and no line of
-- the request's header is Authorization: Basic with credentials that are in the list, the handling of the
-- request comes to an end, and neither with a page nor with an upgrade: with the text 401, without a text,
-- or by an exception.
pub handle_request-IsKeptOut :
    (header_fuel fuel client forwards : ℕ) (w : Settings) (moments : ℕ → Moment) (left : ℕ)
    (r : Reading) (c : Connection)
    → Flows c.coming
    → length (stream_of client c) < header_fuel
    → w.auth.auth_bearer_enabled ≡ false
    → IsTrusted w.auth.auth_login_pwd_list r.users_auth_history
    → r.auth_ok ≡ false
    → any_good w.auth.auth_login_pwd_list (lines_of header_fuel moments 0 (stream_of client c))
      ≡ false
    → IsKeptOut w (handle_request header_fuel fuel client forwards w moments left r c)
unfolding handle_request begin_request
handle_request-IsKeptOut header_fuel fuel client forwards w moments left r c flows enough off trust
      out bad =
    let start = begin_request r in
    let both =
      read_headers-parse_headers header_fuel client w.auth moments 0 start c flows enough in
    let kept : IsKeptOut w
        (after_header fuel client forwards w left start (some (both.end, both.after))) =
      after_header-IsKeptOut fuel client forwards w left start both.end both.after
        (λ r' is_complete.
          (read_headers-Authorised header_fuel client w.auth moments 0 start c r' both.after flows
            enough off trust (both.runs ∙ ap (λ e. some (e, both.after)) is_complete)).0
          ∙ (ap
                (λ b.
                  b
                  || any_good w.auth.auth_login_pwd_list
                      (lines_of header_fuel moments 0 (stream_of client c)))
                out
              ∙ bad)) in
    subst (λ o. IsKeptOut w (after_header fuel client forwards w left start o)) (sym both.runs) kept
