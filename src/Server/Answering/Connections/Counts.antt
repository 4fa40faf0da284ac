-- ===== src/Server/Answering/Connections/Counts.antt =====
-- How the queries of a connection are counted (src/WebServer.cc: `accept_request`).
use libnavajo.Base.{
  List, All, ℕ, suc, ◌+◌, ◌-◌, ◌^◌, ◌%◌, ◌<◌, ◌≡◌, refl, Bool, true, false, [], Option, none, some,
  if_intro, Bytes, codes, eq_of_some, arith,
}
use libnavajo.Response.{HttpResponse, new_response}
use libnavajo.Response.Headers.{Surroundings, get_http_web_socket_header}
use libnavajo.Response.Headers.Messages.{get_not_found_error_msg}
use libnavajo.Server.Answering.Encodings.{page_header}
use libnavajo.Response.MimeTypes.{get_mime_type}
use libnavajo.Server.Stream.Reads.{Connection}
use libnavajo.Server.Request.Line.{Reading, begin_request}
use libnavajo.Server.Request.Headers.{HeaderEnd, complete, closed, uncaught, Moment, read_headers}
use libnavajo.Server.Answering.Handling.{
  Settings, Handled, after_content, no_content_yet, handle_unless, after_header, handle_request,
}
use libnavajo.Server.Request.Body.{
  Content, or_nothing, ContentEnd, finished, given_up, cut_off, length_error, faults, read_content,
}
use libnavajo.Server.Answering.Looking.{
  Repository, Search, found, not_found, stands_still, search, Lowers, Answered, by_page, by_none,
  by_forward, EndsRight, search-EndsRight,
}
use libnavajo.Server.Answering.{
  KeepAlive, count_query, Compression, Body, failed, as_it_is, zipped_as, choose_body, Answer, ends,
  ends_silently, upgrades, sends, never, out_of_forwards, send_body, page_of, answer_with,
  answer_page, answer_search, Site, is_plaintext, answer_unless_cut, resource, count_of, dies,
  has_end_point, answer_web_socket, answer_content, answer_checked, check_request, plaintext_answer,
}
use libnavajo.Server.Answering.Connections.{left_after}

-- No repository of a site is a null pointer, and their forwards lower a rank of the URL that is less than
-- the forwards there are.
pub record SearchesEnd (site : Site) (forwards : ℕ) : Type 0 where
  pub rank : Bytes → ℕ
  pub lowers : (r : Reading) (b : Content) → All (Lowers rank) (site.web_repositories r b)
  pub enough : (url : Bytes) → rank url < forwards

-- An answer that is not the lack of one.
abbrev pub IsOver : Answer → Type 0
IsOver (ends text) = Unit
IsOver ends_silently = Unit
IsOver (upgrades header) = Unit
IsOver (sends header body k) = Unit
IsOver dies = Unit
IsOver never = ⊥
IsOver out_of_forwards = ⊥

-- After an answer with which the loop goes on there is one query less, and one at least.
abbrev pub Counts : ℕ → Answer → Type 0
Counts left answer =
    IsOver answer × ((m : ℕ) → left_after answer ≡ some m → (0 < m) × (suc m ≡ left))

abbrev IsEnded : Option Search → Type 0
IsEnded none = ⊥
IsEnded (some stands_still) = ⊥
IsEnded (some not_found) = Unit
IsEnded (some (found i r)) = Unit

Answered-IsEnded :
    {repos : List (Option Repository)} {url : Bytes} {r : HttpResponse} {s : Search}
    → Answered repos url r s
    → IsEnded (some s)
Answered-IsEnded (by_page i url r last h e) = tt
Answered-IsEnded (by_none url r h) = tt
Answered-IsEnded (by_forward i url r last s h e later) = Answered-IsEnded later

EndsRight-IsEnded :
    (repos : List (Option Repository)) (url : Bytes) (r : HttpResponse) (o : Option Search)
    → EndsRight repos url r o
    → IsEnded o
EndsRight-IsEnded repos url r none h = h
EndsRight-IsEnded repos url r (some s) h = Answered-IsEnded h

search-IsEnded :
    (site : Site) (forwards : ℕ)
    → SearchesEnd site forwards
    → (r : Reading) (b : Content) (url mime : Bytes)
    → IsEnded (search forwards (site.web_repositories r b) url (new_response mime))
unfolding new_response
search-IsEnded site forwards ending r b url mime =
    EndsRight-IsEnded (site.web_repositories r b) url (new_response mime)
      (search forwards (site.web_repositories r b) url (new_response mime))
      (search-EndsRight ending.rank forwards (site.web_repositories r b) url (new_response mime)
        (ending.lowers r b) refl (ending.enough url))

abbrev pub HandledCounts : ℕ → Option Handled → Type 0
HandledCounts left none = Unit
HandledCounts left (some h) = Counts left h.answer

module _ (left : ℕ) (some_left : 0 < left) (fits : left < 2 ^ 64) where
  one_less : (left + (2 ^ 64 - 1)) % 2 ^ 64 ≡ left - 1
  one_less = omega arith

  sends-Counts :
      (header body : Bytes) (keep closing : Bool)
      → Counts left (
          sends header body (
            count_query
              (record { keep_alive = keep; closing = closing; nb_file_keep_alive = left })))
  unfolding left_after count_query
  sends-Counts header body false closing = (tt, λ m e. ground arith)
  sends-Counts header body true closing =
      (tt, λ m e. ground (arith, one_less, eq_of_some {a = left - 1} {b = m}))

  quiet-Counts : (answer : Answer) → IsOver answer → left_after answer ≡ none → Counts left answer
  quiet-Counts answer over h = (over, λ m e. ground arith)

  module _ (keep closing : Bool) where
    abbrev counted : KeepAlive
    counted = record { keep_alive = keep; closing = closing; nb_file_keep_alive = left }

    send_body-Counts :
        (e : Surroundings) (r : HttpResponse) (body : Body)
        → Counts left (send_body e counted r body)
    unfolding left_after
    send_body-Counts e r failed = quiet-Counts (send_body e counted r failed) tt refl
    send_body-Counts e r (as_it_is page) =
        sends-Counts (page_header e (count_query counted) r false page) page keep closing
    send_body-Counts e r (zipped_as page) =
        sends-Counts (page_header e (count_query counted) r true page) page keep closing

    answer_page-Counts :
        (z : Compression) (e : Surroundings) (client : Bool) (r : HttpResponse)
        → Counts left (answer_page z e client counted r)
    unfolding answer_page left_after
    answer_page-Counts z e client r = go (page_of r.response_content r.response_content_length)
      where
        go : (page : Option Bytes) → Counts left (answer_with z e client counted r page)
        go none = quiet-Counts (answer_with z e client counted r none) tt refl
        go (some page) = send_body-Counts e r (choose_body z client r.mime_type r.zipped_file page)

    answer_search-Counts :
        (z : Compression) (e : Surroundings) (client : Bool) (o : Option Search)
        → IsEnded o
        → Counts left (answer_search z e client counted o)
    unfolding left_after
    answer_search-Counts z e client none h = elim h [ ]
    answer_search-Counts z e client (some stands_still) h = elim h [ ]
    answer_search-Counts z e client (some not_found) h =
        quiet-Counts (answer_search z e client counted (some not_found)) tt refl
    answer_search-Counts z e client (some (found i r)) h = answer_page-Counts z e client r

    answer_web_socket-Counts :
        (site : Site) (key url : Bytes) → Counts left (answer_web_socket site key url)
    unfolding left_after
    answer_web_socket-Counts site key url =
        if_intro (Counts left) (has_end_point url site.web_socket_end_points)
          (λ _.
            quiet-Counts
              (upgrades (
                get_http_web_socket_header site.sha1 site.surroundings
                  (codes "101 Switching Protocols") key false))
              tt refl)
          (λ _. quiet-Counts (ends (get_not_found_error_msg site.surroundings)) tt refl)

    answer_content-Counts :
        (site : Site) (forwards : ℕ) (ending : SearchesEnd site forwards) (url : Bytes)
        (r : Reading) (content : Content)
        → Counts left (answer_content site forwards url counted r content)
    answer_content-Counts site forwards ending url r content =
        if_intro (Counts left) r.websocket
          (λ _. answer_web_socket-Counts site (or_nothing r.web_socket_client_key) url)
          (λ _.
            answer_search-Counts site.compression site.surroundings r.gzip
              (search forwards (site.web_repositories r content) url
                (new_response (or_nothing (get_mime_type url))))
              (search-IsEnded site forwards ending r content url (or_nothing (get_mime_type url))))

    answer_unless_cut-Counts :
        (site : Site) (forwards : ℕ) (ending : SearchesEnd site forwards) (url : Bytes)
        (r : Reading) (content : Option Content)
        → Counts left (answer_unless_cut site forwards url counted r content)
    unfolding left_after
    answer_unless_cut-Counts site forwards ending url r none = quiet-Counts ends_silently tt refl
    answer_unless_cut-Counts site forwards ending url r (some content) =
        answer_content-Counts site forwards ending url r content

    answer_checked-Counts :
        (site : Site) (forwards : ℕ) (ending : SearchesEnd site forwards) (content : Option Content)
        (url : Bytes) (r : Reading)
        → Counts left (answer_checked site forwards content url counted r)
    unfolding answer_checked
    answer_checked-Counts site forwards ending content url r =
        if_intro (Counts left) (is_plaintext url r)
          (λ _. sends-Counts (plaintext_answer (count_query counted)) [] keep closing)
          (λ _. answer_unless_cut-Counts site forwards ending url r content)

  module _ (w : Settings) (forwards : ℕ) (ending : SearchesEnd w.site forwards) where
    after_content-Counts :
        (r : Reading) (o : Option (ContentEnd × Connection))
        → HandledCounts left (after_content w forwards (count_of left r) r o)
    unfolding left_after
    after_content-Counts r none = tt
    after_content-Counts r (some (finished b, c)) =
        answer_checked-Counts r.keep_alive r.closing w.site forwards ending (some b) (resource r) r
    after_content-Counts r (some (given_up b, c)) =
        answer_checked-Counts r.keep_alive r.closing w.site forwards ending (some b) (resource r) r
    after_content-Counts r (some (cut_off, c)) = quiet-Counts ends_silently tt refl
    after_content-Counts r (some (length_error, c)) = quiet-Counts dies tt refl
    after_content-Counts r (some (faults, c)) = quiet-Counts dies tt refl

    handle_unless-Counts :
        (o : Option Bytes) (fuel client : ℕ) (r : Reading) (c : Connection)
        → HandledCounts left (handle_unless o fuel client forwards w left r c)
    unfolding left_after
    handle_unless-Counts (some text) fuel client r c = quiet-Counts (ends text) tt refl
    handle_unless-Counts none fuel client r c =
        if_intro (HandledCounts left) (is_plaintext (resource r) r)
          (λ _.
            answer_checked-Counts r.keep_alive r.closing w.site forwards ending none (resource r) r)
          (λ _. after_content-Counts r (
            read_content fuel client w.can_create w.fits r.urlencoded_form r.request_content_length
              0 (no_content_yet w r) c))

    after_header-Counts :
        (fuel client : ℕ) (before : Reading) (o : Option (HeaderEnd × Connection))
        → HandledCounts left (after_header fuel client forwards w left before o)
    unfolding left_after
    after_header-Counts fuel client before none = tt
    after_header-Counts fuel client before (some (closed, c)) = quiet-Counts ends_silently tt refl
    after_header-Counts fuel client before (some (uncaught, c)) = quiet-Counts dies tt refl
    after_header-Counts fuel client before (some (complete r, c)) =
        handle_unless-Counts (check_request w.site.surroundings w.auth_resp_header r) fuel client r
          c

    pub handle_request-Counts :
        (header_fuel fuel client : ℕ) (moments : ℕ → Moment) (r : Reading) (c : Connection)
        → HandledCounts left (handle_request header_fuel fuel client forwards w moments left r c)
    unfolding handle_request
    handle_request-Counts header_fuel fuel client moments r c =
        after_header-Counts fuel client (begin_request r)
          (read_headers header_fuel client w.auth moments 0 (begin_request r) c)
