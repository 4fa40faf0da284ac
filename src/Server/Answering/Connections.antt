-- ===== src/Server/Answering/Connections.antt =====
-- The requests of one connection, in `WebServer::accept_request` (src/WebServer.cc).
pub mod Counts
pub mod Ends
use libnavajo.Base.{
  ℕ, zero, suc, ◌+◌, ◌-◌, ◌^◌, ◌%◌, ◌<◌, ◌≤◌, ◌≡◌, refl, inl, inr, Bool, true, false, not, ◌&&◌,
  List, [], ◌∷◌, Option, none, some, if◌then◌else◌, Option-cases, if_intro, Bytes, bytes_eq, codes,
  length, eq_of_some, arith,
}
use libnavajo.Response.{HttpResponse, new_response}
use libnavajo.Response.Headers.{Surroundings, get_http_web_socket_header}
use libnavajo.Response.Headers.Messages.{get_not_found_error_msg}
use libnavajo.Server.Answering.Encodings.{page_header}
use libnavajo.Response.MimeTypes.{get_mime_type}
use libnavajo.Server.Request.Url.{is_get, resource_of}
use libnavajo.Server.Stream.{clear_recv_buffer}
use libnavajo.Server.Stream.Reads.{Connection}
use libnavajo.Server.Request.Line.{Reading, begin_request, authorised_at_start}
use libnavajo.Server.Request.Headers.{HeaderEnd, complete, closed, uncaught, Moment, read_headers}
use libnavajo.Server.Answering.Handling.{
  Settings, Handled, handled, after_content, no_content_yet, handle_unless, after_header,
  handle_request,
}
use libnavajo.Server.Request.Body.{
  Content, or_nothing, ContentEnd, finished, given_up, cut_off, length_error, faults, read_content,
}
use libnavajo.Server.Answering.Looking.{Search, found, not_found, stands_still, search}
use libnavajo.Server.Answering.{
  KeepAlive, count_query, goes_on, Compression, Body, failed, as_it_is, zipped_as, choose_body,
  Answer, ends, ends_silently, upgrades, sends, never, out_of_forwards, send_body, page_of,
  answer_with, answer_page, answer_search, Site, is_plaintext, answer_unless_cut, resource,
  count_of, dies, has_end_point, answer_web_socket, answer_content, answer_checked, check_request,
  plaintext_answer, keepalive_max_nb_query,
}

-- The number of queries that are left when the loop goes on after an answer.
unfoldable pub left_after : Answer → Option ℕ
left_after (ends text) = none
left_after ends_silently = none
left_after (upgrades text) = none
left_after never = none
left_after out_of_forwards = none
left_after dies = none
left_after (sends header body k) = if goes_on k then some k.nb_file_keep_alive else none

-- An answer that cannot be sent closes the connection.
abbrev pub left_if : Bool → Option ℕ → Option ℕ
left_if sent left = if sent then left else none

-- How the loop over the requests ends: with the answers that were given and the connection; or it hangs in
-- the search for a page; or it goes on beyond the rounds, the forwards or the fuel that there are.
pub data Served : Type 0 where
  served : List Answer → Reading → Connection → Served
  hangs out_of_rounds beyond_forwards out_of_fuel : Served

abbrev pub with_answer : Answer → Served → Served
with_answer answer (served answers r c) = served (answer ∷ answers) r c
with_answer answer out_of_rounds = out_of_rounds
with_answer answer out_of_fuel = out_of_fuel
with_answer answer hangs = hangs
with_answer answer beyond_forwards = beyond_forwards

-- Whether the answers can be sent, and what the clock and `exiting` say, by the queries that are left.
pub record Course : Type 0 where
  pub sent : ℕ → Bool
  pub moments : ℕ → ℕ → Moment

-- The state of a thread that is left for the next round, if there is one.
abbrev pub next_round : Option ℕ → (ℕ → Served) → Answer → Reading → Connection → Served
next_round none more answer r c = served (answer ∷ []) r c
next_round (some m) more answer r c = with_answer answer (more m)

-- A round whose search has no end has none, either.
abbrev pub unless_stuck : Answer → Served → Served
unless_stuck (ends text) s = s
unless_stuck ends_silently s = s
unless_stuck (upgrades header) s = s
unless_stuck (sends header body k) s = s
unless_stuck dies s = s
unless_stuck never s = hangs
unless_stuck out_of_forwards s = beyond_forwards

abbrev pub after_handling : Bool → Option Handled → (Handled → ℕ → Served) → Served
after_handling sent none more = out_of_fuel
after_handling sent (some h) more =
    unless_stuck h.answer
      (next_round (left_if sent (left_after h.answer)) (more h) h.answer h.reading h.connection)

-- The loop over the requests of a connection.
unfoldable pub request_loop :
    ℕ → ℕ → ℕ → ℕ → ℕ → Settings → Course → ℕ → Reading → Connection → Served
unfolding handle_request left_after
request_loop zero header_fuel fuel client forwards w course left r c = out_of_rounds
request_loop (suc rounds) header_fuel fuel client forwards w course left r c =
    after_handling (course.sent left)
      (handle_request header_fuel fuel client forwards w (course.moments left) left r c)
      (λ h m.
        request_loop rounds header_fuel fuel client forwards w course m h.reading h.connection)

-- What the function returns, and the connection behind it: after an upgrade its buffer is kept.
abbrev pub is_upgrade : Answer → Bool
is_upgrade (ends text) = false
is_upgrade ends_silently = false
is_upgrade (upgrades header) = true
is_upgrade (sends header body k) = false
is_upgrade never = false
is_upgrade out_of_forwards = false
is_upgrade dies = false

abbrev pub last_is_upgrade : List Answer → Bool
last_is_upgrade [] = false
last_is_upgrade (answer ∷ []) = is_upgrade answer
last_is_upgrade (answer ∷ next ∷ answers) = last_is_upgrade (next ∷ answers)

abbrev pub leave : ℕ → Served → Served
leave client (served answers r c) =
    if last_is_upgrade answers
    then served answers r c
    else served answers r (record c { buffers = clear_recv_buffer client c.buffers })
leave client out_of_rounds = out_of_rounds
leave client out_of_fuel = out_of_fuel
leave client hangs = hangs
leave client beyond_forwards = beyond_forwards

-- `accept_request`: it begins without a query, with the histories that the server has.
unfoldable pub accept_request : ℕ → ℕ → ℕ → ℕ → Settings → Course → Reading → Connection → Served
unfolding request_loop authorised_at_start
accept_request header_fuel fuel client forwards w course r c = leave client (
    request_loop keepalive_max_nb_query header_fuel fuel client forwards w course
      keepalive_max_nb_query (record r { auth_ok = authorised_at_start w.auth }) c)
