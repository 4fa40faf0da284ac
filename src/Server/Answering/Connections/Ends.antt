-- ===== src/Server/Answering/Connections/Ends.antt =====
-- How the loop over the requests of a connection ends (src/WebServer.cc: `accept_request`).
use libnavajo.Base.{
  ℕ, zero, suc, ◌^◌, ◌<◌, ◌≤◌, ◌≡◌, refl, Bool, true, false, Option, none, some, if_intro, length,
  arith,
}
use libnavajo.Server.Stream.Reads.{Connection}
use libnavajo.Server.Request.Line.{Reading, authorised_at_start}
use libnavajo.Server.Answering.Handling.{Settings, Handled, handle_request}
use libnavajo.Server.Answering.{
  Answer, ends, ends_silently, upgrades, sends, dies, never, out_of_forwards,
  keepalive_max_nb_query,
}
use libnavajo.Server.Answering.Connections.{
  Served, served, hangs, beyond_forwards, unless_stuck, out_of_rounds, out_of_fuel, with_answer,
  Course, next_round, after_handling, request_loop, last_is_upgrade, leave, accept_request,
  left_after, left_if,
}
use libnavajo.Server.Answering.Connections.Counts.{
  SearchesEnd, IsOver, HandledCounts, handle_request-Counts,
}

left_if-some : (sent : Bool) (o : Option ℕ) (m : ℕ) → left_if sent o ≡ some m → o ≡ some m
left_if-some true o m e = e
left_if-some false o m e = cc

-- A loop that ends within its rounds, with so many answers at most.
abbrev pub EndsWithin : ℕ → Served → Type 0
EndsWithin n (served answers r c) = (0 < length answers) × (length answers ≤ n)
EndsWithin n out_of_rounds = ⊥
EndsWithin n hangs = ⊥
EndsWithin n beyond_forwards = ⊥
EndsWithin n out_of_fuel = Unit

with_answer-EndsWithin :
    (n m : ℕ) (answer : Answer) (s : Served)
    → suc m ≡ n
    → EndsWithin m s
    → EndsWithin n (with_answer answer s)
with_answer-EndsWithin n m answer (served answers r c) e h = (omega arith, omega arith)
with_answer-EndsWithin n m answer out_of_rounds e h = h
with_answer-EndsWithin n m answer hangs e h = h
with_answer-EndsWithin n m answer beyond_forwards e h = h
with_answer-EndsWithin n m answer out_of_fuel e h = tt

unless_stuck-EndsWithin :
    (n : ℕ) (answer : Answer) (s : Served)
    → IsOver answer
    → EndsWithin n s
    → EndsWithin n (unless_stuck answer s)
unless_stuck-EndsWithin n (ends text) s over h = h
unless_stuck-EndsWithin n ends_silently s over h = h
unless_stuck-EndsWithin n (upgrades header) s over h = h
unless_stuck-EndsWithin n (sends header body k) s over h = h
unless_stuck-EndsWithin n dies s over h = h
unless_stuck-EndsWithin n never s over h = elim over [ ]
unless_stuck-EndsWithin n out_of_forwards s over h = elim over [ ]

after_handling-EndsWithin :
    (left : ℕ) (sent : Bool) (o : Option Handled) (more : Handled → ℕ → Served)
    → 0 < left
    → HandledCounts left o
    → ((h : Handled) (m : ℕ) → 0 < m → suc m ≡ left → EndsWithin m (more h m))
    → EndsWithin left (after_handling sent o more)
after_handling-EndsWithin left sent none more some_left counts later = tt
after_handling-EndsWithin left sent (some h) more some_left counts later =
    unless_stuck-EndsWithin left h.answer
      (next_round (left_if sent (left_after h.answer)) (more h) h.answer h.reading h.connection)
      counts.0 (go (left_if sent (left_after h.answer)) refl)
  where
    go :
        (o : Option ℕ)
        → left_if sent (left_after h.answer) ≡ o
        → EndsWithin left (next_round o (more h) h.answer h.reading h.connection)
    go none e = (omega arith, some_left)
    go (some m) e =
        let less = counts.1 m (left_if-some sent (left_after h.answer) m e) in
        with_answer-EndsWithin left m h.answer (more h m) less.1 (later h m less.0 less.1)

request_loop-EndsWithin :
    (rounds header_fuel fuel client forwards : ℕ) (w : Settings) (course : Course) (left : ℕ)
    (r : Reading) (c : Connection)
    → SearchesEnd w.site forwards
    → 0 < left
    → left ≤ rounds
    → left < 2 ^ 64
    → EndsWithin left (request_loop rounds header_fuel fuel client forwards w course left r c)
unfolding request_loop
request_loop-EndsWithin zero header_fuel fuel client forwards w course left r c ending some_left
      enough fits =
    absurd (omega arith)
request_loop-EndsWithin (suc rounds) header_fuel fuel client forwards w course left r c ending
      some_left enough fits =
    after_handling-EndsWithin left (course.sent left)
      (handle_request header_fuel fuel client forwards w (course.moments left) left r c)
      (λ h m.
        request_loop rounds header_fuel fuel client forwards w course m h.reading h.connection)
      some_left
      (handle_request-Counts left some_left fits w forwards ending header_fuel fuel client
        (course.moments left) r c)
      (λ h m some_more less.
        request_loop-EndsWithin rounds header_fuel fuel client forwards w course m h.reading
          h.connection ending some_more (omega arith) (omega arith))

leave-EndsWithin : (n client : ℕ) (s : Served) → EndsWithin n s → EndsWithin n (leave client s)
leave-EndsWithin n client (served answers r c) h =
    if_intro (EndsWithin n) (last_is_upgrade answers) (λ _. h) (λ _. h)
leave-EndsWithin n client out_of_rounds h = h
leave-EndsWithin n client hangs h = h
leave-EndsWithin n client beyond_forwards h = h
leave-EndsWithin n client out_of_fuel h = h

-- If no repository is a null pointer, and repositories make a forward only where they answer and lower a
-- rank of the URL with it that is less than the forwards there are: however many requests come on a
-- connection, and whatever can be sent, the loop of accept_request ends within 25 rounds, with one answer
-- at least and 25 at most, where an end without a text and an exception count as answers, and a search
-- that stands still does not, unless the fuel for a header or a content ends.
pub accept_request-EndsWithin :
    (header_fuel fuel client forwards : ℕ) (w : Settings) (course : Course) (r : Reading)
    (c : Connection)
    → SearchesEnd w.site forwards
    → EndsWithin keepalive_max_nb_query
        (accept_request header_fuel fuel client forwards w course r c)
unfolding accept_request
accept_request-EndsWithin header_fuel fuel client forwards w course r c ending =
    leave-EndsWithin keepalive_max_nb_query client
      (request_loop keepalive_max_nb_query header_fuel fuel client forwards w course
        keepalive_max_nb_query (record r { auth_ok = authorised_at_start w.auth }) c)
      (request_loop-EndsWithin keepalive_max_nb_query header_fuel fuel client forwards w course
        keepalive_max_nb_query (record r { auth_ok = authorised_at_start w.auth }) c ending
        (omega arith) (omega arith) (omega arith))
