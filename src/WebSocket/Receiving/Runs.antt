-- ===== src/WebSocket/Receiving/Runs.antt =====
-- How the loop of `WebSocketClient::receivingThread` (src/WebSocketClient.cc) goes on after a round.
use libnavajo.Base.{
  ℕ, zero, suc, ◌+◌, ◌≡◌, refl, sym, ap, subst, ◌∙◌, List, ◌++◌, some, Bytes, arith, length, joined,
}
use libnavajo.WebSocket.Receiving.Endpoints.{Endpoint}
use libnavajo.WebSocket.Receiving.Pieces.{fill, fill-enough}
use libnavajo.WebSocket.Receiving.Loop.{
  round_length, received, decoded, round, Ending, returned, receive,
}
use libnavajo.WebSocket.Receiving.{decode}
use libnavajo.WebSocket.Receiving.Receivers.{Receiver, Flow, goes_on, closes}

-- How the thread goes on after a round.
abbrev pub after : ℕ → Endpoint → List Bytes → List ℕ → Flow → Ending
after n ep qs errors (goes_on r) = receive n ep r qs errors
after n ep qs errors (closes r) = returned r

-- After some rounds `rest` is left, and the flow is `f`.
pub record Reads (ep : Endpoint) (r : Receiver) (ps : List Bytes) (f : Flow) (rest : Bytes)
    : Type 0 where
  pub rounds : ℕ
  pub left : List Bytes
  pub is_rest : joined left ≡ rest
  pub goes :
      (m n : ℕ) (errors : List ℕ)
      → m ≡ rounds + n
      → receive m ep r ps errors ≡ after n ep left errors f

receive-round :
    (ep : Endpoint) (r : Receiver) (ps qs : List Bytes) (f : Flow) (m n : ℕ) (errors : List ℕ)
    → round ep r ps ≡ some (f, qs)
    → m ≡ 1 + n
    → receive m ep r ps errors ≡ after n ep qs errors f
unfolding receive
receive-round ep r ps qs f zero n errors e k = absurd (omega (arith, k))
receive-round ep r ps qs (goes_on r') (suc m) n errors e k =
    rw (e, receive) (ap (λ x. receive x ep r' qs errors) (omega (arith, k)))
receive-round ep r ps qs (closes r') (suc m) n errors e k = rw (e, receive) refl

pub last_round :
    (ep : Endpoint) (r : Receiver) (bs rest : Bytes) (ps : List Bytes)
    → joined ps ≡ bs ++ rest
    → length bs ≡ round_length r.read_length
    → Reads ep r ps (decode ep bs r.decod_step (received bs r)) rest
unfolding round
last_round ep r bs rest ps h size =
    let (qs, got, joins) = fill-enough bs rest ps h in
    record {
      rounds = 1;
      left = qs;
      is_rest = joins;
      goes = λ m n errors k.
          receive-round ep r ps qs _ m n errors
            (ap (decoded ep r) (ap (λ w. fill w ps) (sym size) ∙ got)) k;
    }

-- A round whose flow is known.
pub one_round :
    (ep : Endpoint) (r : Receiver) (bs rest : Bytes) (ps : List Bytes) (f : Flow)
    → joined ps ≡ bs ++ rest
    → length bs ≡ round_length r.read_length
    → decode ep bs r.decod_step (received bs r) ≡ f
    → Reads ep r ps f rest
one_round ep r bs rest ps f h size e =
    subst (λ x. Reads ep r ps x rest) e (last_round ep r bs rest ps h size)

pub follow :
    {ep : Endpoint} {r r' : Receiver} {rest end : Bytes} {ps : List Bytes} {f : Flow}
    (one : Reads ep r ps (goes_on r') rest)
    → Reads ep r' one.left f end
    → Reads ep r ps f end
follow {ep} one two = record {
  rounds = one.rounds + two.rounds;
  left = two.left;
  is_rest = two.is_rest;
  goes = λ m n errors k.
      one.goes m (two.rounds + n) errors (omega (arith, k))
      ∙ two.goes (two.rounds + n) n errors refl;
}
