-- ===== src/WebSocket/ClientTests.antt =====
-- Runs of the sending and closing of WebSocket clients and of their list.
use libnavajo.Base.{
  ℕ, ◌==◌, ◌+◌, ◌≡◌, refl, Bool, true, false, [], ◌∷◌, ◌++◌, some, none, codes, arith, inl, inr,
}
use libnavajo.WebSocket.Closing.{
  loses_connection, owner, sender, receiver, Teardown, open_client, detaches, begins, exits, frees,
  act, act_all,
}
use libnavajo.WebSocket.Closing.Sound.{act-IsSound}
use libnavajo.WebSocket.Closing.States.{IsSound}
use libnavajo.WebSocket.Sending.Frames.{read_frame, read_frame-header}
use libnavajo.WebSocket.Sending.Queue.{
  turns, happen, known, added, happen-known, turns_at, add_all, blocks_of, add_all-blocks_of,
}
use libnavajo.WebSocket.Sending.{MessageContent, Connection, Client, header, send_message}
use libnavajo.WebSocket.Clients.{new_websocket, Entry, WebSocketState, remove_client_of}
use libnavajo.WebSocket.Clients.Listing.{removes_all, accounted, comes, happen-accounted}
use libnavajo.WebSocket.Clients.Listing
use libnavajo.WebSocket.Bits.{bytes_to}

abbrev message : MessageContent
message = record { opcode = 1; message = codes "Hi"; fin = true; date_ms = 7 }

abbrev later_message : MessageContent
later_message = record { opcode = 1; message = codes "Ho"; fin = true; date_ms = 8 }

abbrev connection : Connection
connection = record { uses_zlib = false; deflate = λ m. none; accepts = λ b. true }

abbrev client : Client
client = record {
  sending_queue = message ∷ [];
  closing = false;
  snd_max_latency = 500;
  freed = [];
  sent = [];
}

sent_frame : send_message connection message ≡ (true, (129 ∷ 2 ∷ []) ∷ codes "Hi" ∷ [])
unfolding send_message
sent_frame = refl

read_frame-header_example :
    read_frame (header false message (codes "Hi") ++ (codes "Hi" ++ []))
    ≡ some
        (record { is_final = true; compressed = false; code = 1; content = codes "Hi"; after = [] })
unfolding bytes_to
read_frame-header_example =
    read_frame-header false message (codes "Hi") [] (omega arith) (omega arith)

abbrev is_text : MessageContent → Bool
is_text m = m.opcode == 1

happen-known_example :
    known is_text (happen client (turns connection 9))
    ≡ known is_text client + added is_text (turns connection 9)
happen-known_example = happen-known is_text client (turns connection 9)

add_all-blocks_of_example :
    ((turns_at connection (9 ∷ 11 ∷ []) (add_all (later_message ∷ []) client)).sent
      ≡ [] ++ blocks_of connection (message ∷ later_message ∷ []))
    × ((turns_at connection (9 ∷ 11 ∷ []) (add_all (later_message ∷ []) client)).sending_queue ≡ [])
unfolding send_message
add_all-blocks_of_example =
    add_all-blocks_of connection (9 ∷ 11 ∷ []) (later_message ∷ []) client refl
      (omega arith, refl, (omega arith, refl, tt))

-- The sender closes while the receiver still runs.
abbrev closing_state : Teardown
closing_state = record open_client {
  close_started = true;
  closing = true;
  tracked = false;
  closer = some sender;
  on_closings = 1;
}

first_close : act (begins sender) open_client ≡ some closing_state
unfolding act
first_close = refl

act-IsSound_example : IsSound closing_state
act-IsSound_example =
    act-IsSound (begins sender) open_client closing_state
      (inr (refl, inl refl, inl (refl, refl, refl))) first_close

-- The owner takes the client off the list, and before it closes it the receiver has closed and freed
-- it: the owner still holds the client.
freed_under_owner :
    act_all (detaches ∷ begins receiver ∷ exits sender ∷ frees ∷ []) open_client
    ≡ some (record closing_state {
      owner_holds = true;
      detached = true;
      sender_runs = false;
      receiver_runs = false;
      closer = none;
      freed = 1;
    })
unfolding act_all
freed_under_owner = refl

-- And then the owner calls `closeOnce` of the freed client.
misused_by_owner :
    (elim (act_all
      (detaches ∷ begins receiver ∷ exits sender ∷ frees ∷ begins owner ∷ [])
      open_client) [ none ↦ false | some s ↦ s.misused ])
    ≡ true
unfolding act_all
misused_by_owner = refl

-- The receiving thread loses its connection and ends, and nobody closes the client.
ends_unclosed :
    (elim (act_all (loses_connection ∷ exits receiver ∷ []) open_client) [
      | none ↦ true
      | some s ↦ s.close_started
    ])
    ≡ false
unfolding act_all
ends_unclosed = refl

abbrev entry : ℕ → ℕ → Entry
entry address request = record { address = address; request = request; client = client }

abbrev endpoint_state : WebSocketState
endpoint_state = record (new_websocket true) {
  web_socket_client_list = entry 1 11 ∷ entry 2 12 ∷ [];
}

second_closed : (remove_client_of 12 endpoint_state).to_close ≡ entry 2 12 ∷ []
unfolding remove_client_of
second_closed = refl

happen-accounted_example :
    accounted 2 (Listing.happen endpoint_state removes_all)
    ≡ accounted 2 endpoint_state + comes 2 removes_all
happen-accounted_example = happen-accounted 2 endpoint_state removes_all
