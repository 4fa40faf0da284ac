-- ===== src/WebSocket/Clients.antt =====
-- The clients of a WebSocket endpoint (`WebSocket`, include/libnavajo/WebSocket.hh): its list, how a client
-- comes onto it and off it, and the messages for all of them. Each step holds the mutex of the list; what
-- a method does after it has let go of it is another step.
pub mod Listing
use libnavajo.Base.{
  suc, ℕ, ◌%◌, ◌^◌, Bool, true, false, not, ◌&&◌, ◌||◌, List, [], ◌∷◌, ◌++◌, Option, none, some,
  map, ◌==◌, if◌then◌else◌, Bytes,
}
use libnavajo.WebSocket.Sending.{
  Client, send_text_message, send_binary_message, send_close_ctrl_frame, send_ping_ctrl_frame,
  send_pong_ctrl_frame,
}

-- A client, with its address and that of its request.
pub record Entry : Type 0 where
  pub address : ℕ
  pub request : ℕ
  pub client : Client

-- `useCompression`, `useNaggleAlgo`, `clientSending_maxLatency` and `websocketTimeoutInMilliSecond`.
pub record WebSocketSettings : Type 0 where
  pub use_compression : Bool
  pub use_naggle_algo : Bool
  pub client_sending_max_latency : ℕ
  pub websocket_timeout_in_milli_second : ℕ

-- `removed` lists the clients that `removeClient` took off the list, `to_close` those that are taken off
-- to be closed, the latest first; `freed_sockets` counts the connections that were refused.
pub record WebSocketState : Type 0 where
  pub web_socket_client_list : List Entry
  pub removed : List Entry
  pub to_close : List Entry
  pub freed_sockets : ℕ
  pub settings : WebSocketSettings

abbrev pub clientsending_maxlatency_default : ℕ
clientsending_maxlatency_default = 500

abbrev pub default_websocket_timeout : ℕ
default_websocket_timeout = 750

-- The constructor.
abbrev pub new_websocket : Bool → WebSocketState
new_websocket compression = record {
  web_socket_client_list = [];
  removed = [];
  to_close = [];
  freed_sockets = 0;
  settings = record {
    use_compression = compression;
    use_naggle_algo = true;
    client_sending_max_latency = clientsending_maxlatency_default;
    websocket_timeout_in_milli_second = default_websocket_timeout;
  };
}

-- The setters; the times are of 16 bits.
abbrev pub set_use_compression : Bool → WebSocketState → WebSocketState
set_use_compression compression s = record s {
  settings = record s.settings { use_compression = compression };
}

abbrev pub set_use_naggle_algo : Bool → WebSocketState → WebSocketState
set_use_naggle_algo naggle s = record s {
  settings = record s.settings { use_naggle_algo = naggle };
}

abbrev pub set_client_sending_max_latency : ℕ → WebSocketState → WebSocketState
set_client_sending_max_latency ms s = record s {
  settings = record s.settings { client_sending_max_latency = ms % 2 ^ 16 };
}

abbrev pub set_websocket_timeout_in_milli_second : ℕ → WebSocketState → WebSocketState
set_websocket_timeout_in_milli_second ms s = record s {
  settings = record s.settings { websocket_timeout_in_milli_second = ms % 2 ^ 16 };
}

-- The constructor of a client: its latency is that of the endpoint at that time. The session of its
-- request, which no longer expires, and the start of its threads are not part of this.
abbrev pub new_websocket_client : WebSocketState → Client
new_websocket_client s = record {
  sending_queue = [];
  closing = false;
  snd_max_latency = s.settings.client_sending_max_latency;
  freed = [];
  sent = [];
}

-- How `receivingThread` sets its socket up, and whether it goes on: `set_timeout` and `set_naggle` tell
-- whether `setSocketSndRcvTimeout` and `setSocketNagleAlgo` succeed.
abbrev pub sets_up : (ℕ → Bool) → (Bool → Bool) → WebSocketState → Bool
sets_up set_timeout set_naggle s =
    (s.settings.websocket_timeout_in_milli_second == 0
      || set_timeout s.settings.websocket_timeout_in_milli_second)
    && (s.settings.use_naggle_algo || set_naggle false)

-- `newConnectionRequest`, with what `onOpening` returns.
abbrev pub new_connection_request : Bool → Entry → WebSocketState → WebSocketState
new_connection_request opens e s =
    if opens
    then record s { web_socket_client_list = s.web_socket_client_list ++ e ∷ [] }
    else record s { freed_sockets = suc s.freed_sockets }

-- `std::find`, and the loop of `removeClient`: the first that fits, and the others.
unfoldable pub take_first : (Entry → Bool) → List Entry → Option Entry × List Entry
take_first fits [] = (none, [])
take_first fits (e ∷ es) =
    let (found, others) = take_first fits es in if fits e then (some e, es) else (found, e ∷ others)

abbrev pub cons_found : Option Entry → List Entry → List Entry
cons_found none es = es
cons_found (some e) es = e ∷ es

-- `removeClient` with a client: it is taken off the list.
unfoldable pub remove_client : ℕ → WebSocketState → WebSocketState
unfolding take_first
remove_client address s =
    let (found, others) = take_first (λ e. e.address == address) s.web_socket_client_list in
    record s { web_socket_client_list = others; removed = cons_found found s.removed }

-- `removeClient` with a request: the client is taken off the list, and closed then.
unfoldable pub remove_client_of : ℕ → WebSocketState → WebSocketState
unfolding take_first
remove_client_of request s =
    let (found, others) = take_first (λ e. e.request == request) s.web_socket_client_list in
    record s { web_socket_client_list = others; to_close = cons_found found s.to_close }

-- `removeAllClients`
abbrev pub remove_all_clients : WebSocketState → WebSocketState
remove_all_clients s = record s {
  web_socket_client_list = [];
  to_close = s.web_socket_client_list ++ s.to_close;
}

abbrev pub sent_to : (Client → Client) → Entry → Entry
sent_to send e = record e { client = send e.client }

-- A message for every client on the list.
abbrev pub broadcast : (Client → Client) → WebSocketState → WebSocketState
broadcast send s = record s { web_socket_client_list = map (sent_to send) s.web_socket_client_list }

abbrev pub send_broadcast_text_message : ℕ → Bytes → Bool → WebSocketState → WebSocketState
send_broadcast_text_message now message fin = broadcast (send_text_message now message fin)

abbrev pub send_broadcast_binary_message : ℕ → Bytes → Bool → WebSocketState → WebSocketState
send_broadcast_binary_message now message fin = broadcast (send_binary_message now message fin)

abbrev pub send_broadcast_close_ctrl_frame : ℕ → Bytes → WebSocketState → WebSocketState
send_broadcast_close_ctrl_frame now message = broadcast (send_close_ctrl_frame now message)

abbrev pub send_broadcast_ping_ctrl_frame : ℕ → Bytes → WebSocketState → WebSocketState
send_broadcast_ping_ctrl_frame now message = broadcast (send_ping_ctrl_frame now message)

abbrev pub send_broadcast_pong_ctrl_frame : ℕ → Bytes → WebSocketState → WebSocketState
send_broadcast_pong_ctrl_frame now message = broadcast (send_pong_ctrl_frame now message)
