-- ===== src/Server/Queue.antt =====
-- The queue of clients (src/WebServer.cc: `threadProcessing`, `poolThreadProcessing`, `exit`), where
-- connections are not encrypted: each event is one step under the mutex of the queue.
pub mod Served
mod Tests
use libnavajo.Base.{
  ℕ, Bool, true, false, not, ◌&&◌, List, [], ◌∷◌, ◌++◌, Option, none, some, length, ◌==◌,
  if◌then◌else◌,
}
use libnavajo.Address.{IpAddress}
use libnavajo.Address.Order.{address_order}
use libnavajo.Address.Networks.{IpNetwork, is_ip_belong_to_ip_network}
use libnavajo.Request.Client.{ClientSockData, no_compression}
use libnavajo.Auth.{History, update_peer_history}

-- The data of a connection that was accepted; OpenSSL's pointers and the certificate's name are null.
abbrev pub new_client : ℕ → IpAddress → ClientSockData
new_client sock ip = record {
  socket_id = sock;
  ip = ip;
  compression = no_compression;
  peer_dn = none;
}

-- `clientsQueue`, the histories, the clients that threads took, and the sockets that were closed as
-- their peer is not allowed, each the first one first.
pub record Pool : Type 0 where
  pub clients_queue : List ClientSockData
  pub peer_ip_history : History IpAddress
  pub exiting : Bool
  pub taken : List ClientSockData
  pub refused : List (Option ℕ)

-- What happens: a connection is accepted at a time (`accept` may fail), a thread of the pool is awake at
-- the queue, or `exit` is called.
pub data Event : Type 0 where
  accepted : Option ℕ → IpAddress → ℕ → Event
  thread_wakes exits : Event

abbrev pub is_allowed : List IpNetwork → IpAddress → Bool
is_allowed [] ip = true
is_allowed (net ∷ nets) ip = is_ip_belong_to_ip_network ip (net ∷ nets)

-- A client goes to the end of the queue.
abbrev pub push : Option ℕ → IpAddress → Pool → Pool
push none ip p = p
push (some sock) ip p = record p { clients_queue = p.clients_queue ++ (new_client sock ip ∷ []) }

abbrev pub accept_client : List IpNetwork → Option ℕ → IpAddress → ℕ → Pool → Pool
accept_client hosts_allowed sock ip now p =
    if is_allowed hosts_allowed ip
    then push sock ip
        (record p { peer_ip_history = (update_peer_history now ip p.peer_ip_history).1 })
    else record p { refused = p.refused ++ (sock ∷ []) }

-- The thread takes the first client and answers its requests.
abbrev pub take_client : List ClientSockData → Pool → Pool
take_client [] p = p
take_client (client ∷ clients) p = record p {
  clients_queue = clients;
  taken = p.taken ++ (client ∷ []);
}

unfoldable pub happen : List IpNetwork → Event → Pool → Pool
unfolding is_ip_belong_to_ip_network
happen hosts_allowed (accepted sock ip now) p =
    if p.exiting then p else accept_client hosts_allowed sock ip now p
happen hosts_allowed thread_wakes p = if p.exiting then p else take_client p.clients_queue p
happen hosts_allowed exits p = record p { exiting = true }

unfoldable pub happen_all : List IpNetwork → List Event → Pool → Pool
unfolding happen
happen_all hosts_allowed [] p = p
happen_all hosts_allowed (e ∷ later) p = happen_all hosts_allowed later (happen hosts_allowed e p)
