-- ===== src/Server/Queue/Served.antt =====
-- Which clients are served, and in which order (src/WebServer.cc: `threadProcessing`,
-- `poolThreadProcessing`).
use libnavajo.Base.{
  ℕ, ◌≡◌, refl, sym, ap, ◌∙◌, inl, inr, true, false, List, [], ◌∷◌, ◌++◌, Option, none, some,
  if◌then◌else◌, Bool-cases, append_assoc, append-nil,
}
use libnavajo.Address.{IpAddress}
use libnavajo.Address.Networks.{IpNetwork}
use libnavajo.Address.Order.{address_order}
use libnavajo.Auth.{update_peer_history}
use libnavajo.Request.Client.{ClientSockData}
use libnavajo.Server.Queue.{
  new_client, Pool, Event, accepted, thread_wakes, exits, is_allowed, push, accept_client,
  take_client, happen, happen_all,
}

-- A connection as a client, if it was accepted and its peer is allowed.
abbrev pub client_of : Option ℕ → IpAddress → List ClientSockData
client_of none ip = []
client_of (some sock) ip = new_client sock ip ∷ []

abbrev pub admitted : List IpNetwork → Option ℕ → IpAddress → List ClientSockData
admitted hosts_allowed sock ip = if is_allowed hosts_allowed ip then client_of sock ip else []

-- The clients that arrive before the server exits.
unfoldable pub arrivals : List IpNetwork → List Event → List ClientSockData
arrivals hosts_allowed [] = []
arrivals hosts_allowed (accepted sock ip now ∷ later) =
    admitted hosts_allowed sock ip ++ arrivals hosts_allowed later
arrivals hosts_allowed (thread_wakes ∷ later) = arrivals hosts_allowed later
arrivals hosts_allowed (exits ∷ later) = []

-- The clients that were taken, and behind them those that wait.
abbrev pub all_clients : Pool → List ClientSockData
all_clients p = p.taken ++ p.clients_queue

push-all_clients :
    (sock : Option ℕ) (ip : IpAddress) (p : Pool)
    → (all_clients (push sock ip p) ≡ all_clients p ++ client_of sock ip)
      × ((push sock ip p).exiting ≡ p.exiting)
push-all_clients none ip p = (sym (append-nil (all_clients p)), refl)
push-all_clients (some n) ip p =
    (sym (append_assoc p.taken p.clients_queue (new_client n ip ∷ [])), refl)

accept_client-all_clients :
    (hosts_allowed : List IpNetwork) (sock : Option ℕ) (ip : IpAddress) (now : ℕ) (p : Pool)
    → (all_clients (accept_client hosts_allowed sock ip now p)
        ≡ all_clients p ++ admitted hosts_allowed sock ip)
      × ((accept_client hosts_allowed sock ip now p).exiting ≡ p.exiting)
accept_client-all_clients hosts_allowed sock ip now p =
    elim (Bool-cases (is_allowed hosts_allowed ip)) [
      | inl allowed ↦ rw allowed (
          push-all_clients sock ip
            (record p { peer_ip_history = (update_peer_history now ip p.peer_ip_history).1 }))
      | inr not_allowed ↦ rw not_allowed (sym (append-nil (all_clients p)), refl)
    ]

take_client-all_clients :
    (clients taken : List ClientSockData) (p : Pool)
    → p.clients_queue ≡ clients
    → p.taken ≡ taken
    → (all_clients (take_client clients p) ≡ taken ++ clients)
      × ((take_client clients p).exiting ≡ p.exiting)
take_client-all_clients [] taken p e f = (rw (e, f) refl, refl)
take_client-all_clients (client ∷ clients) taken p e f =
    (rw f (append_assoc taken (client ∷ []) clients), refl)

-- Once the server exits, nothing comes and nothing is taken.
happen_all-exiting :
    (hosts_allowed : List IpNetwork) (events : List Event) (p : Pool)
    → p.exiting ≡ true
    → all_clients (happen_all hosts_allowed events p) ≡ all_clients p
unfolding happen_all happen
happen_all-exiting hosts_allowed [] p e = refl
happen_all-exiting hosts_allowed (accepted sock ip now ∷ later) p e =
    ap
      (λ b. all_clients (
        happen_all hosts_allowed later
          (if b then p else accept_client hosts_allowed sock ip now p)))
      e
    ∙ happen_all-exiting hosts_allowed later p e
happen_all-exiting hosts_allowed (thread_wakes ∷ later) p e =
    ap
      (λ b.
        all_clients
          (happen_all hosts_allowed later (if b then p else take_client p.clients_queue p)))
      e
    ∙ happen_all-exiting hosts_allowed later p e
happen_all-exiting hosts_allowed (exits ∷ later) p e =
    happen_all-exiting hosts_allowed later (record p { exiting = true }) refl

-- Of a server that runs: the clients that its threads have taken, and behind them those that wait, are
-- those there were and behind them those that arrived before it exits, in the order of their arrival,
-- each of them once: the connections that were accepted from addresses that are allowed.
pub happen_all-arrivals :
    (hosts_allowed : List IpNetwork) (events : List Event) (p : Pool)
    → p.exiting ≡ false
    → all_clients (happen_all hosts_allowed events p)
      ≡ all_clients p ++ arrivals hosts_allowed events
unfolding happen_all happen arrivals
happen_all-arrivals hosts_allowed [] p e = sym (append-nil (all_clients p))
happen_all-arrivals hosts_allowed (accepted sock ip now ∷ later) p e =
    let came = accept_client-all_clients hosts_allowed sock ip now p in
    ap
      (λ b. all_clients (
        happen_all hosts_allowed later
          (if b then p else accept_client hosts_allowed sock ip now p)))
      e
    ∙ (happen_all-arrivals hosts_allowed later (accept_client hosts_allowed sock ip now p)
          (came.1 ∙ e)
        ∙ (ap (λ cs. cs ++ arrivals hosts_allowed later) came.0
            ∙ append_assoc (all_clients p) (admitted hosts_allowed sock ip)
                (arrivals hosts_allowed later)))
happen_all-arrivals hosts_allowed (thread_wakes ∷ later) p e =
    let took = take_client-all_clients p.clients_queue p.taken p refl refl in
    ap
      (λ b.
        all_clients
          (happen_all hosts_allowed later (if b then p else take_client p.clients_queue p)))
      e
    ∙ (happen_all-arrivals hosts_allowed later (take_client p.clients_queue p) (took.1 ∙ e)
        ∙ ap (λ cs. cs ++ arrivals hosts_allowed later) took.0)
happen_all-arrivals hosts_allowed (exits ∷ later) p e =
    happen_all-exiting hosts_allowed later (record p { exiting = true }) refl
    ∙ sym (append-nil (all_clients p))
