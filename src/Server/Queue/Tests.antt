-- ===== src/Server/Queue/Tests.antt =====
-- Tests and witnesses for the queue of clients (src/WebServer.cc).
use libnavajo.Base.{◌≡◌, refl, false, List, [], ◌∷◌, ◌++◌, some}
use libnavajo.Address.{IpAddress}
use libnavajo.Address.Networks.{IpNetwork, network}
use libnavajo.Server.Queue.{Pool, Event, accepted, thread_wakes, exits, happen_all}
use libnavajo.Server.Queue.Served.{arrivals, all_clients, happen_all-arrivals}

-- Addresses 10.0.0.0 and 11.0.0.0, of which the first is allowed.
abbrev ten : IpAddress
ten = record { v4 = 10; v6 = []; ipversion = 4 }

abbrev eleven : IpAddress
eleven = record { v4 = 11; v6 = []; ipversion = 4 }

abbrev hosts : List IpNetwork
hosts = network ten 8 ∷ []

abbrev idle : Pool
idle = record {
  clients_queue = [];
  peer_ip_history = [];
  exiting = false;
  taken = [];
  refused = [];
}

abbrev some_events : List Event
some_events =
    accepted (some 3) ten 100
    ∷ accepted (some 4) eleven 101
    ∷ thread_wakes
    ∷ accepted (some 5) ten 102
    ∷ exits
    ∷ thread_wakes
    ∷ []

one_is_refused : (happen_all hosts some_events idle).refused ≡ (some 4 ∷ [])
unfolding happen_all
one_is_refused = refl

happen_all-arrivals_example :
    all_clients (happen_all hosts some_events idle) ≡ all_clients idle ++ arrivals hosts some_events
happen_all-arrivals_example = happen_all-arrivals hosts some_events idle refl
