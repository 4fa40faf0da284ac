-- ===== src/WebSocket/Clients/Listing.antt =====
-- Where a client is, for the list of a `WebSocket` (include/libnavajo/WebSocket.hh).
use libnavajo.Base.{
  ℕ, ◌+◌, ◌≡◌, refl, inl, inr, Bool, true, false, List, [], ◌∷◌, ◌++◌, map, ◌==◌, if◌then◌else◌,
  Bool-cases, arith,
}
use libnavajo.WebSocket.Sending.{Client}
use libnavajo.WebSocket.Clients.{
  Entry, WebSocketState, new_connection_request, take_first, cons_found, remove_client,
  remove_client_of, remove_all_clients, sent_to, broadcast,
}

-- What happens to an endpoint.
pub data Happening : Type 0 where
  connects : Bool → Entry → Happening
  removes removes_request : ℕ → Happening
  removes_all : Happening
  broadcasts : (Client → Client) → Happening

unfoldable pub happen : WebSocketState → Happening → WebSocketState
unfolding remove_client remove_client_of
happen s (connects opens e) = new_connection_request opens e s
happen s (removes address) = remove_client address s
happen s (removes_request request) = remove_client_of request s
happen s removes_all = remove_all_clients s
happen s (broadcasts send) = broadcast send s

-- How often the client at an address is in a list.
module _ (address : ℕ) where
  abbrev pub times : List Entry → ℕ
  times [] = 0
  times (e ∷ es) = (if e.address == address then 1 else 0) + times es

  times-append : (xs ys : List Entry) → times (xs ++ ys) ≡ times xs + times ys
  times-append [] ys = omega arith
  times-append (x ∷ xs) ys = omega (arith, times-append xs ys)

  times-map : (send : Client → Client) (xs : List Entry) → times (map (sent_to send) xs) ≡ times xs
  times-map send [] = refl
  times-map send (x ∷ xs) = omega (arith, times-map send xs)

  times-take_first :
      (fits : Entry → Bool) (xs old : List Entry)
      → times (take_first fits xs).1 + times (cons_found (take_first fits xs).0 old)
        ≡ times xs + times old
  unfolding take_first
  times-take_first fits [] old = refl
  times-take_first fits (x ∷ xs) old = elim (Bool-cases (fits x)) [
    | inl yes' ↦ rw (yes', take_first) (omega arith)
    | inr no' ↦ rw (no', take_first) (omega (arith, times-take_first fits xs old))
  ]

  abbrev pub accounted : WebSocketState → ℕ
  accounted s = times s.web_socket_client_list + (times s.removed + times s.to_close)

  abbrev pub comes : Happening → ℕ
  comes (connects true e) = if e.address == address then 1 else 0
  comes _ = 0

  -- Whatever happens to the endpoint, a client is on the list, was taken off by `removeClient`, or was
  -- taken off to be closed, exactly as often as it was let in.
  pub happen-accounted :
      (s : WebSocketState) (h : Happening) → accounted (happen s h) ≡ accounted s + comes h
  unfolding happen remove_client remove_client_of
  happen-accounted s (connects true e) =
      omega (arith, times-append s.web_socket_client_list (e ∷ []))
  happen-accounted s (connects false e) = omega arith
  happen-accounted s (removes a) =
      omega (arith, times-take_first (λ e. e.address == a) s.web_socket_client_list s.removed)
  happen-accounted s (removes_request r) =
      omega (arith, times-take_first (λ e. e.request == r) s.web_socket_client_list s.to_close)
  happen-accounted s removes_all = omega (arith, times-append s.web_socket_client_list s.to_close)
  happen-accounted s (broadcasts send) = omega (arith, times-map send s.web_socket_client_list)
