-- ===== src/WebSocket/Receiving/Ends.antt =====
-- The end of the loop of `WebSocketClient::receivingThread` (src/WebSocketClient.cc).
use libnavajo.Base.{
  Bool, false, ℕ, ◌+◌, ◌*◌, ◌≡◌, true, List, ◌==◌, if◌then◌else◌, Bytes, length, joined,
}
use libnavajo.WebSocket.Receiving.Loop.{Ending, closing, returned, asks, runs}
use libnavajo.WebSocket.Receiving.Receivers.{Receiver}

-- The rounds that may still come: two for each byte, and one where nothing is to be read.
abbrev pub rounds_left : Receiver → List Bytes → ℕ
rounds_left r ps = 2 * length (joined ps) + (if r.read_length == 0 then 1 else 0)

-- Where the thread is when the bytes are used up, by whether a failure sets `closing`.
abbrev pub EndsAs : Bool → Ending → Type 0
EndsAs closed (closing r) = closed ≡ true
EndsAs closed (returned r) = Unit
EndsAs closed (asks r) = closed ≡ false
EndsAs closed (runs r) = ⊥
