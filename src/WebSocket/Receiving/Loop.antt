-- ===== src/WebSocket/Receiving/Loop.antt =====
-- The loop of `WebSocketClient::receivingThread` (src/WebSocketClient.cc), with fuel.
use libnavajo.Base.{
  Bool, false, [], ◌∷◌, ◌||◌, ◌==◌, ℕ, zero, suc, ◌-◌, List, ◌++◌, Option, none, some, ltb,
  if◌then◌else◌, Bytes, length, drop,
}
use libnavajo.WebSocket.Receiving.Endpoints.{Endpoint}
use libnavajo.WebSocket.Receiving.Pieces.{fill}
use libnavajo.WebSocket.Receiving.{decode}
use libnavajo.WebSocket.Receiving.Receivers.{Receiver, Flow, goes_on, closes}

-- `BUFSIZE`.
abbrev pub bufsize : ℕ
bufsize = 32768

-- How much one round reads, and what `readLength` is then.
abbrev pub round_length : ℕ → ℕ
round_length n = if ltb bufsize n then bufsize else n

abbrev pub left_length : ℕ → ℕ
left_length n = if ltb bufsize n then n - bufsize else n

-- The bytes that were read stand at the start of the buffer.
abbrev pub received : Bytes → Receiver → Receiver
received bs r = record r {
  buffer_recv = bs ++ drop (length bs) r.buffer_recv;
  read_length = left_length r.read_length;
}

abbrev pub decoded : Endpoint → Receiver → Option (Bytes × List Bytes) → Option (Flow × List Bytes)
decoded ep r none = none
decoded ep r (some (bs, ps)) = some (decode ep bs r.decod_step (received bs r), ps)

-- One round of the loop; `none` where the bytes are used up before its end.
unfoldable pub round : Endpoint → Receiver → List Bytes → Option (Flow × List Bytes)
unfolding decode fill
round ep r ps = decoded ep r (fill (round_length r.read_length) ps)

-- `ENOTCONN`, `EBADF` and `ECONNRESET` of Linux.
abbrev pub closes_on : ℕ → Bool
closes_on errno = errno == 107 || (errno == 9 || errno == 104)

-- After the last byte each call of `recv` fails, or gives 0, with such a value in `errno`: one of the three
-- sets `closing`, after any other the loop asks again.
unfoldable pub sets_closing : List ℕ → Bool
sets_closing [] = false
sets_closing (errno ∷ errors) = closes_on errno || sets_closing errors

-- How far the thread has come: it has set `closing`, or has called `closeRecv` and returned, or still
-- asks for bytes behind the last one. `runs` stands for a loop that has not come there after so many
-- rounds.
pub data Ending : Type 0 where
  closing returned asks : Receiver → Ending
  runs : Receiver → Ending

-- The loop on the bytes that come, and on the failures behind them.
unfoldable pub receive : ℕ → Endpoint → Receiver → List Bytes → List ℕ → Ending
unfolding round sets_closing
receive zero ep r ps errors = runs r
receive (suc n) ep r ps errors = elim (round ep r ps) [
  | none ↦ if sets_closing errors then closing r else asks r
  | some (goes_on r', qs) ↦ receive n ep r' qs errors
  | some (closes r', qs) ↦ returned r'
]
