-- ===== src/WebSocket/Sending.antt =====
-- How a WebSocket client is sent to: `sendMessage`, the sending queue and `sendingThread`
-- (src/WebSocketClient.cc, include/libnavajo/WebSocketClient.hh).
pub mod Frames
pub mod Queue
use libnavajo.Base.{
  ℕ, zero, suc, ◌+◌, ◌-◌, ◌%◌, Bool, true, false, not, ◌&&◌, ◌||◌, List, [], ◌∷◌, ◌++◌, Option,
  none, some, ltb, ◌==◌, if◌then◌else◌, Bytes, length,
}
use libnavajo.WebSocket.Bits.{network_bytes}

pub record MessageContent : Type 0 where
  pub opcode : ℕ
  pub message : Bytes
  pub fin : Bool
  pub date_ms : ℕ

-- The connection: `deflate` is zlib (`none` for an exception), `accepts` tells whether `httpSend` can
-- send a block of bytes.
pub record Connection : Type 0 where
  pub uses_zlib : Bool
  pub deflate : Bytes → Option Bytes
  pub accepts : Bytes → Bool

abbrev pub first_header : Bool → Bool → ℕ → ℕ
first_header fin zlib opcode = (if fin then 128 else 0) + ((if zlib then 64 else 0) + opcode % 16)

-- `headerBuffer`, up to `headerLen`.
abbrev pub length_header : ℕ → Bytes
length_header n =
    if ltb n 126
    then n ∷ []
    else (if not (ltb 65535 n) then 126 ∷ network_bytes 2 n else 127 ∷ network_bytes 8 n)

abbrev pub header : Bool → MessageContent → Bytes → Bytes
header zlib m msg = first_header m.fin zlib m.opcode ∷ length_header (length msg)

-- What is sent of it, block by block, and whether all was.
abbrev pub send_blocks : Connection → Bytes → Bytes → Bool × List Bytes
send_blocks c head msg =
    if c.accepts head
    then (if c.accepts msg then (true, head ∷ msg ∷ []) else (false, head ∷ []))
    else (false, [])

abbrev pub deflated : Connection → Bytes → Option Bytes
deflated c message = if c.uses_zlib then c.deflate message else some message

unfoldable pub send_message : Connection → MessageContent → Bool × List Bytes
send_message c m = elim (deflated c m.message) [
  | none ↦ (false, [])
  | some msg ↦ send_blocks c (header c.uses_zlib m msg) msg
]

-- What the two threads and the callers share of a client; `freed` lists the messages that were freed,
-- the latest first, `sent` the blocks that were sent.
pub record Client : Type 0 where
  pub sending_queue : List MessageContent
  pub closing : Bool
  pub snd_max_latency : ℕ
  pub freed : List MessageContent
  pub sent : List Bytes

unfoldable pub add_sending_queue : MessageContent → Client → Client
add_sending_queue m s =
    if not s.closing
    then record s { sending_queue = s.sending_queue ++ m ∷ [] }
    else record s { freed = m ∷ s.freed }

abbrev pub message_of : ℕ → Bytes → Bool → ℕ → MessageContent
message_of opcode message fin now = record {
  opcode = opcode;
  message = message;
  fin = fin;
  date_ms = now;
}

abbrev pub send_text_message : ℕ → Bytes → Bool → Client → Client
send_text_message now message fin = add_sending_queue (message_of 1 message fin now)

abbrev pub send_binary_message : ℕ → Bytes → Bool → Client → Client
send_binary_message now message fin = add_sending_queue (message_of 2 message fin now)

abbrev pub send_ping_ctrl_frame : ℕ → Bytes → Client → Client
send_ping_ctrl_frame now message = add_sending_queue (message_of 9 message true now)

abbrev pub send_pong_ctrl_frame : ℕ → Bytes → Client → Client
send_pong_ctrl_frame now message = add_sending_queue (message_of 10 message true now)

abbrev pub send_close_ctrl_frame : ℕ → Bytes → Client → Client
send_close_ctrl_frame now message = add_sending_queue (message_of 8 message true now)

pub free_all : List MessageContent → List MessageContent → List MessageContent
free_all [] freed = freed
free_all (m ∷ ms) freed = free_all ms (m ∷ freed)

unfoldable pub free_sending_queue : Client → Client
unfolding free_all
free_sending_queue s = record s { sending_queue = []; freed = free_all s.sending_queue s.freed }

-- What one turn of `sendingThread` comes to: it waits for a message, goes on with the next one, calls
-- `closeSend` and returns, or ends as the client is closing.
pub data Turn : Type 0 where
  waits : Turn
  goes_on close_sends ends : Client → Turn

abbrev pub popped : MessageContent → List MessageContent → List Bytes → Client → Client
popped m ms blocks s = record s { sending_queue = ms; freed = m ∷ s.freed; sent = s.sent ++ blocks }

unfoldable pub send_front : Connection → ℕ → MessageContent → List MessageContent → Client → Turn
unfolding send_message
send_front c now m ms s =
    if ltb s.snd_max_latency (now - m.date_ms)
    then close_sends (popped m ms [] s)
    else (let (ok, blocks) = send_message c m in
        if ok then goes_on (popped m ms blocks s) else close_sends (popped m ms blocks s))

-- One turn, `now` milliseconds being on the clock when the message is taken.
unfoldable pub sending_turn : Connection → ℕ → Client → Turn
unfolding send_front free_sending_queue
sending_turn c now s =
    if s.closing
    then ends (free_sending_queue s)
    else (elim s.sending_queue [ [] ↦ waits | m ∷ ms ↦ send_front c now m ms s ])
