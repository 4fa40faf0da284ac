-- ===== src/WebSocket/Receiving/Receivers.antt =====
-- The local variables of `WebSocketClient::receivingThread` (src/WebSocketClient.cc), and the decoding of
-- the header of a frame.
use libnavajo.Base.{
  ℕ, ◌/◌, ◌%◌, Bool, false, not, List, [], ◌∷◌, ◌++◌, Option, none, some, ◌==◌, if◌then◌else◌,
  Bytes, take, get_or,
}
use libnavajo.WebSocket.Bits.{number_of}
use libnavajo.WebSocket.Receiving.Endpoints.{Endpoint, Event, close_recv}

-- `MsgDecodSteps`.
pub data MsgDecodStep : Type 0 where
  first_byte_step length_step mask_step content_step : MsgDecodStep

-- The local variables of the thread. `msg_content` holds the bytes written so far to the memory
-- allocated for the message, `none` for a null pointer; `inflated` the compressed messages so far,
-- which the dictionary of zlib comes from; `events` the calls the thread has made.
pub record Receiver : Type 0 where
  pub buffer_recv : Bytes
  pub msg_length : ℕ
  pub msg_content_it : ℕ
  pub msg_mask : Bool
  pub msg_keys : Bytes
  pub msg_content : Option Bytes
  pub fragmented : Bool
  pub fragmented_opcode : ℕ
  pub fragmented_payload : Bytes
  pub fin : Bool
  pub rsv : ℕ
  pub opcode : ℕ
  pub read_length : ℕ
  pub decod_step : MsgDecodStep
  pub inflated : List Bytes
  pub events : List Event

-- At the start of the loop, with what the stack holds in the buffer.
abbrev pub new_receiver : Bytes → Receiver
new_receiver buffer = record {
  buffer_recv = buffer;
  msg_length = 0;
  msg_content_it = 0;
  msg_mask = false;
  msg_keys = 0 ∷ 0 ∷ 0 ∷ 0 ∷ [];
  msg_content = none;
  fragmented = false;
  fragmented_opcode = 0;
  fragmented_payload = [];
  fin = false;
  rsv = 0;
  opcode = 0;
  read_length = 1;
  decod_step = first_byte_step;
  inflated = [];
  events = [];
}

-- Either the loop goes on, or the thread has called `closeRecv` and returns.
pub data Flow : Type 0 where
  goes_on : Receiver → Flow
  closes : Receiver → Flow

abbrev pub emit : Event → Receiver → Receiver
emit e r = record r { events = r.events ++ e ∷ [] }

abbrev pub closes_recv : Receiver → Flow
closes_recv r = closes (emit close_recv r)

-- `case FIRSTBYTE`.
abbrev pub first_byte : Receiver → Receiver
first_byte r =
    let b = get_or r.buffer_recv 0 0 in
    record r {
      fin = b / 128 % 2 == 1;
      rsv = b / 16 % 8;
      opcode = b % 16;
      decod_step = length_step;
      read_length = 1;
    }

-- The end of `case LENGTH`: memory for the message, then the mask or the content is read.
abbrev pub allocate : Endpoint → Receiver → Receiver
allocate ep r = record r {
  msg_content = if ep.allocates r.msg_length then some [] else none;
  msg_content_it = 0;
  decod_step = if r.msg_mask then mask_step else content_step;
  read_length = if r.msg_mask then 4 else r.msg_length;
}

-- `case LENGTH`, the first time.
unfoldable pub short_length : Endpoint → Receiver → Flow
short_length ep r =
    let b = get_or r.buffer_recv 0 0 in
    let r' = record r { msg_mask = b / 128 % 2 == 1; msg_length = b % 128 } in
    if not (b / 128 % 2 == 1)
    then closes_recv r'
    else (if b % 128 == 0
        then goes_on (record r' {
          msg_content = none;
          msg_content_it = 0;
          decod_step = content_step;
          read_length = 0;
        })
        else (if b % 128 == 126
            then goes_on (record r' { read_length = 2 })
            else (if b % 128 == 127
                then goes_on (record r' { read_length = 8 })
                else goes_on (allocate ep r'))))

-- The two tests on the length in turn: the first one writes what the second one reads.
abbrev pub length_of_16 : Receiver → ℕ
length_of_16 r = if r.msg_length == 126 then number_of 0 (take 2 r.buffer_recv) else r.msg_length

abbrev pub length_of_64 : Receiver → ℕ → ℕ
length_of_64 r n = if n == 127 then number_of 0 (take 8 r.buffer_recv) else n

abbrev pub long_length : Endpoint → Receiver → Flow
long_length ep r = goes_on (allocate ep (record r { msg_length = length_of_64 r (length_of_16 r) }))

-- `case MASK`.
abbrev pub read_mask : Receiver → Receiver
read_mask r = record r {
  msg_keys = take 4 r.buffer_recv;
  read_length = r.msg_length;
  decod_step = content_step;
}
