-- ===== src/WebSocket/Tests.antt =====
-- Runs of the WebSocket code, and the theorems at inputs.
use libnavajo.Base.{
  ltb, ◌≡◌, refl, true, false, List, [], ◌∷◌, ◌++◌, some, none, Bytes, codes, arith, inl,
}
use libnavajo.WebSocket.Bits.{unmask, xor, bytes_to}
use libnavajo.WebSocket.Receiving.Endpoints.{
  Endpoint, Event, on_text_message, on_ping_ctrl_frame, send_pong_ctrl_frame, close_recv,
}
use libnavajo.WebSocket.Receiving.Loop.{round, Ending, closing, returned, asks, runs, receive}
use libnavajo.WebSocket.Receiving.Bounds.{IsReceiving, round-IsReceiving}
use libnavajo.WebSocket.Receiving.Rounds.{ReadsContent}
use libnavajo.WebSocket.Receiving.Headers.{Frame, IsFrame, IsIdle, frame_bytes, first_of}
use libnavajo.WebSocket.Receiving.Frames.{of_frame, frame-ReadsContent}
use libnavajo.WebSocket.Receiving.Empty.{ReadsEmpty, empty_frame-ReadsEmpty}
use libnavajo.WebSocket.Receiving.Messages.{Arrives, message-Arrives}
use libnavajo.WebSocket.Receiving.Parts.{Part, AreParts, message_bytes, contents, handler, IsClear}
use libnavajo.WebSocket.Receiving.Receivers.{length_step, Receiver, new_receiver, goes_on}

-- Memory for a million bytes, and no compression.
abbrev endpoint : Endpoint
endpoint = record {
  allocates = λ n. ltb n 1000000;
  uses_zlib = false;
  inflate = λ before m. none;
  replies_close = λ b. true;
  replies_ping = λ b. true;
}

abbrev idle : Receiver
idle = new_receiver []

abbrev events_of : Ending → List Event
events_of (closing r) = r.events
events_of (returned r) = r.events
events_of (asks r) = r.events
events_of (runs r) = r.events

abbrev keys : Bytes
keys = 1 ∷ 2 ∷ 3 ∷ 4 ∷ []

-- "Hi" and "there", in two frames.
abbrev two_frames : Bytes
two_frames =
    message_bytes 1 (record { keys = keys; content = codes "Hi " })
      (record { keys = keys; content = codes "there" } ∷ [])

hears :
    events_of (receive 20 endpoint idle (two_frames ∷ []) [])
    ≡ on_text_message (codes "Hi there") ∷ []
unfolding receive unmask xor
hears = refl

-- A ping without content: its mask is taken for a frame, without a mask, and the connection closed.
empty_ping :
    events_of (receive 20 endpoint idle ((137 ∷ 128 ∷ keys) ∷ []) [])
    ≡ on_ping_ctrl_frame [] ∷ send_pong_ctrl_frame [] ∷ close_recv ∷ []
unfolding receive
empty_ping = refl

idle-IsIdle : IsIdle idle
idle-IsIdle = record { no_step = refl; no_length = refl; one_byte = refl }

abbrev hi : Frame
hi = record { is_final = true; reserved = 0; code = 1; keys = keys; content = codes "Hi" }

hi-IsFrame : IsFrame hi
unfolding bytes_to
hi-IsFrame = record {
  reserved_bits = omega arith;
  code_bits = omega arith;
  four_keys = refl;
  are_bytes = (omega arith, (omega arith, tt));
  fits = omega arith;
}

frame-ReadsContent_example :
    ReadsContent endpoint (of_frame idle hi) idle (frame_bytes hi ∷ []) (codes "Hi") []
frame-ReadsContent_example =
    frame-ReadsContent endpoint idle hi [] (frame_bytes hi ∷ []) idle-IsIdle hi-IsFrame
      (omega arith) (λ e. omega (arith, e)) refl refl

empty_frame-ReadsEmpty_example :
    ReadsEmpty endpoint idle hi ((first_of hi ∷ 128 ∷ keys) ∷ []) (keys ++ [])
empty_frame-ReadsEmpty_example =
    empty_frame-ReadsEmpty endpoint idle hi [] ((first_of hi ∷ 128 ∷ keys) ∷ []) idle-IsIdle
      hi-IsFrame refl

abbrev part1 : Part
part1 = record { keys = keys; content = codes "Hi " }

abbrev part2 : Part
part2 = record { keys = keys; content = codes "there" }

parts : AreParts endpoint (part1 ∷ part2 ∷ [])
unfolding bytes_to
parts = (
  record {
    four_keys = refl;
    are_bytes = (omega arith, (omega arith, (omega arith, tt)));
    some_bytes = omega arith;
    not_127 = λ e. omega (arith, e);
    fits = omega arith;
    allocated = refl;
  },
  (
    record {
      four_keys = refl;
      are_bytes = (omega arith, (omega arith, (omega arith, (omega arith, (omega arith, tt)))));
      some_bytes = omega arith;
      not_127 = λ e. omega (arith, e);
      fits = omega arith;
      allocated = refl;
    },
    tt,
  ),
)

message-Arrives_example :
    Arrives endpoint idle
      (message_bytes 1 part1 (part2 ∷ []) ∷ [])
      (λ r'. IsClear r' ([] ++ handler 1 (contents (part1 ∷ part2 ∷ [])) ∷ []))
      []
message-Arrives_example =
    message-Arrives endpoint idle 1 part1 (part2 ∷ []) [] []
      (message_bytes 1 part1 (part2 ∷ []) ∷ []) refl (inl refl) parts
      (record { idle = idle-IsIdle; none_pending = refl; events_are = refl }) refl

abbrev second : Receiver
second = record idle {
  fin = true;
  opcode = 1;
  buffer_recv = 129 ∷ [];
  decod_step = length_step;
  read_length = 1;
}

first_round : round endpoint idle ((129 ∷ []) ∷ []) ≡ some (goes_on second, [] ∷ [])
unfolding round
first_round = refl

round-IsReceiving_example : IsReceiving second
round-IsReceiving_example =
    round-IsReceiving endpoint idle ((129 ∷ []) ∷ []) second ([] ∷ []) (omega arith, refl)
      first_round
