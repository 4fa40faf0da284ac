-- ===== src/WebSocket/Receiving.antt =====
-- `WebSocketClient::receivingThread` (src/WebSocketClient.cc): the bytes of the socket are read piece by
-- piece, and decoded as frames. `recv` gives the pieces as they come; where they end, the connection
-- is closed.
pub mod Receivers
pub mod Pieces
pub mod Endpoints
pub mod Loop
pub mod Bounds
pub mod Ends
pub mod Rounds
pub mod Runs
pub mod Headers
pub mod Frames
pub mod Empty
pub mod Messages
pub mod Parts
use libnavajo.Base.{
  ℕ, zero, suc, ◌+◌, ◌-◌, ◌*◌, ◌/◌, ◌%◌, Bool, true, false, not, ◌&&◌, ◌||◌, List, [], ◌∷◌, ◌++◌,
  Option, none, some, map, ltb, ◌==◌, if◌then◌else◌, Bytes, length, take, drop, get_or,
}
use libnavajo.WebSocket.Bits.{unmask, number_of}
use Endpoints.{
  Endpoint, Event, on_text_message, on_binary_message, on_close_ctrl_frame, on_ping_ctrl_frame,
  on_pong_ctrl_frame, send_close_ctrl_frame, send_pong_ctrl_frame, close_recv,
}
use Receivers.{
  MsgDecodStep, Receiver, Flow, emit, closes_recv, first_byte, short_length, long_length, read_mask,
  goes_on, closes, first_byte_step, length_step, mask_step, content_step,
}

-- The loop of `case CONTENT` over the bytes that were read.
unfoldable pub store : Bytes → Receiver → Receiver
store bs r = elim r.msg_content [
  | none ↦ r
  | some c ↦ record r {
    msg_content = some (c ++ (if r.msg_mask then unmask r.msg_keys r.msg_content_it bs else bs));
    msg_content_it = r.msg_content_it + length bs;
  }
]

abbrev pub pointed : Option Bytes → Bytes
pointed none = []
pointed (some c) = c

-- What the handlers are given: a pointer and the length.
abbrev pub payload : Receiver → Bytes
payload r = take r.msg_length (pointed r.msg_content)

abbrev pub inflates : Endpoint → Receiver → Bool
inflates ep r = ep.uses_zlib && (r.rsv / 4 % 2 == 1)

-- `nvj_gunzip_websocket_v2`: a new content, or an exception that leaves no length.
unfoldable pub inflate_content : Endpoint → Receiver → Receiver
inflate_content ep r = elim r.msg_content [
  | none ↦ r
  | some c ↦
      if inflates ep r
      then (elim (ep.inflate r.inflated c) [
        | none ↦ record r { msg_length = 0; inflated = r.inflated ++ c ∷ [] }
        | some m ↦ record r {
          msg_content = some m;
          msg_length = length m;
          inflated = r.inflated ++ c ∷ [];
        }
      ])
      else r
]

-- A text or a binary frame.
unfoldable pub data_frame : Receiver → Flow
data_frame r =
    if r.fragmented
    then closes_recv r
    else (if not r.fin
        then goes_on (record r {
          fragmented = true;
          fragmented_opcode = r.opcode;
          fragmented_payload = payload r;
        })
        else (if r.opcode == 1
            then goes_on (emit (on_text_message (payload r)) r)
            else goes_on (emit (on_binary_message (payload r)) r)))

-- The handler for the message whose fragments are there.
abbrev pub deliver_fragments : Receiver → Receiver
deliver_fragments r =
    if r.fragmented_opcode == 1
    then emit (on_text_message r.fragmented_payload) r
    else (if r.fragmented_opcode == 2 then emit (on_binary_message r.fragmented_payload) r else r)

abbrev pub add_fragment : Receiver → Receiver
add_fragment r = record r { fragmented_payload = r.fragmented_payload ++ payload r }

abbrev pub end_fragments : Receiver → Receiver
end_fragments r = record (deliver_fragments r) {
  fragmented = false;
  fragmented_opcode = 0;
  fragmented_payload = [];
}

unfoldable pub continuation_frame : Receiver → Flow
continuation_frame r =
    if not r.fragmented
    then closes_recv r
    else (if r.fin then goes_on (end_fragments (add_fragment r)) else goes_on (add_fragment r))

unfoldable pub close_frame : Endpoint → Receiver → Flow
close_frame ep r =
    let r' = emit (on_close_ctrl_frame (payload r)) r in
    if ep.replies_close (payload r)
    then closes_recv (emit (send_close_ctrl_frame (payload r)) r')
    else goes_on r'

unfoldable pub ping_frame : Endpoint → Receiver → Receiver
ping_frame ep r =
    let r' = emit (on_ping_ctrl_frame (payload r)) r in
    if ep.replies_ping (payload r) then emit (send_pong_ctrl_frame (payload r)) r' else r'

-- The switch on the opcode, after the test on control frames.
unfoldable pub dispatch : Endpoint → Receiver → Flow
unfolding data_frame continuation_frame close_frame ping_frame
dispatch ep r =
    let op = r.opcode in
    if ((op == 8) || ((op == 9) || (op == 10))) && (not r.fin || ltb 125 r.msg_length)
    then closes_recv r
    else (if (op == 1) || (op == 2)
        then data_frame r
        else (if op == 0
            then continuation_frame r
            else (if op == 8
                then close_frame ep r
                else (if op == 9
                    then goes_on (ping_frame ep r)
                    else (if op == 10
                        then goes_on (emit (on_pong_ctrl_frame (payload r)) r)
                        else goes_on r)))))

-- The variables of a message are as at the start again.
abbrev pub next_message : Receiver → Receiver
next_message r = record r {
  fin = false;
  rsv = 0;
  opcode = 0;
  msg_length = 0;
  msg_content_it = 0;
  msg_mask = false;
  msg_keys = 0 ∷ 0 ∷ 0 ∷ 0 ∷ [];
  msg_content = none;
  read_length = 1;
  decod_step = first_byte_step;
}

abbrev pub then_next : Flow → Flow
then_next (goes_on r) = goes_on (next_message r)
then_next (closes r) = closes r

-- `case CONTENT`.
unfoldable pub read_content : Endpoint → Bytes → Receiver → Flow
unfolding store inflate_content dispatch
read_content ep bs r =
    let r' = store bs r in
    if r'.msg_content_it == r'.msg_length
    then then_next (dispatch ep (inflate_content ep r'))
    else goes_on r'

-- The switch on the step, with the bytes that were just read.
unfoldable pub decode : Endpoint → Bytes → MsgDecodStep → Receiver → Flow
unfolding short_length read_content
decode ep bs first_byte_step r = goes_on (first_byte r)
decode ep bs length_step r = if r.msg_length == 0 then short_length ep r else long_length ep r
decode ep bs mask_step r = goes_on (read_mask r)
decode ep bs content_step r = read_content ep bs r
