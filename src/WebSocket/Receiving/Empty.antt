-- ===== src/WebSocket/Receiving/Empty.antt =====
-- What `WebSocketClient::receivingThread` (src/WebSocketClient.cc) makes of a frame without content.
use libnavajo.Base.{ℕ, ◌≡◌, refl, Bool, true, List, [], ◌∷◌, ◌++◌, none, Bytes, joined}
use libnavajo.WebSocket.Receiving.Endpoints.{Endpoint}
use libnavajo.WebSocket.Receiving.Rounds.{buffered}
use libnavajo.WebSocket.Receiving.Runs.{Reads, one_round, follow}
use libnavajo.WebSocket.Receiving.{
  decode, read_content, store, then_next, dispatch, inflate_content,
}
use libnavajo.WebSocket.Receiving.Receivers.{Receiver, content_step, goes_on, short_length}
use libnavajo.WebSocket.Receiving.Headers.{
  Frame, IsFrame, IsIdle, first_of, at_length, first_byte-Reads,
}

-- The message of an empty frame: there is no content.
abbrev pub empty_message : Receiver → Bool → ℕ → ℕ → Bytes → ℕ → Receiver
empty_message r last reserved code buffer left = record r {
  fin = last;
  rsv = reserved;
  opcode = code;
  decod_step = content_step;
  msg_length = 0;
  msg_mask = true;
  msg_content = none;
  msg_content_it = 0;
  buffer_recv = buffer;
  read_length = left;
}

pub record ReadsEmpty (ep : Endpoint) (r : Receiver) (f : Frame) (ps : List Bytes) (rest : Bytes)
    : Type 0 where
  pub buffer : Bytes
  pub reads :
      Reads ep r ps
        (then_next (dispatch ep (empty_message r f.is_final f.reserved f.code buffer 0)))
        rest

-- An empty frame with a mask is dispatched before its mask is read: the four bytes of the mask are
-- left, and the next round reads them as the start of a frame.
pub empty_frame-ReadsEmpty :
    (ep : Endpoint) (r : Receiver) (f : Frame) (rest : Bytes) (ps : List Bytes)
    → IsIdle r
    → IsFrame f
    → joined ps ≡ first_of f ∷ 128 ∷ f.keys ++ rest
    → ReadsEmpty ep r f ps (f.keys ++ rest)
unfolding decode short_length read_content store inflate_content
empty_frame-ReadsEmpty ep r f rest ps idle h e =
    let b = buffered (first_of f ∷ []) r.buffer_recv in
    let one = first_byte-Reads ep r f (128 ∷ f.keys ++ rest) ps h idle e in
    let two =
      one_round ep (at_length r f b 0 r.msg_mask 1) (128 ∷ []) (f.keys ++ rest) one.left
        (goes_on (empty_message r f.is_final f.reserved f.code (buffered (128 ∷ []) b) 0))
        one.is_rest refl refl in
    let three =
      one_round ep (empty_message r f.is_final f.reserved f.code (buffered (128 ∷ []) b) 0) []
        (f.keys ++ rest) two.left
        (then_next
          (dispatch ep (empty_message r f.is_final f.reserved f.code (buffered (128 ∷ []) b) 0)))
        two.is_rest refl refl in
    record { buffer = buffered (128 ∷ []) b; reads = follow one (follow two three) }
