-- ===== src/WebSocket/Receiving/Frames.antt =====
-- The frame of a client, as RFC 6455 lays it out, in `WebSocketClient::receivingThread`
-- (src/WebSocketClient.cc).
use libnavajo.Base.{
  suc, ◌<◌, ◌≡◌, ◌≢◌, refl, ap, subst, ◌∙◌, true, List, [], ◌∷◌, ◌++◌, Bytes, arith, length, drop,
  joined, append_assoc,
}
use libnavajo.WebSocket.Bits.{unmask, unmask_twice, length-unmask}
use libnavajo.WebSocket.Receiving.Endpoints.{Endpoint}
use libnavajo.WebSocket.Receiving.Pieces.{take_start}
use libnavajo.WebSocket.Receiving.Rounds.{
  at_content, finished, buffered, ReadsContent, content-ReadsContent,
}
use libnavajo.WebSocket.Receiving.Runs.{Reads, one_round, follow}
use libnavajo.WebSocket.Receiving.{decode}
use libnavajo.WebSocket.Receiving.Receivers.{Receiver, goes_on}
use libnavajo.WebSocket.Receiving.Headers.{
  Frame, IsFrame, IsIdle, frame_bytes, first_of, length_bytes, at_mask, first_byte-Reads,
  length-Reads,
}

-- The message of a frame, as the dispatch of the code sees it.
abbrev pub of_frame : Receiver → Frame → Receiver
of_frame r f = record r {
  fin = f.is_final;
  rsv = f.reserved;
  opcode = f.code;
  msg_length = length f.content;
  msg_keys = f.keys;
}

-- A frame that a client masks is decoded to its parts, whatever the pieces it comes in: from between
-- two messages, if the frame is well formed, its content is not empty and not of 127 bytes, and memory
-- is there, some rounds read exactly the bytes of the frame, and hand its content, unmasked, to the
-- dispatch.
pub frame-ReadsContent :
    (ep : Endpoint) (r : Receiver) (f : Frame) (rest : Bytes) (ps : List Bytes)
    → IsIdle r
    → IsFrame f
    → 0 < length f.content
    → length f.content ≢ 127
    → ep.allocates (length f.content) ≡ true
    → joined ps ≡ frame_bytes f ++ rest
    → ReadsContent ep (of_frame r f) r ps f.content rest
unfolding decode
frame-ReadsContent ep r f rest ps idle h pos odd got e =
    let n = length f.content in
    let coded = unmask f.keys 0 f.content in
    let tail = coded ++ rest in
    let one = first_byte-Reads ep r f (length_bytes n ++ (f.keys ++ tail)) ps h idle (
      e
      ∙ ap (λ x. first_of f ∷ x)
          (append_assoc (length_bytes n) (f.keys ++ coded) rest
            ∙ ap (λ x. length_bytes n ++ x) (append_assoc f.keys coded rest))) in
    let two =
      length-Reads ep r f n (buffered (first_of f ∷ []) r.buffer_recv) (f.keys ++ tail) r.msg_mask
        one.left pos odd h.fits got one.is_rest in
    let start = at_content (of_frame r f) [] (buffered f.keys two.buffer) n in
    let three =
      one_round ep (at_mask r f two.buffer n) f.keys tail two.reads.left (goes_on start)
        two.reads.is_rest h.four_keys
        (rw (take_start 4 f.keys (drop (length f.keys) two.buffer) h.four_keys, decode) refl) in
    let size = length-unmask f.keys 0 f.content in
    let four =
      content-ReadsContent (suc n) ep (of_frame r f) [] coded (buffered f.keys two.buffer) rest
        three.left (omega (arith, size)) (omega (arith, pos, size)) (omega (arith, size))
        three.is_rest in
    let sized =
      subst
        (λ m.
          Reads ep (at_content (of_frame r f) [] (buffered f.keys two.buffer) m) three.left
            (finished ep (of_frame r f) (unmask f.keys 0 coded) four.buffer four.left) rest)
        size four.reads in
    let unmasked =
      subst
        (λ x. Reads ep start three.left (finished ep (of_frame r f) x four.buffer four.left) rest)
        (unmask_twice f.keys 0 f.content h.are_bytes) sized in
    record {
      buffer = four.buffer;
      left = four.left;
      reads = follow one (follow two.reads (follow three unmasked));
    }
