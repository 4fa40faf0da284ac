-- ===== src/WebSocket/Receiving/Messages.antt =====
-- Messages in one frame or in several, in `WebSocketClient::receivingThread` (src/WebSocketClient.cc).
use libnavajo.Base.{
  ℕ, ◌<◌, ◌≡◌, subst, ◌∙◌, inl, inr, ◌⊎◌, Bool, true, false, List, [], ◌∷◌, ◌++◌, Bytes, arith,
  joined, append_assoc, append-nil,
}
use libnavajo.WebSocket.Receiving.Endpoints.{Endpoint, Event}
use libnavajo.WebSocket.Receiving.Rounds.{finished}
use libnavajo.WebSocket.Receiving.Runs.{Reads, follow}
use libnavajo.WebSocket.Receiving.Headers.{IsFrame, IsIdle, frame_bytes}
use libnavajo.WebSocket.Receiving.Frames.{of_frame, frame-ReadsContent}
use libnavajo.WebSocket.Receiving.Receivers.{Receiver, goes_on}
use libnavajo.WebSocket.Receiving.Parts.{
  Part, IsPart, frame, message_bytes, AreParts, contents, handler, IsClear, IsPending, Comes,
  last_continuation, more_continuation, whole_message, first_fragment,
}

-- After some rounds the thread is in such a state, and `rest` is left.
pub record Arrives (ep : Endpoint) (r : Receiver) (ps : List Bytes) (P : Receiver → Type 0)
    (rest : Bytes) : Type 0 where
  pub next : Receiver
  pub reads : Reads ep r ps (goes_on next) rest
  pub holds : P next

frame-IsFrame :
    (ep : Endpoint) (last : Bool) (code : ℕ) (x : Part)
    → code < 16
    → IsPart ep x
    → IsFrame (frame last code x)
frame-IsFrame ep last code x c h = record {
  reserved_bits = omega arith;
  code_bits = c;
  four_keys = h.four_keys;
  are_bytes = h.are_bytes;
  fits = h.fits;
}

frame-Arrives :
    (ep : Endpoint) (r : Receiver) (last : Bool) (code : ℕ) (x : Part) (rest : Bytes)
    (ps : List Bytes) (P : Receiver → Type 0)
    → code < 16
    → IsPart ep x
    → IsIdle r
    → joined ps ≡ frame_bytes (frame last code x) ++ rest
    → ((buffer : Bytes) (left : ℕ)
        → Comes P (finished ep (of_frame r (frame last code x)) x.content buffer left))
    → Arrives ep r ps P rest
frame-Arrives ep r last code x rest ps P c h idle e come =
    let got =
      frame-ReadsContent ep r (frame last code x) rest ps idle (frame-IsFrame ep last code x c h)
        h.some_bytes h.not_127 h.allocated e in
    let to = come got.buffer got.left in
    record {
      next = to.next;
      reads = subst (λ f. Reads ep r ps f rest) to.goes got.reads;
      holds = to.holds;
    }

then_Arrives :
    (ep : Endpoint) (r : Receiver) (ps : List Bytes) (P Q : Receiver → Type 0) (rest end : Bytes)
    (one : Arrives ep r ps P rest)
    → Arrives ep one.next one.reads.left Q end
    → Arrives ep r ps Q end
then_Arrives ep r ps P Q rest end one two = record {
  next = two.next;
  reads = follow one.reads two.reads;
  holds = two.holds;
}

continuations-Arrives :
    (ep : Endpoint) (r : Receiver) (code : ℕ) (p : Bytes) (x : Part) (xs : List Part)
    (es : List Event) (rest : Bytes) (ps : List Bytes)
    → ep.uses_zlib ≡ false
    → (code ≡ 1) ⊎ (code ≡ 2)
    → IsPart ep x
    → AreParts ep xs
    → IsPending r code p es
    → joined ps ≡ message_bytes 0 x xs ++ rest
    → Arrives ep r ps (λ r'. IsClear r' (es ++ handler code (p ++ contents (x ∷ xs)) ∷ [])) rest
continuations-Arrives ep r code p x [] es rest ps plain coded h hs pend e =
    frame-Arrives ep r true 0 x rest ps
      (λ r'. IsClear r' (es ++ handler code (p ++ contents (x ∷ [])) ∷ [])) (omega arith) h
      pend.idle e
      (λ buffer left.
        rw (append-nil x.content) (last_continuation ep plain r x buffer left code p es pend coded))
continuations-Arrives ep r code p x (y ∷ ys) es rest ps plain coded h hs pend e =
    let one =
      frame-Arrives ep r false 0 x (message_bytes 0 y ys ++ rest) ps
        (λ r'. IsPending r' code (p ++ x.content) es) (omega arith) h pend.idle
        (e ∙ append_assoc (frame_bytes (frame false 0 x)) (message_bytes 0 y ys) rest)
        (λ buffer left. more_continuation ep plain r x buffer left code p es pend) in
    let two =
      continuations-Arrives ep one.next code (p ++ x.content) y ys es rest one.reads.left plain
        coded hs.0 hs.1 one.holds one.reads.is_rest in
    then_Arrives ep r ps _ _ _ rest one (
      subst
        (λ b.
          Arrives ep one.next one.reads.left (λ r'. IsClear r' (es ++ handler code b ∷ [])) rest)
        (append_assoc p x.content (contents (y ∷ ys))) two)

-- A text or binary message that comes in one frame or in several, with no message pending and without
-- compression, is handed to its handler once, as the contents of its frames joined, however the
-- socket cuts the bytes; after it no message is pending and the bytes that follow are left. The
-- contents are not empty and not of 127 bytes, and memory is there for each.
pub message-Arrives :
    (ep : Endpoint) (r : Receiver) (code : ℕ) (x : Part) (xs : List Part) (es : List Event)
    (rest : Bytes) (ps : List Bytes)
    → ep.uses_zlib ≡ false
    → (code ≡ 1) ⊎ (code ≡ 2)
    → AreParts ep (x ∷ xs)
    → IsClear r es
    → joined ps ≡ message_bytes code x xs ++ rest
    → Arrives ep r ps (λ r'. IsClear r' (es ++ handler code (contents (x ∷ xs)) ∷ [])) rest
message-Arrives ep r code x [] es rest ps plain coded h clear e =
    frame-Arrives ep r true code x rest ps
      (λ r'. IsClear r' (es ++ handler code (contents (x ∷ [])) ∷ []))
      (elim coded [ inl c ↦ omega (arith, c) | inr c ↦ omega (arith, c) ]) h.0 clear.idle e
      (λ buffer left.
        rw (append-nil x.content) (whole_message ep plain r x buffer left code es clear coded))
message-Arrives ep r code x (y ∷ ys) es rest ps plain coded h clear e =
    let one =
      frame-Arrives ep r false code x (message_bytes 0 y ys ++ rest) ps
        (λ r'. IsPending r' code x.content es)
        (elim coded [ inl c ↦ omega (arith, c) | inr c ↦ omega (arith, c) ]) h.0 clear.idle
        (e ∙ append_assoc (frame_bytes (frame false code x)) (message_bytes 0 y ys) rest)
        (λ buffer left. first_fragment ep plain r x buffer left code es clear coded) in
    then_Arrives ep r ps _ _ _ rest one (
      continuations-Arrives ep one.next code x.content y ys es rest one.reads.left plain coded h.1.0
        h.1.1 one.holds one.reads.is_rest)
