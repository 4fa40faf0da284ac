-- ===== src/WebSocket/Receiving/Parts.antt =====
-- A part of a message and how its frame is taken, in `WebSocketClient::receivingThread`
-- (src/WebSocketClient.cc).
use libnavajo.Base.{
  ℕ, ◌<◌, ◌≡◌, ◌≢◌, refl, ap, inl, inr, ◌⊎◌, Bool, true, false, List, [], ◌∷◌, ◌++◌, ◌==◌,
  if◌then◌else◌, Bytes, AreBytes, length, take,
}
use libnavajo.WebSocket.Bits.{bytes_to}
use libnavajo.WebSocket.Receiving.Endpoints.{Endpoint, Event, on_text_message, on_binary_message}
use libnavajo.WebSocket.Receiving.Rounds.{at_content, finished}
use libnavajo.WebSocket.Receiving.Headers.{Frame, IsIdle, frame_bytes}
use libnavajo.WebSocket.Receiving.Frames.{of_frame}
use libnavajo.WebSocket.Receiving.{
  dispatch, inflate_content, data_frame, continuation_frame, next_message, payload, end_fragments,
  add_fragment,
}
use libnavajo.WebSocket.Receiving.Receivers.{Receiver, Flow, goes_on, emit}

-- A part of a message, with its mask.
pub record Part : Type 0 where
  pub keys : Bytes
  pub content : Bytes

pub record IsPart (ep : Endpoint) (x : Part) : Type 0 where
  pub four_keys : length x.keys ≡ 4
  pub are_bytes : AreBytes x.content
  pub some_bytes : 0 < length x.content
  pub not_127 : length x.content ≢ 127
  pub fits : length x.content < bytes_to 8
  pub allocated : ep.allocates (length x.content) ≡ true

abbrev pub frame : Bool → ℕ → Part → Frame
frame last code x = record {
  is_final = last;
  reserved = 0;
  code = code;
  keys = x.keys;
  content = x.content;
}

-- The frames of a message: the first has the code of the message, the others are continuations, and
-- the last is final.
abbrev pub message_bytes : ℕ → Part → List Part → Bytes
message_bytes code x [] = frame_bytes (frame true code x)
message_bytes code x (y ∷ ys) = frame_bytes (frame false code x) ++ message_bytes 0 y ys

abbrev pub AreParts : Endpoint → List Part → Type 0
AreParts ep [] = Unit
AreParts ep (x ∷ xs) = IsPart ep x × AreParts ep xs

abbrev pub contents : List Part → Bytes
contents [] = []
contents (x ∷ xs) = x.content ++ contents xs

abbrev pub handler : ℕ → Bytes → Event
handler code b = if code == 1 then on_text_message b else on_binary_message b

-- No message is pending, or one is.
pub record IsClear (r : Receiver) (es : List Event) : Type 0 where
  pub idle : IsIdle r
  pub none_pending : r.fragmented ≡ false
  pub events_are : r.events ≡ es

pub record IsPending (r : Receiver) (code : ℕ) (p : Bytes) (es : List Event) : Type 0 where
  pub idle : IsIdle r
  pub is_pending : r.fragmented ≡ true
  pub code_is : r.fragmented_opcode ≡ code
  pub payload_is : r.fragmented_payload ≡ p
  pub events_are : r.events ≡ es

pub record Comes (P : Receiver → Type 0) (f : Flow) : Type 0 where
  pub next : Receiver
  pub goes : f ≡ goes_on next
  pub holds : P next

take_whole : (bs : Bytes) → take (length bs) bs ≡ bs
take_whole [] = refl
take_whole (b ∷ bs) = ap (λ x. b ∷ x) (take_whole bs)

module _ (ep : Endpoint) (plain : ep.uses_zlib ≡ false) (r : Receiver) (x : Part) (buffer : Bytes)
    (left : ℕ) where
  -- The state in which a frame is dispatched.
  abbrev read : Bool → ℕ → Receiver
  read last code = at_content (of_frame r (frame last code x)) x.content buffer left

  pub last_continuation :
      (code : ℕ) (p : Bytes) (es : List Event)
      → IsPending r code p es
      → (code ≡ 1) ⊎ (code ≡ 2)
      → Comes
          (λ r'. IsClear r' (es ++ handler code (p ++ x.content) ∷ []))
          (finished ep (of_frame r (frame true 0 x)) x.content buffer left)
  unfolding inflate_content dispatch continuation_frame
  last_continuation code p es h coded = record {
    next = next_message (end_fragments (add_fragment (read true 0)));
    goes = rw (plain, h.is_pending) refl;
    holds = record {
      idle = record { no_step = refl; no_length = refl; one_byte = refl };
      none_pending = refl;
      events_are =
          rw (h.code_is, h.payload_is, take_whole x.content)
            (elim coded [ inl e ↦ rw (e, h.events_are) refl | inr e ↦ rw (e, h.events_are) refl ]);
    };
  }

  pub more_continuation :
      (code : ℕ) (p : Bytes) (es : List Event)
      → IsPending r code p es
      → Comes
          (λ r'. IsPending r' code (p ++ x.content) es)
          (finished ep (of_frame r (frame false 0 x)) x.content buffer left)
  unfolding inflate_content dispatch continuation_frame
  more_continuation code p es h = record {
    next = next_message (add_fragment (read false 0));
    goes = rw (plain, h.is_pending) refl;
    holds = record {
      idle = record { no_step = refl; no_length = refl; one_byte = refl };
      is_pending = h.is_pending;
      code_is = h.code_is;
      payload_is = rw (h.payload_is, take_whole x.content) refl;
      events_are = h.events_are;
    };
  }

  pub whole_message :
      (code : ℕ) (es : List Event)
      → IsClear r es
      → (code ≡ 1) ⊎ (code ≡ 2)
      → Comes
          (λ r'. IsClear r' (es ++ handler code x.content ∷ []))
          (finished ep (of_frame r (frame true code x)) x.content buffer left)
  unfolding inflate_content dispatch data_frame
  whole_message code es h coded = record {
    next = next_message (emit (handler code x.content) (read true code));
    goes = elim coded [
      | inl e ↦ rw (plain, e, h.none_pending, take_whole x.content) refl
      | inr e ↦ rw (plain, e, h.none_pending, take_whole x.content) refl
    ];
    holds = record {
      idle = record { no_step = refl; no_length = refl; one_byte = refl };
      none_pending = h.none_pending;
      events_are = rw h.events_are refl;
    };
  }

  pub first_fragment :
      (code : ℕ) (es : List Event)
      → IsClear r es
      → (code ≡ 1) ⊎ (code ≡ 2)
      → Comes
          (λ r'. IsPending r' code x.content es)
          (finished ep (of_frame r (frame false code x)) x.content buffer left)
  unfolding inflate_content dispatch data_frame
  first_fragment code es h coded = record {
    next = next_message (record (read false code) {
      fragmented = true;
      fragmented_opcode = code;
      fragmented_payload = payload (read false code);
    });
    goes = elim coded [
      | inl e ↦ rw (plain, e, h.none_pending) refl
      | inr e ↦ rw (plain, e, h.none_pending) refl
    ];
    holds = record {
      idle = record { no_step = refl; no_length = refl; one_byte = refl };
      is_pending = refl;
      code_is = refl;
      payload_is = take_whole x.content;
      events_are = h.events_are;
    };
  }
