-- ===== src/WebSocket/Receiving/Headers.antt =====
-- A frame of a client, as RFC 6455 lays it out, and how `WebSocketClient::receivingThread`
-- (src/WebSocketClient.cc) reads its first byte and its length.
use libnavajo.Base.{
  ℕ, ◌+◌, ◌*◌, ◌/◌, ◌%◌, ◌<◌, ◌≡◌, ◌≢◌, refl, ap, ◌∙◌, inl, inr, Bool, true, false, List, [], ◌∷◌,
  ◌++◌, some, ltb, ◌==◌, eq_is_true, eq_is_false, ltb_is_less, if◌then◌else◌, Bytes, AreBytes,
  Bool-cases, arith, length, take, drop, joined,
}
use libnavajo.WebSocket.Bits.{
  unmask, network_bytes, number_of, number_of-network_bytes, length-network_bytes, bytes_to,
}
use libnavajo.WebSocket.Receiving.Endpoints.{Endpoint}
use libnavajo.WebSocket.Receiving.Pieces.{take_start}
use libnavajo.WebSocket.Receiving.Loop.{received}
use libnavajo.WebSocket.Receiving.Rounds.{buffered}
use libnavajo.WebSocket.Receiving.Runs.{Reads, one_round, follow}
use libnavajo.WebSocket.Receiving.{decode}
use libnavajo.WebSocket.Receiving.Receivers.{
  Receiver, first_byte_step, length_step, mask_step, Flow, goes_on, short_length, allocate,
  length_of_16, length_of_64,
}

abbrev pub bit : Bool → ℕ
bit true = 1
bit false = 0

pub record Frame : Type 0 where
  pub is_final : Bool
  pub reserved : ℕ
  pub code : ℕ
  pub keys : Bytes
  pub content : Bytes

-- The length, with the bit that says that a mask follows.
abbrev pub length_bytes : ℕ → Bytes
length_bytes n =
    if ltb n 126
    then (128 + n) ∷ []
    else (if ltb n 65536 then 254 ∷ network_bytes 2 n else 255 ∷ network_bytes 8 n)

abbrev pub first_of : Frame → ℕ
first_of f = 128 * bit f.is_final + (16 * f.reserved + f.code)

abbrev pub frame_bytes : Frame → Bytes
frame_bytes f =
    first_of f ∷ (length_bytes (length f.content) ++ (f.keys ++ unmask f.keys 0 f.content))

pub record IsFrame (f : Frame) : Type 0 where
  pub reserved_bits : f.reserved < 8
  pub code_bits : f.code < 16
  pub four_keys : length f.keys ≡ 4
  pub are_bytes : AreBytes f.content
  pub fits : length f.content < bytes_to 8

-- Between two messages.
pub record IsIdle (r : Receiver) : Type 0 where
  pub no_step : r.decod_step ≡ first_byte_step
  pub no_length : r.msg_length ≡ 0
  pub one_byte : r.read_length ≡ 1

-- The first byte is read.
abbrev pub at_length : Receiver → Frame → Bytes → ℕ → Bool → ℕ → Receiver
at_length r f buffer n masked left = record r {
  fin = f.is_final;
  rsv = f.reserved;
  opcode = f.code;
  decod_step = length_step;
  msg_length = n;
  msg_mask = masked;
  buffer_recv = buffer;
  read_length = left;
}

first_byte-bits :
    (f : Frame)
    → IsFrame f
    → ((first_of f / 128 % 2 == 1) ≡ f.is_final)
      × (first_of f / 16 % 8 ≡ f.reserved)
      × (first_of f % 16 ≡ f.code)
first_byte-bits f h = elim (Bool-cases f.is_final) [
  | inl final ↦ rw final (
    eq_is_true _ 1 (omega (arith, h.reserved_bits, h.code_bits)),
    omega (arith, h.reserved_bits, h.code_bits),
    omega (arith, h.code_bits),
  )
  | inr more ↦ rw more (
    eq_is_false _ 1 (λ z. omega (arith, h.reserved_bits, h.code_bits, z)),
    omega (arith, h.reserved_bits, h.code_bits),
    omega (arith, h.code_bits),
  )
]

pub first_byte-Reads :
    (ep : Endpoint) (r : Receiver) (f : Frame) (rest : Bytes) (ps : List Bytes)
    → IsFrame f
    → IsIdle r
    → joined ps ≡ first_of f ∷ rest
    → Reads ep r ps
        (goes_on (at_length r f (buffered (first_of f ∷ []) r.buffer_recv) 0 r.msg_mask 1))
        rest
unfolding decode
first_byte-Reads ep r f rest ps h idle e =
    let (b1, b2, b3) = first_byte-bits f h in
    one_round ep r (first_of f ∷ []) rest ps _ e (rw idle.one_byte refl)
      (rw (idle.no_step, decode, b1, b2, b3, idle.no_length) refl)

-- The length is read, and memory is there.
abbrev pub at_mask : Receiver → Frame → Bytes → ℕ → Receiver
at_mask r f buffer n = record (at_length r f buffer n true 4) {
  decod_step = mask_step;
  msg_content = some [];
  msg_content_it = 0;
}

pub record ReadsLength (ep : Endpoint) (r : Receiver) (f : Frame) (n : ℕ) (start : Receiver)
    (ps : List Bytes) (rest : Bytes) : Type 0 where
  pub buffer : Bytes
  pub reads : Reads ep start ps (goes_on (at_mask r f buffer n)) rest

-- A length below 126 is in one byte; 126 and 127 there announce two and eight bytes more.
short_byte :
    (ep : Endpoint) (r : Receiver) (f : Frame) (n : ℕ) (buffer : Bytes) (masked : Bool)
    → 0 < n
    → n < 126
    → ep.allocates n ≡ true
    → short_length ep (at_length r f ((128 + n) ∷ buffer) 0 masked 1)
      ≡ goes_on (at_mask r f ((128 + n) ∷ buffer) n)
unfolding short_length
short_byte ep r f n buffer masked pos small got =
    let m : ((128 + n) / 128 % 2 == 1) ≡ true = eq_is_true _ 1 (omega (arith, small)) in
    let l : (128 + n) % 128 ≡ n = omega (arith, small) in
    rw
      (
        m,
        l,
        eq_is_false n 0 (λ z. omega (arith, z, pos)),
        eq_is_false n 126 (λ z. omega (arith, z, small)),
        eq_is_false n 127 (λ z. omega (arith, z, small)),
        got,
      )
      refl

abbrev long_flow : Endpoint → Receiver → ℕ → Flow
long_flow ep r n = goes_on (allocate ep (record r { msg_length = n }))

allocated :
    (ep : Endpoint) (r : Receiver) (f : Frame) (n m left : ℕ) (buffer : Bytes)
    → ep.allocates n ≡ true
    → long_flow ep (at_length r f buffer m true left) n ≡ goes_on (at_mask r f buffer n)
allocated ep r f n m left buffer got = rw got refl

two_bytes :
    (ep : Endpoint) (r : Receiver) (f : Frame) (n : ℕ) (buffer : Bytes)
    → n < 65536
    → n ≢ 127
    → ep.allocates n ≡ true
    → let bs = network_bytes 2 n in
      decode ep bs length_step (received bs (at_length r f buffer 126 true 2))
      ≡ goes_on (at_mask r f (buffered bs buffer) n)
unfolding decode bytes_to
two_bytes ep r f n buffer small odd got =
    let bs = network_bytes 2 n in
    let r' = at_length r f (buffered bs buffer) 126 true 2 in
    let read : length_of_16 r' ≡ n =
      ap (number_of 0) (take_start 2 bs (drop (length bs) buffer) (length-network_bytes 2 n))
      ∙ number_of-network_bytes 2 n small in
    ap (λ m. long_flow ep r' (length_of_64 r' m)) read
    ∙ ap (λ b. long_flow ep r' (if b then number_of 0 (take 8 (buffered bs buffer)) else n))
        (eq_is_false n 127 odd)
    ∙ allocated ep r f n 126 2 (buffered bs buffer) got

eight_bytes :
    (ep : Endpoint) (r : Receiver) (f : Frame) (n : ℕ) (buffer : Bytes)
    → n < bytes_to 8
    → ep.allocates n ≡ true
    → let bs = network_bytes 8 n in
      decode ep bs length_step (received bs (at_length r f buffer 127 true 8))
      ≡ goes_on (at_mask r f (buffered bs buffer) n)
unfolding decode
eight_bytes ep r f n buffer fits got =
    let bs = network_bytes 8 n in
    let r' = at_length r f (buffered bs buffer) 127 true 8 in
    let read : number_of 0 (take 8 (buffered bs buffer)) ≡ n =
      ap (number_of 0) (take_start 8 bs (drop (length bs) buffer) (length-network_bytes 8 n))
      ∙ number_of-network_bytes 8 n fits in
    ap (long_flow ep r') read ∙ allocated ep r f n 127 8 (buffered bs buffer) got

pub length-Reads :
    (ep : Endpoint) (r : Receiver) (f : Frame) (n : ℕ) (buffer rest : Bytes) (masked : Bool)
    (ps : List Bytes)
    → 0 < n
    → n ≢ 127
    → n < bytes_to 8
    → ep.allocates n ≡ true
    → joined ps ≡ length_bytes n ++ rest
    → ReadsLength ep r f n (at_length r f buffer 0 masked 1) ps rest
unfolding decode short_length
length-Reads ep r f n buffer rest masked ps pos odd fits got e = elim (Bool-cases (ltb n 126)) [
  | inl small ↦ record {
    buffer = buffered ((128 + n) ∷ []) buffer;
    reads =
        one_round ep (at_length r f buffer 0 masked 1) ((128 + n) ∷ []) rest ps _ (rw small at e)
          refl (short_byte ep r f n (drop 1 buffer) masked pos (ltb_is_less n 126 small) got);
  }
  | inr big ↦ elim (Bool-cases (ltb n 65536)) [
    | inl two ↦
        let h : joined ps ≡ 254 ∷ network_bytes 2 n ++ rest = rw (big, two) at e in
        let bs = network_bytes 2 n in
        let one : Reads ep (at_length r f buffer 0 masked 1) ps
            (goes_on (at_length r f (buffered (254 ∷ []) buffer) 126 true 2)) (bs ++ rest) =
          one_round ep (at_length r f buffer 0 masked 1) (254 ∷ []) (bs ++ rest) ps _ h refl refl in
        record {
          buffer = buffered bs (buffered (254 ∷ []) buffer);
          reads = follow one (
              one_round ep (at_length r f (buffered (254 ∷ []) buffer) 126 true 2) bs rest one.left
                _ one.is_rest (length-network_bytes 2 n)
                (two_bytes ep r f n (buffered (254 ∷ []) buffer) (ltb_is_less n 65536 two) odd
                  got));
        }
    | inr eight ↦
        let h : joined ps ≡ 255 ∷ network_bytes 8 n ++ rest = rw (big, eight) at e in
        let bs = network_bytes 8 n in
        let one : Reads ep (at_length r f buffer 0 masked 1) ps
            (goes_on (at_length r f (buffered (255 ∷ []) buffer) 127 true 8)) (bs ++ rest) =
          one_round ep (at_length r f buffer 0 masked 1) (255 ∷ []) (bs ++ rest) ps _ h refl refl in
        record {
          buffer = buffered bs (buffered (255 ∷ []) buffer);
          reads = follow one (
              one_round ep (at_length r f (buffered (255 ∷ []) buffer) 127 true 8) bs rest one.left
                _ one.is_rest (length-network_bytes 8 n)
                (eight_bytes ep r f n (buffered (255 ∷ []) buffer) fits got));
        }
  ]
]
