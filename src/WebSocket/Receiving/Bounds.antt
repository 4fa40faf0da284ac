-- ===== src/WebSocket/Receiving/Bounds.antt =====
-- The memory of a message and the rounds of the loop of `WebSocketClient::receivingThread`
-- (src/WebSocketClient.cc).
use libnavajo.Base.{
  ℕ, ◌+◌, ◌/◌, ◌%◌, ◌<◌, ◌≡◌, refl, ap, subst, ◌∙◌, inl, inr, false, not, List, Option, none, some,
  if_intro, ◌==◌, if◌then◌else◌, Bytes, Bool-cases, Option-cases, eq_of_some, arith, length, get_or,
  length-append,
}
use libnavajo.WebSocket.Bits.{unmask, length-unmask}
use libnavajo.WebSocket.Receiving.Endpoints.{Endpoint}
use libnavajo.WebSocket.Receiving.Pieces.{fill, fill-joined}
use libnavajo.WebSocket.Receiving.Loop.{round_length, received, round}
use libnavajo.WebSocket.Receiving.{
  decode, store, read_content, then_next, dispatch, inflate_content,
}
use libnavajo.WebSocket.Receiving.Receivers.{
  Receiver, MsgDecodStep, first_byte_step, length_step, mask_step, content_step, Flow, goes_on,
  closes, allocate, length_of_16, length_of_64, short_length,
}

-- What is written, and what is still to be read, of a message of `n` bytes. Without memory nothing is
-- written.
abbrev pub StoredIn : Option Bytes → ℕ → ℕ → ℕ → Type 0
StoredIn none it n left = (it ≡ 0) × (left ≡ 0 → n ≡ 0)
StoredIn (some c) it n left = (length c ≡ it) × (it + left ≡ n)

abbrev pub AtStep : MsgDecodStep → Receiver → Type 0
AtStep first_byte_step r = (0 < r.read_length) × (r.msg_length ≡ 0)
AtStep length_step r = 0 < r.read_length
AtStep mask_step r =
    (0 < r.read_length) × StoredIn r.msg_content r.msg_content_it r.msg_length r.msg_length
AtStep content_step r = StoredIn r.msg_content r.msg_content_it r.msg_length r.read_length

-- At every step: something is to be read except where the content is complete, and the bytes written
-- and those still to be read are together as many as were allocated.
abbrev pub IsReceiving : Receiver → Type 0
IsReceiving r = AtStep r.decod_step r

abbrev pub FlowIsReceiving : Flow → Type 0
FlowIsReceiving (goes_on r) = IsReceiving r
FlowIsReceiving (closes r) = Unit

allocate-IsReceiving : (ep : Endpoint) (r : Receiver) → IsReceiving (allocate ep r)
allocate-IsReceiving ep r = elim (Bool-cases r.msg_mask) [
  | inl masked ↦ elim (Bool-cases (ep.allocates r.msg_length)) [
    | inl got ↦ rw (masked, got) (omega arith, (refl, omega arith))
    | inr null ↦ rw (masked, null) (omega arith, (refl, λ e. e))
  ]
  | inr plain ↦ elim (Bool-cases (ep.allocates r.msg_length)) [
    | inl got ↦ rw (plain, got) (refl, omega arith)
    | inr null ↦ rw (plain, null) (refl, λ e. e)
  ]
]

null-StoredIn : (n : ℕ) → n ≡ 0 → StoredIn none 0 n 0
null-StoredIn n e = (refl, λ _. e)

short_length-IsReceiving :
    (ep : Endpoint) (r : Receiver)
    → FlowIsReceiving (short_length ep (record r { decod_step = length_step }))
unfolding short_length
short_length-IsReceiving ep r =
    let b = get_or r.buffer_recv 0 0 in
    if_intro FlowIsReceiving (not (b / 128 % 2 == 1)) (λ _. tt)
      (λ _.
        if_intro FlowIsReceiving (b % 128 == 0) (λ e. null-StoredIn (b % 128) (ground (arith, e)))
          (λ _.
            if_intro FlowIsReceiving (b % 128 == 126) (λ _. omega arith)
              (λ _.
                if_intro FlowIsReceiving (b % 128 == 127) (λ _. omega arith)
                  (λ _. allocate-IsReceiving ep (record r {
                    decod_step = length_step;
                    msg_mask = b / 128 % 2 == 1;
                    msg_length = b % 128;
                  })))))

then_next-IsReceiving : (f : Flow) → FlowIsReceiving (then_next f)
then_next-IsReceiving (goes_on r) = (omega arith, refl)
then_next-IsReceiving (closes r) = tt

length-written :
    (r : Receiver) (bs : Bytes)
    → length (if r.msg_mask then unmask r.msg_keys r.msg_content_it bs else bs) ≡ length bs
length-written r bs = elim (Bool-cases r.msg_mask) [
  | inl masked ↦ rw masked (length-unmask r.msg_keys r.msg_content_it bs)
  | inr plain ↦ rw plain refl
]

-- The bytes that a round reads are stored after those before.
store-StoredIn :
    (o : Option Bytes) (bs : Bytes) (r : Receiver)
    → StoredIn o r.msg_content_it r.msg_length r.read_length
    → length bs ≡ round_length r.read_length
    → let r' = store bs (received bs (record r { msg_content = o; decod_step = content_step })) in
      (r'.msg_content_it == r'.msg_length) ≡ false → IsReceiving r'
unfolding store
store-StoredIn none bs r h size more = (h.0, λ e. h.1 (ground (arith, e)))
store-StoredIn (some c) bs r h size more =
    (length-append c _ ∙ omega (arith, h.0, length-written r bs), ground (arith, h.1, size, more))

read_content-IsReceiving :
    (ep : Endpoint) (bs : Bytes) (r : Receiver)
    → StoredIn r.msg_content r.msg_content_it r.msg_length r.read_length
    → length bs ≡ round_length r.read_length
    → FlowIsReceiving (read_content ep bs (received bs (record r { decod_step = content_step })))
unfolding read_content
read_content-IsReceiving ep bs r h size =
    let r' = store bs (received bs (record r { decod_step = content_step })) in
    if_intro FlowIsReceiving (r'.msg_content_it == r'.msg_length)
      (λ done. then_next-IsReceiving (dispatch ep (inflate_content ep r')))
      (λ more. store-StoredIn r.msg_content bs r h size more)

decode-IsReceiving :
    (ep : Endpoint) (bs : Bytes) (st : MsgDecodStep) (r : Receiver)
    → AtStep st r
    → length bs ≡ round_length r.read_length
    → FlowIsReceiving (decode ep bs st (received bs (record r { decod_step = st })))
unfolding decode
decode-IsReceiving ep bs first_byte_step r h size = omega arith
decode-IsReceiving ep bs length_step r h size =
    if_intro FlowIsReceiving (r.msg_length == 0) (λ _. short_length-IsReceiving ep (received bs r))
      (λ _.
        let r' = received bs (record r { decod_step = length_step }) in
        allocate-IsReceiving ep (record r' { msg_length = length_of_64 r' (length_of_16 r') }))
decode-IsReceiving ep bs mask_step r h size = h.1
decode-IsReceiving ep bs content_step r h size = read_content-IsReceiving ep bs r h size

-- A round keeps the thread within the bounds of the memory it has allocated: where it goes on with a
-- message, the bytes written are as many as the index says, and with those still to be read they are
-- the length of the message.
pub round-IsReceiving :
    (ep : Endpoint) (r : Receiver) (ps : List Bytes) (r' : Receiver) (qs : List Bytes)
    → IsReceiving r
    → round ep r ps ≡ some (goes_on r', qs)
    → IsReceiving r'
unfolding round
round-IsReceiving ep r ps r' qs h e = elim (Option-cases (fill (round_length r.read_length) ps)) [
  | inl ends ↦ let f = rw (ends, round) at e in cc
  | inr ((bs, rest), got) ↦
      let f = ap (λ x. x.0) (eq_of_some (rw (got, round) at e)) in
      subst FlowIsReceiving f
        (decode-IsReceiving ep bs r.decod_step r h (fill-joined _ ps bs rest got).1)
]
