-- ===== src/WebSocket/Receiving/Rounds.antt =====
-- Rounds of the loop of `WebSocketClient::receivingThread` (src/WebSocketClient.cc) put together, and
-- the rounds that read the content of a message.
use libnavajo.Base.{
  ℕ, zero, suc, ◌+◌, ◌-◌, ◌<◌, ◌≡◌, ◌≢◌, refl, sym, ap, subst, ◌∙◌, inl, inr, true, List, ◌++◌,
  some, ltb, ◌==◌, eq_is_true, eq_is_false, ltb_is_less, if◌then◌else◌, Bytes, Bool-cases, arith,
  length, take, drop, joined, length-append, append_assoc, take-append-drop, length-take,
  length-drop,
}
use libnavajo.WebSocket.Bits.{unmask, length-unmask, unmask-append}
use libnavajo.WebSocket.Receiving.Endpoints.{Endpoint}
use libnavajo.WebSocket.Receiving.Loop.{bufsize, left_length, received}
use libnavajo.WebSocket.Receiving.{
  decode, read_content, store, then_next, dispatch, inflate_content,
}
use libnavajo.WebSocket.Receiving.Receivers.{Receiver, content_step, Flow, goes_on}
use libnavajo.WebSocket.Receiving.Runs.{Reads, one_round, follow}

-- Within the content of a message: `c` is written.
abbrev pub at_content : Receiver → Bytes → Bytes → ℕ → Receiver
at_content r c buffer left = record r {
  decod_step = content_step;
  msg_mask = true;
  msg_content = some c;
  msg_content_it = length c;
  buffer_recv = buffer;
  read_length = left;
}

abbrev pub buffered : Bytes → Bytes → Bytes
buffered bs buffer = bs ++ drop (length bs) buffer

stored :
    (ep : Endpoint) (r : Receiver) (c bs buffer : Bytes) (left : ℕ)
    → store bs (received bs (at_content r c buffer left))
      ≡ at_content r (c ++ unmask r.msg_keys (length c) bs) (buffered bs buffer) (left_length left)
unfolding store
stored ep r c bs buffer left =
    ap
      (λ it.
        record (at_content r (c ++ unmask r.msg_keys (length c) bs) (buffered bs buffer)
          (left_length left)) { msg_content_it = it })
      (omega (
        arith,
        length-append c (unmask r.msg_keys (length c) bs),
        length-unmask r.msg_keys (length c) bs,
      ))

-- What becomes of a message once its content is there.
abbrev pub finished : Endpoint → Receiver → Bytes → Bytes → ℕ → Flow
finished ep r c buffer left =
    then_next (dispatch ep (inflate_content ep (at_content r c buffer left)))

decode-at_content :
    (ep : Endpoint) (r : Receiver) (c bs buffer : Bytes) (left : ℕ)
    → decode ep bs content_step (received bs (at_content r c buffer left)) ≡ (
        if length c + length bs == r.msg_length
        then finished ep r
            (c ++ unmask r.msg_keys (length c) bs)
            (buffered bs buffer)
            (left_length left)
        else goes_on (
            at_content r
              (c ++ unmask r.msg_keys (length c) bs)
              (buffered bs buffer)
              (left_length left)))
unfolding decode read_content
decode-at_content ep r c bs buffer left =
    let size : length (c ++ unmask r.msg_keys (length c) bs) ≡ length c + length bs = omega (
      arith,
      length-append c (unmask r.msg_keys (length c) bs),
      length-unmask r.msg_keys (length c) bs,
    ) in
    ap
      (λ r'.
        if r'.msg_content_it == r'.msg_length
        then then_next (dispatch ep (inflate_content ep r'))
        else goes_on r')
      (stored ep r c bs buffer left)
    ∙ rw size refl

content_complete :
    (ep : Endpoint) (r : Receiver) (c bs buffer : Bytes) (left : ℕ)
    → length c + length bs ≡ r.msg_length
    → decode ep bs content_step (received bs (at_content r c buffer left))
      ≡ finished ep r (c ++ unmask r.msg_keys (length c) bs) (buffered bs buffer) (left_length left)
content_complete ep r c bs buffer left e =
    decode-at_content ep r c bs buffer left
    ∙ rw (eq_is_true (length c + length bs) r.msg_length e) refl

content_partly :
    (ep : Endpoint) (r : Receiver) (c bs buffer : Bytes) (left : ℕ)
    → length c + length bs ≢ r.msg_length
    → decode ep bs content_step (received bs (at_content r c buffer left))
      ≡ goes_on (
          at_content r
            (c ++ unmask r.msg_keys (length c) bs)
            (buffered bs buffer)
            (left_length left))
content_partly ep r c bs buffer left e =
    decode-at_content ep r c bs buffer left
    ∙ rw (eq_is_false (length c + length bs) r.msg_length e) refl

-- Where the content of a message ends: the buffer and the length that are left.
pub record ReadsContent (ep : Endpoint) (r start : Receiver) (ps : List Bytes) (c rest : Bytes)
    : Type 0 where
  pub buffer : Bytes
  pub left : ℕ
  pub reads : Reads ep start ps (finished ep r c buffer left) rest

continued :
    (c keys bs : Bytes) (k : ℕ)
    → let c' = c ++ unmask keys (length c) (take k bs) in
      length (take k bs) ≡ k
      → c' ++ unmask keys (length c') (drop k bs) ≡ c ++ unmask keys (length c) bs
continued c keys bs k size =
    let c' = c ++ unmask keys (length c) (take k bs) in
    let grown : length c' ≡ length c + length (take k bs) =
      length-append c _ ∙ ap (λ n. length c + n) (length-unmask keys (length c) (take k bs)) in
    ap (λ n. c' ++ unmask keys n (drop k bs)) grown
    ∙ append_assoc c _ _
    ∙ ap (λ x. c ++ x)
        (sym (unmask-append keys (length c) (take k bs) (drop k bs))
          ∙ ap (unmask keys (length c)) (take-append-drop k bs))

-- The content of a message is read in rounds of at most `BUFSIZE` bytes, each unmasked where it
-- stands in the message.
pub content-ReadsContent :
    (fuel : ℕ) (ep : Endpoint) (r : Receiver) (c bs buffer rest : Bytes) (ps : List Bytes)
    → length bs < fuel
    → 0 < length bs
    → length c + length bs ≡ r.msg_length
    → joined ps ≡ bs ++ rest
    → ReadsContent ep r
        (at_content r c buffer (length bs))
        ps
        (c ++ unmask r.msg_keys (length c) bs)
        rest
content-ReadsContent zero ep r c bs buffer rest ps l pos size h = absurd (omega (arith, l))
content-ReadsContent (suc fuel) ep r c bs buffer rest ps l pos size h =
    elim (Bool-cases (ltb bufsize (length bs))) [
      | inr last ↦ record {
        buffer = buffered bs buffer;
        left = left_length (length bs);
        reads =
            one_round ep (at_content r c buffer (length bs)) bs rest ps _ h (rw last refl)
              (content_complete ep r c bs buffer (length bs) size);
      }
      | inl big ↦
          let b1 = take bufsize bs in
          let b2 = drop bufsize bs in
          let over : bufsize < length bs = ltb_is_less bufsize (length bs) big in
          let k : length b1 ≡ bufsize = omega (arith, length-take bufsize bs, over) in
          let k' : length b2 ≡ length bs - bufsize = length-drop bufsize bs in
          let k2 : left_length (length bs) ≡ length b2 = rw big (sym k') in
          let c' = c ++ unmask r.msg_keys (length c) b1 in
          let grown : length c' ≡ length c + length b1 =
            length-append c _ ∙ ap (λ n. length c + n) (length-unmask r.msg_keys (length c) b1) in
          let one : Reads ep (at_content r c buffer (length bs)) ps
              (goes_on (at_content r c' (buffered b1 buffer) (length b2))) (b2 ++ rest) =
            one_round ep (at_content r c buffer (length bs)) b1 (b2 ++ rest) ps _
              (h
                ∙ ap (λ x. x ++ rest) (sym (take-append-drop bufsize bs))
                ∙ append_assoc b1 b2 rest)
              (rw big k)
              (content_partly ep r c b1 buffer (length bs) (λ z. omega (arith, k, over, size, z))
                ∙ ap (λ n. goes_on (at_content r c' (buffered b1 buffer) n)) k2) in
          let more =
            content-ReadsContent fuel ep r c' b2 (buffered b1 buffer) rest one.left
              (omega (arith, k', l, over)) (omega (arith, k', over))
              (omega (arith, grown, k, k', over, size)) one.is_rest in
          record {
            buffer = more.buffer;
            left = more.left;
            reads =
                subst
                  (λ x.
                    Reads ep (at_content r c buffer (length bs)) ps
                      (finished ep r x more.buffer more.left) rest)
                  (continued c r.msg_keys bs bufsize k) (follow one more.reads);
          }
    ]
