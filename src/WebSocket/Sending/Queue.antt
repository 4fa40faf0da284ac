-- ===== src/WebSocket/Sending/Queue.antt =====
-- The messages of the sending queue (src/WebSocketClient.cc), their order and their release.
use libnavajo.Base.{
  Bytes, ℕ, suc, ◌+◌, ◌-◌, ◌<◌, ◌≡◌, refl, sym, ap, ◌∙◌, inl, inr, Bool, true, false, List, [], ◌∷◌,
  ◌++◌, ltb, if_intro, if◌then◌else◌, Bool-cases, arith, append_assoc, append-nil,
}
use libnavajo.WebSocket.Sending.{
  MessageContent, Connection, Client, send_message, add_sending_queue, free_all, free_sending_queue,
  popped, Turn, waits, goes_on, close_sends, ends, send_front, sending_turn,
}

-- What happens to a client: a message is added, `closing` is set, the thread takes a turn.
pub data Happening : Type 0 where
  adds : MessageContent → Happening
  sets_closing : Happening
  turns : Connection → ℕ → Happening

-- The client after a turn.
abbrev pub turned : Client → Turn → Client
turned s waits = s
turned s (goes_on s') = s'
turned s (close_sends s') = s'
turned s (ends s') = s'

unfoldable pub happen : Client → Happening → Client
unfolding add_sending_queue sending_turn
happen s (adds m) = add_sending_queue m s
happen s sets_closing = record s { closing = true }
happen s (turns c now) = turned s (sending_turn c now s)

-- How often a test holds of the messages: messages are told apart by any test.
abbrev pub count : (MessageContent → Bool) → List MessageContent → ℕ
count q [] = 0
count q (m ∷ ms) = (if q m then 1 else 0) + count q ms

module _ (q : MessageContent → Bool) where
  count-append : (ms ns : List MessageContent) → count q (ms ++ ns) ≡ count q ms + count q ns
  count-append [] ns = omega arith
  count-append (m ∷ ms) ns = omega (arith, count-append ms ns)

  count-free_all :
      (ms freed : List MessageContent) → count q (free_all ms freed) ≡ count q ms + count q freed
  unfolding free_all
  count-free_all [] freed = omega arith
  count-free_all (m ∷ ms) freed = omega (arith, count-free_all ms (m ∷ freed))

  abbrev pub known : Client → ℕ
  known s = count q s.sending_queue + count q s.freed

  abbrev pub added : Happening → ℕ
  added (adds m) = if q m then 1 else 0
  added _ = 0

  popped-known :
      (m : MessageContent) (ms : List MessageContent) (blocks : List Bytes) (s : Client)
      → s.sending_queue ≡ m ∷ ms
      → known (popped m ms blocks s) ≡ known s
  popped-known m ms blocks s e = omega (arith, ap (count q) e)

  abbrev Keeps : Client → Turn → Type 0
  Keeps s t = known (turned s t) ≡ known s

  front-Keeps :
      (c : Connection) (now : ℕ) (m : MessageContent) (ms : List MessageContent) (s : Client)
      → s.sending_queue ≡ m ∷ ms
      → Keeps s (send_front c now m ms s)
  unfolding send_front
  front-Keeps c now m ms s e =
      let sent_blocks = (send_message c m).1 in
      if_intro (Keeps s) (ltb s.snd_max_latency (now - m.date_ms)) (λ _. popped-known m ms [] s e)
        (λ _.
          if_intro (Keeps s) (send_message c m).0 (λ _. popped-known m ms sent_blocks s e)
            (λ _. popped-known m ms sent_blocks s e))

  queue-Keeps :
      (c : Connection) (now : ℕ) (s : Client) (o : List MessageContent)
      → s.sending_queue ≡ o
      → Keeps s (elim o [ [] ↦ waits | m ∷ ms ↦ send_front c now m ms s ])
  queue-Keeps c now s [] e = refl
  queue-Keeps c now s (m ∷ ms) e = front-Keeps c now m ms s e

  turn-Keeps : (c : Connection) (now : ℕ) (s : Client) → Keeps s (sending_turn c now s)
  unfolding sending_turn free_sending_queue
  turn-Keeps c now s =
      if_intro (Keeps s) s.closing (λ _. omega (arith, count-free_all s.sending_queue s.freed))
        (λ _. queue-Keeps c now s s.sending_queue refl)

  -- Whatever happens, a message is in the queue or freed exactly as often as it was added: none is
  -- lost, none is freed twice or while it is queued.
  pub happen-known : (s : Client) (h : Happening) → known (happen s h) ≡ known s + added h
  unfolding happen add_sending_queue
  happen-known s (adds m) = elim (Bool-cases s.closing) [
    | inl closed ↦ rw (closed, add_sending_queue, happen) (omega arith)
    | inr opened ↦
        rw (opened, add_sending_queue, happen)
          (omega (arith, count-append s.sending_queue (m ∷ [])))
  ]
  happen-known s sets_closing = omega arith
  happen-known s (turns c now) = omega (arith, turn-Keeps c now s)

-- The blocks of the messages, in the order of the queue.
abbrev pub blocks_of : Connection → List MessageContent → List Bytes
blocks_of c [] = []
blocks_of c (m ∷ ms) = (send_message c m).1 ++ blocks_of c ms

-- Each is recent enough at the time of its turn and can be sent; there are as many times as messages.
abbrev pub AllSent : Connection → ℕ → List ℕ → List MessageContent → Type 0
AllSent c latency [] [] = Unit
AllSent c latency [] (m ∷ ms) = ⊥
AllSent c latency (now ∷ nows) [] = ⊥
AllSent c latency (now ∷ nows) (m ∷ ms) =
    (now - m.date_ms < suc latency) × ((send_message c m).0 ≡ true) × AllSent c latency nows ms

-- A turn at each of these times.
unfoldable pub turns_at : Connection → List ℕ → Client → Client
unfolding sending_turn
turns_at c [] s = s
turns_at c (now ∷ nows) s = turns_at c nows (turned s (sending_turn c now s))

-- Messages are added, the first of the list first.
unfoldable pub add_all : List MessageContent → Client → Client
unfolding add_sending_queue
add_all [] s = s
add_all (m ∷ ms) s = add_all ms (add_sending_queue m s)

queue-blocks_of :
    (c : Connection) (nows : List ℕ) (ms : List MessageContent) (s : Client)
    → s.closing ≡ false
    → s.sending_queue ≡ ms
    → AllSent c s.snd_max_latency nows ms
    → ((turns_at c nows s).sent ≡ s.sent ++ blocks_of c ms)
      × ((turns_at c nows s).sending_queue ≡ [])
unfolding turns_at sending_turn send_front
queue-blocks_of c [] [] s o e h = (sym (append-nil s.sent), e)
queue-blocks_of c [] (m ∷ ms) s o e h = elim h [ ]
queue-blocks_of c (now ∷ nows) [] s o e h = elim h [ ]
queue-blocks_of c (now ∷ nows) (m ∷ ms) s o e h =
    let s' = popped m ms (send_message c m).1 s in
    let recent : ltb s.snd_max_latency (now - m.date_ms) ≡ false = ground (arith, h.0) in
    let step : turned s (sending_turn c now s) ≡ s' =
      ap
        (λ b. turned s (
          if b
          then ends (free_sending_queue s)
          else (elim s.sending_queue [ [] ↦ waits | x ∷ xs ↦ send_front c now x xs s ])))
        o
      ∙ ap (λ xs. turned s (elim xs [ [] ↦ waits | y ∷ ys ↦ send_front c now y ys s ])) e
      ∙ ap
          (λ b. turned s (
            if b
            then close_sends (popped m ms [] s)
            else (if (send_message c m).0 then goes_on s' else close_sends s')))
          recent
      ∙ ap (λ b. turned s (if b then goes_on s' else close_sends s')) h.1 in
    let (all, empty) = queue-blocks_of c nows ms s' o refl h.2 in
    (
      ap (λ t. (turns_at c nows t).sent) step ∙ all ∙ append_assoc s.sent _ _,
      ap (λ t. (turns_at c nows t).sending_queue) step ∙ empty,
    )

-- Messages that are added go behind those that wait, in their order.
add_all-queue :
    (ms : List MessageContent) (s : Client)
    → s.closing ≡ false
    → add_all ms s ≡ record s { sending_queue = s.sending_queue ++ ms }
unfolding add_all add_sending_queue
add_all-queue [] s o = ap (λ q. record s { sending_queue = q }) (sym (append-nil s.sending_queue))
add_all-queue (m ∷ ms) s o =
    let one : add_sending_queue m s ≡ record s { sending_queue = s.sending_queue ++ (m ∷ []) } =
      rw (o, add_sending_queue) refl in
    ap (add_all ms) one
    ∙ add_all-queue ms (record s { sending_queue = s.sending_queue ++ (m ∷ []) }) o
    ∙ ap (λ q. record s { sending_queue = q }) (append_assoc s.sending_queue (m ∷ []) ms)

-- Messages that are added to a client that is not closing: if each message, those that waited before
-- included, is recent enough at the time of its turn and can be sent, then as many turns as there are
-- messages empty the queue, and what is sent are the blocks of those that waited and then of those that
-- were added, in the order in which they were added, each whole.
pub add_all-blocks_of :
    (c : Connection) (nows : List ℕ) (ms : List MessageContent) (s : Client)
    → s.closing ≡ false
    → AllSent c s.snd_max_latency nows (s.sending_queue ++ ms)
    → ((turns_at c nows (add_all ms s)).sent ≡ s.sent ++ blocks_of c (s.sending_queue ++ ms))
      × ((turns_at c nows (add_all ms s)).sending_queue ≡ [])
add_all-blocks_of c nows ms s o h =
    let s' = record s { sending_queue = s.sending_queue ++ ms } in
    let (all, empty) = queue-blocks_of c nows (s.sending_queue ++ ms) s' o refl h in
    (
      ap (λ t. (turns_at c nows t).sent) (add_all-queue ms s o) ∙ all,
      ap (λ t. (turns_at c nows t).sending_queue) (add_all-queue ms s o) ∙ empty,
    )
