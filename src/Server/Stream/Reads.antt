-- ===== src/Server/Stream/Reads.antt =====
-- Sequences of the calls `recvLine` and `recvBytes` for one socket, over the buffers of all sockets
-- (src/WebServer.cc).
use libnavajo.Base.{
  ℕ, suc, ◌-◌, ◌<◌, ◌≡◌, refl, ap, ◌∙◌, subst, true, false, List, [], ◌∷◌, ◌++◌, Option, none, some,
  ◌==◌, if◌then◌else◌, Bytes, length, take, drop, joined, arith, All,
}
use libnavajo.Server.Stream.{Read, RecvBuffers, put_buffer, recv_line, recv_bytes}
use libnavajo.Server.Stream.Pieces.{Flows, Takes, Gives}
use libnavajo.Server.Stream.Lines.{first_line, recv_line-TakesLine}
use libnavajo.Server.Stream.Bodies.{recv_bytes-Gives}

pub data ReadCall : Type 0 where
  line : ℕ → ReadCall
  body : ℕ → ReadCall

-- The buffers, and what is to come for the socket that is read.
pub record Connection : Type 0 where
  pub buffers : RecvBuffers
  pub coming : List Bytes

pub read_from : ReadCall → Bytes → List Bytes → Option Read
read_from (line nsize) inbuf ps = recv_line nsize inbuf ps
read_from (body n) inbuf ps = recv_bytes n inbuf ps

abbrev pub stored : ℕ → Connection → Option Read → Option (Bytes × Connection)
stored client c none = none
stored client c (some r) =
    some (r.bytes, record { buffers = put_buffer client r.inbuf c.buffers; coming = r.coming })

-- One call, with the reference to the socket's entry of the map.
unfoldable pub read_call : ℕ → ReadCall → Connection → Option (Bytes × Connection)
unfolding read_from
read_call client call c = stored client c (read_from call (c.buffers client) c.coming)

abbrev pub then_read : Bytes → Option (List Bytes × Connection) → Option (List Bytes × Connection)
then_read b none = none
then_read b (some (bs, c)) = some (b ∷ bs, c)

unfoldable pub read_calls : ℕ → List ReadCall → Connection → Option (List Bytes × Connection)
read_calls client [] c = some ([], c)
read_calls client (call ∷ calls) c = elim (read_call client call c) [
  | none ↦ none
  | some (b, c') ↦ then_read b (read_calls client calls c')
]

-- The same calls on a plain stream of bytes.
abbrev pub wanted : ReadCall → Bytes → Bytes
wanted (line nsize) s = first_line (nsize - 1) s
wanted (body n) s = take n s

abbrev pub stream_reads : List ReadCall → Bytes → List Bytes × Bytes
stream_reads [] s = ([], s)
stream_reads (call ∷ calls) s =
    let b = wanted call s in
    let (bs, rest) = stream_reads calls (drop (length b) s) in (b ∷ bs, rest)

-- The stream of a socket: what was read ahead, and what is to come.
abbrev pub stream_of : ℕ → Connection → Bytes
stream_of client c = c.buffers client ++ joined c.coming

-- A destination with room for the final zero.
abbrev pub HasRoom : ReadCall → Type 0
HasRoom (line nsize) = 0 < nsize
HasRoom (body n) = Unit

read_from-Gives :
    (call : ReadCall) (inbuf : Bytes) (ps : List Bytes)
    → HasRoom call
    → Flows ps
    → Gives (wanted call (inbuf ++ joined ps)) (inbuf ++ joined ps) (read_from call inbuf ps)
unfolding read_from
read_from-Gives (line nsize) inbuf ps h flows = recv_line-TakesLine nsize inbuf ps h flows
read_from-Gives (body n) inbuf ps h flows = recv_bytes-Gives n inbuf ps flows

drop_read : (b s t : Bytes) → b ++ t ≡ s → t ≡ drop (length b) s
drop_read [] s t e = e
drop_read (x ∷ b) [] t e = cc
drop_read (x ∷ b) (y ∷ s) t e = drop_read b s t (cc)

-- How a connection stands after calls for a socket.
pub record Serves (client : ℕ) (c : Connection) (bs : List Bytes) (rest : Bytes)
    (run : Option (List Bytes × Connection)) : Type 0 where
  pub after : Connection
  pub runs : run ≡ some (bs, after)
  pub left : stream_of client after ≡ rest
  pub others : (i : ℕ) → (i == client) ≡ false → after.buffers i ≡ c.buffers i

eq_refl : (n : ℕ) → (n == n) ≡ true
eq_refl n = ground arith

-- A call before calls that are served.
next-Serves :
    (client : ℕ) (c : Connection) (r : Read) (b : Bytes) (bs : List Bytes) (rest : Bytes)
    (run : Option (List Bytes × Connection))
    → r.bytes ≡ b
    → Serves client
        (record { buffers = put_buffer client r.inbuf c.buffers; coming = r.coming })
        bs
        rest
        run
    → Serves client c (b ∷ bs) rest (then_read r.bytes run)
next-Serves client c r b bs rest run e served = record {
  after = served.after;
  runs = ap (then_read r.bytes) served.runs ∙ ap (λ x. some (x ∷ bs, served.after)) e;
  left = served.left;
  others = λ i ne. served.others i ne ∙ ap (λ t. if t then r.inbuf else c.buffers i) ne;
}

-- The stream behind a call.
left_behind :
    (client : ℕ) (c : Connection) (r : Read) (want : Bytes)
    → Takes want (stream_of client c) r
    → stream_of client (record { buffers = put_buffer client r.inbuf c.buffers; coming = r.coming })
      ≡ drop (length want) (stream_of client c)
left_behind client c r want takes =
    ap (λ t. (if t then r.inbuf else c.buffers client) ++ joined r.coming) (eq_refl client)
    ∙ drop_read r.bytes (stream_of client c) (r.inbuf ++ joined r.coming) takes.goes_on
    ∙ ap (λ b. drop (length b) (stream_of client c)) takes.given

-- Any calls of recvLine and recvBytes for a socket, with room where a line is read and with no call
-- of recv that fails before the end, come to an end and give what the same calls give on the plain
-- stream, whatever pieces it came in and whatever was read ahead; the stream goes on where they
-- stopped, and the buffers of the other sockets are as before.
pub read_calls-stream_reads :
    (client : ℕ) (calls : List ReadCall) (c : Connection)
    → All HasRoom calls
    → Flows c.coming
    → Serves client c
        (stream_reads calls (stream_of client c)).0
        (stream_reads calls (stream_of client c)).1
        (read_calls client calls c)
unfolding read_calls read_call
read_calls-stream_reads client [] c h flows = record {
  after = c;
  runs = refl;
  left = refl;
  others = λ i e. refl;
}
read_calls-stream_reads client (call ∷ calls) c h flows =
    let (r, runs, takes) = read_from-Gives call (c.buffers client) c.coming h.0 flows in
    let c' : Connection = record {
      buffers = put_buffer client r.inbuf c.buffers;
      coming = r.coming;
    } in
    let behind = left_behind client c r (wanted call (stream_of client c)) takes in
    let later =
      subst
        (λ s.
          Serves client c' (stream_reads calls s).0 (stream_reads calls s).1
            (read_calls client calls c'))
        behind (read_calls-stream_reads client calls c' h.1 takes.flows) in
    let follows =
      next-Serves client c r (wanted call (stream_of client c)) _ _ (read_calls client calls c')
        takes.given later in
    rw (runs, read_calls) follows

-- A line is read off the stream of the socket.
pub record ReadsLine (client n : ℕ) (c : Connection) : Type 0 where
  pub after : Connection
  pub runs : read_call client (line (suc n)) c ≡ some (first_line n (stream_of client c), after)
  pub left :
      stream_of client after
      ≡ drop (length (first_line n (stream_of client c))) (stream_of client c)
  pub flows : Flows after.coming

pub read_call-ReadsLine : (client n : ℕ) (c : Connection) → Flows c.coming → ReadsLine client n c
unfolding read_call
read_call-ReadsLine client n c flows =
    let (r, runs, takes) =
      read_from-Gives (line (suc n)) (c.buffers client) c.coming (omega arith) flows in
    let size : suc n - 1 ≡ n = omega arith in
    let given : r.bytes ≡ first_line n (stream_of client c) =
      takes.given ∙ ap (λ k. first_line k (stream_of client c)) size in
    let c' : Connection = record {
      buffers = put_buffer client r.inbuf c.buffers;
      coming = r.coming;
    } in
    record {
      after = c';
      runs = ap (stored client c) runs ∙ ap (λ b. some (b, c')) given;
      left =
          left_behind client c r (wanted (line (suc n)) (stream_of client c)) takes
          ∙ ap (λ k. drop (length (first_line k (stream_of client c))) (stream_of client c)) size;
      flows = takes.flows;
    }

-- Bytes are read off the stream of the socket.
pub record ReadsBody (client n : ℕ) (c : Connection) : Type 0 where
  pub after : Connection
  pub runs : read_call client (body n) c ≡ some (take n (stream_of client c), after)
  pub left :
      stream_of client after ≡ drop (length (take n (stream_of client c))) (stream_of client c)
  pub flows : Flows after.coming

pub read_call-ReadsBody : (client n : ℕ) (c : Connection) → Flows c.coming → ReadsBody client n c
unfolding read_call
read_call-ReadsBody client n c flows =
    let (r, runs, takes) = read_from-Gives (body n) (c.buffers client) c.coming tt flows in
    let c' : Connection = record {
      buffers = put_buffer client r.inbuf c.buffers;
      coming = r.coming;
    } in
    record {
      after = c';
      runs = ap (stored client c) runs ∙ ap (λ b. some (b, c')) takes.given;
      left = left_behind client c r (wanted (body n) (stream_of client c)) takes;
      flows = takes.flows;
    }
