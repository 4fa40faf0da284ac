-- ===== src/Server/Stream.antt =====
-- The read-ahead buffers of the connections: `WebServer::recvLine`, `WebServer::recvBytes` and
-- `WebServer::clearRecvBuffer` (src/WebServer.cc).
pub mod Pieces
pub mod Lines
pub mod Bodies
pub mod Reads
use libnavajo.Base.{
  ℕ, zero, suc, ◌+◌, ◌-◌, min, List, [], ◌∷◌, ◌++◌, Option, none, some, leb, ◌==◌, if◌then◌else◌,
  Bytes, length, take, drop, find_byte,
}

-- What the coming calls of `recv` on a socket find: each a piece, an empty one where the call fails
-- or the peer has closed. A call takes `size` bytes of it at most.
unfoldable pub recv : ℕ → List Bytes → Bytes × List Bytes
recv size [] = ([], [])
recv size ([] ∷ ps) = ([], ps)
recv size (p ∷ ps) = if leb (length p) size then (p, ps) else (take size p, drop size p ∷ ps)

-- `httpRecvBuffers`: the buffer of a socket, empty where the map has no entry.
abbrev pub RecvBuffers : Type 0
RecvBuffers = ℕ → Bytes

abbrev pub put_buffer : ℕ → Bytes → RecvBuffers → RecvBuffers
put_buffer client s m = λ c. if c == client then s else m c

abbrev pub clear_recv_buffer : ℕ → RecvBuffers → RecvBuffers
clear_recv_buffer client m = put_buffer client [] m

-- What a read gives: the bytes, what stays in the buffer, and what is still to come.
pub record Read : Type 0 where
  pub bytes : Bytes
  pub inbuf : Bytes
  pub coming : List Bytes

-- The copy of the first bytes of the buffer, which are erased there.
abbrev pub take_read : ℕ → Bytes → List Bytes → Read
take_read count inbuf ps = record {
  bytes = take count inbuf;
  inbuf = drop count inbuf;
  coming = ps;
}

abbrev pub http_recv_buffer_size : ℕ
http_recv_buffer_size = 8192

-- The endless loop of `recvLine`, on fuel; `none` where the fuel ends.
unfoldable pub recv_line_loop : ℕ → ℕ → Bytes → List Bytes → Option Read
recv_line_loop zero nsize inbuf ps = none
recv_line_loop (suc fuel) nsize inbuf ps = elim (find_byte b'\n' inbuf) [
  | some pos ↦ some (take_read (min (pos + 1) (nsize - 1)) inbuf ps)
  | none ↦
      let (tmp, ps') = recv http_recv_buffer_size ps in
      let again = recv_line_loop fuel nsize (inbuf ++ tmp) ps' in
      let ended = some (take_read (min (length inbuf) (nsize - 1)) inbuf ps') in
      if leb (nsize - 1) (length inbuf)
      then some (take_read (nsize - 1) inbuf ps)
      else (if length tmp == 0 then ended else again)
]

-- A call for a buffer that is there; as many rounds as the buffer has bytes are enough.
unfoldable pub recv_line : ℕ → Bytes → List Bytes → Option Read
unfolding recv_line_loop
recv_line zero inbuf ps = some (record { bytes = []; inbuf = inbuf; coming = ps })
recv_line (suc n) inbuf ps = recv_line_loop (suc n) (suc n) inbuf ps

abbrev pub after : Bytes → Option Read → Option Read
after p none = none
after p (some r) = some (record r { bytes = p ++ r.bytes })

-- The loop of `recvBytes` for the bytes that are left to read, on fuel.
unfoldable pub recv_bytes_loop : ℕ → ℕ → List Bytes → Option Read
recv_bytes_loop fuel zero ps = some (record { bytes = []; inbuf = []; coming = ps })
recv_bytes_loop zero (suc w) ps = none
recv_bytes_loop (suc fuel) (suc w) ps =
    let (p, ps') = recv (suc w) ps in
    let more = recv_bytes_loop fuel (suc w - length p) ps' in
    if length p == 0 then some (record { bytes = []; inbuf = []; coming = ps' }) else after p more

-- Where the buffer has enough the rest stays in it; else it is emptied first. The erasure of the
-- map's entry where nothing was read leaves the buffer empty, as it is.
unfoldable pub recv_bytes : ℕ → Bytes → List Bytes → Option Read
unfolding recv_bytes_loop
recv_bytes n inbuf ps =
    let count = min (length inbuf) n in
    if leb n (length inbuf)
    then some (take_read count inbuf ps)
    else after (take count inbuf) (recv_bytes_loop (n - count) (n - count) ps)
