-- ===== src/Server/Request/Headers.antt =====
-- The loop over the lines of a header in `WebServer::accept_request` (src/WebServer.cc), and the same
-- loop on a plain stream of bytes.
pub mod Streams
pub mod Credentials
pub mod Authorisation
use libnavajo.Base.{
  ℕ, zero, suc, ◌+◌, ◌-◌, Bool, true, false, ◌&&◌, ◌||◌, List, [], ◌∷◌, Option, none, some, ◌==◌,
  leb, if◌then◌else◌, Bytes, length, drop,
}
use libnavajo.Server.Stream.Lines.{first_line}
use libnavajo.Server.Stream.Reads.{Connection, line, read_call}
use libnavajo.Server.Request.Url.{buf_size}
use libnavajo.Server.Request.Line.{AuthSettings, Reading, LineEnd, reads, throws, read_line}

-- How the loop ends: at the empty line, at the end of the connection or of the server, or by an
-- exception that nothing catches.
pub data HeaderEnd : Type 0 where
  complete : Reading → HeaderEnd
  closed uncaught : HeaderEnd

-- What the clock and the flag `exiting` say in a round.
pub record Moment : Type 0 where
  pub now : ℕ
  pub exiting : Bool

pub data RoundEnd : Type 0 where
  ends : HeaderEnd → RoundEnd
  goes_on : Reading → RoundEnd

abbrev pub is_empty_line : Bytes → Bool
is_empty_line [] = false
is_empty_line (a ∷ []) = a == b'\n'
is_empty_line (a ∷ b ∷ s) = (a == b'\n') || (a == b'\r' && b == b'\n')

abbrev pub line_ended : LineEnd → RoundEnd
line_ended (reads r) = goes_on r
line_ended throws = ends uncaught

-- One round, with the line that was received.
unfoldable pub header_round : AuthSettings → Moment → Bytes → Reading → RoundEnd
unfolding read_line
header_round a m l r =
    if length l == 0 || m.exiting
    then ends closed
    else (if leb (length l) 2
        then (if is_empty_line l then ends (complete r) else goes_on r)
        else line_ended (read_line a m.now l r))

-- The loop on the socket; `k` counts the rounds, and `none` stands for the end of the fuel.
unfoldable pub read_headers :
    ℕ → ℕ → AuthSettings → (ℕ → Moment) → ℕ → Reading → Connection → Option (HeaderEnd × Connection)
unfolding header_round
read_headers zero client a moments k r c = none
read_headers (suc fuel) client a moments k r c = elim (read_call client (line (buf_size - 1)) c) [
  | none ↦ none
  | some (l, c') ↦ elim (header_round a (moments k) l r) [
    | ends e ↦ some (e, c')
    | goes_on r' ↦ read_headers fuel client a moments (k + 1) r' c'
  ]
]

-- The same loop on a stream of bytes.
unfoldable pub parse_headers :
    ℕ → AuthSettings → (ℕ → Moment) → ℕ → Reading → Bytes → Option (HeaderEnd × Bytes)
unfolding header_round
parse_headers zero a moments k r s = none
parse_headers (suc fuel) a moments k r s =
    let l = first_line (buf_size - 2) s in
    let rest = drop (length l) s in
    elim (header_round a (moments k) l r) [
      | ends e ↦ some (e, rest)
      | goes_on r' ↦ parse_headers fuel a moments (k + 1) r' rest
    ]
