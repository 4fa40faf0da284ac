-- ===== src/Server/Request/Headers/Streams.antt =====
-- The loop over the header's lines on a socket and on a stream (src/WebServer.cc).
use libnavajo.Base.{
  ℕ, zero, suc, ◌+◌, ◌-◌, ◌<◌, ◌≡◌, refl, sym, ap, ◌∙◌, inl, inr, [], ◌∷◌, Option, some, Bytes,
  length, drop, arith, length-drop, ◌⊎◌,
}
use libnavajo.Server.Stream.Pieces.{Flows}
use libnavajo.Server.Stream.Lines.{first_line, length-first_line}
use libnavajo.Server.Stream.Reads.{Connection, stream_of, read_call-ReadsLine}
use libnavajo.Server.Request.Url.{buf_size}
use libnavajo.Server.Request.Line.{AuthSettings, Reading}
use libnavajo.Server.Request.Headers.{
  HeaderEnd, Moment, RoundEnd, ends, goes_on, header_round, read_headers, parse_headers,
}

pub RoundEnd-cases :
    (o : RoundEnd) → ((e : HeaderEnd) × (o ≡ ends e)) ⊎ ((r : Reading) × (o ≡ goes_on r))
RoundEnd-cases (ends e) = inl (e, refl)
RoundEnd-cases (goes_on r) = inr (r, refl)

-- Both loops end, alike and at the same place of the stream.
pub record EndAlike (client : ℕ) (run : Option (HeaderEnd × Connection))
    (parse : Option (HeaderEnd × Bytes)) : Type 0 where
  pub end : HeaderEnd
  pub after : Connection
  pub runs : run ≡ some (end, after)
  pub parses : parse ≡ some (end, stream_of client after)
  pub flows : Flows after.coming

-- The loop goes on only where a line has been read.
goes_on-length :
    (a : AuthSettings) (m : Moment) (l : Bytes) (r r' : Reading)
    → header_round a m l r ≡ goes_on r'
    → 0 < length l
unfolding header_round
goes_on-length a m [] r r' h = cc
goes_on-length a m (c ∷ l) r r' h = omega arith

-- Reading the lines of a header from a socket comes to an end, within one round more than the stream
-- has bytes, with no call of recv that fails before the end of the stream; it ends as the reading of
-- the plain stream does and leaves the stream where that stops, whatever pieces it came in and
-- whatever was read ahead.
pub read_headers-parse_headers :
    (fuel client : ℕ) (a : AuthSettings) (moments : ℕ → Moment) (k : ℕ) (r : Reading)
    (c : Connection)
    → Flows c.coming
    → length (stream_of client c) < fuel
    → EndAlike client
        (read_headers fuel client a moments k r c)
        (parse_headers fuel a moments k r (stream_of client c))
unfolding read_headers parse_headers
read_headers-parse_headers zero client a moments k r c flows h = absurd (omega arith)
read_headers-parse_headers (suc fuel) client a moments k r c flows h =
    let s = stream_of client c in
    let l = first_line (buf_size - 2) s in
    let got = read_call-ReadsLine client (buf_size - 2) c flows in
    elim (RoundEnd-cases (header_round a (moments k) l r)) [
      | inl (e, ended) ↦ record {
        end = e;
        after = got.after;
        runs = rw (got.runs, read_headers, ended) refl;
        parses = rw (ended, parse_headers) (ap (λ x. some (e, x)) (sym got.left));
        flows = got.flows;
      }
      | inr (r', more) ↦
          let left : stream_of client got.after ≡ drop (length l) s = got.left in
          let later =
            read_headers-parse_headers fuel client a moments (k + 1) r' got.after got.flows (
              omega (
                arith,
                ap length left,
                length-drop (length l) s,
                length-first_line (buf_size - 2) s,
                goes_on-length a (moments k) l r r' more,
              )) in
          record {
            end = later.end;
            after = later.after;
            runs = rw (got.runs, read_headers, more) later.runs;
            parses =
                rw (more, parse_headers)
                  (ap (parse_headers fuel a moments (k + 1) r') (sym left) ∙ later.parses);
            flows = later.flows;
          }
    ]
