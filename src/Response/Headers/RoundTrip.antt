-- ===== src/Response/Headers/RoundTrip.antt =====
-- The header that the server sends, as a client reads it (src/WebServer.cc: `getHttpHeader`).
use libnavajo.Base.{
  ℕ, zero, suc, ◌+◌, ◌/◌, ◌%◌, ◌≡◌, refl, ap, ◌∙◌, Bool, true, false, not, List, [], ◌∷◌, ◌++◌,
  Option, none, some, ◌==◌, if◌then◌else◌, Bytes, codes, map, length, append_assoc, arith, All,
  starts_with,
}
use libnavajo.Server.Text.Numbers.{size_text, size_digits}
use libnavajo.Response.{HttpResponse}
use libnavajo.Response.Headers.{
  crlf, lines_text, line_if, Surroundings, status_lines, challenge, cors_lines, mime_of, last_lines,
  get_http_header,
}
use libnavajo.Response.Headers.Reading.{
  client_reads, no_cr, IsLine, client_reads-lines_text, All-append, behind-IsLine,
}
use libnavajo.Response.Headers.Lines.{
  HasHeaders, response_lines, header_lines, HasNoCr, BearerIsClean, ResponseIsClean, IsClean,
  get_http_header-lines,
}

All-cookies :
    (cs : List Bytes) → All HasNoCr cs → All IsLine (map (λ c. codes "Set-Cookie: " ++ c) cs)
unfolding no_cr
All-cookies [] h = tt
All-cookies (c ∷ cs) h =
    (behind-IsLine (codes "Set-Cookie: ") c (omega arith, refl) h.0, All-cookies cs h.1)

line_if-All : (b : Bool) (l : Bytes) → IsLine l → All IsLine (line_if b l)
line_if-All true l h = (h, tt)
line_if-All false l h = tt

choice-no_cr : (b : Bool) (s t : Bytes) → HasNoCr s → HasNoCr t → HasNoCr (if b then s else t)
choice-no_cr true s t h k = h
choice-no_cr false s t h k = k

choice-IsLine : (b : Bool) (s t : Bytes) → IsLine s → IsLine t → IsLine (if b then s else t)
choice-IsLine true s t h k = h
choice-IsLine false s t h k = k

choice-All :
    (b : Bool) (ls ms : List Bytes)
    → All IsLine ls
    → All IsLine ms
    → All IsLine (if b then ls else ms)
choice-All true ls ms h k = h
choice-All false ls ms h k = k

cors_lines-All : (r : HttpResponse) → HasNoCr r.cors_domain → All IsLine (cors_lines r)
unfolding no_cr
cors_lines-All r h =
    choice-All r.cors _ []
      (
        behind-IsLine (codes "Access-Control-Allow-Origin: ") r.cors_domain (omega arith, refl) h,
        (
          behind-IsLine (codes "Access-Control-Allow-Credentials: ")
              (if r.cors_cred then codes "true" else codes "false") (omega arith, refl)
              (choice-no_cr r.cors_cred (codes "true") (codes "false") refl refl),
          tt,
        ),
      )
      tt

size_digits-no_cr : (fuel n : ℕ) (acc : Bytes) → HasNoCr acc → HasNoCr (size_digits fuel n acc)
unfolding size_digits no_cr
size_digits-no_cr zero n acc h = h
size_digits-no_cr (suc fuel) n acc h =
    ground (arith, size_digits-no_cr fuel (n / 10) ((48 + n % 10) ∷ acc))

size_text-no_cr : (n : ℕ) → HasNoCr (size_text n)
unfolding size_text no_cr
size_text-no_cr n = size_digits-no_cr (n + 1) n [] refl

challenge-IsLine : (bearer : Option Bytes) → BearerIsClean bearer → IsLine (challenge bearer)
unfolding no_cr
challenge-IsLine none h = (omega arith, refl)
challenge-IsLine (some more) h =
    behind-IsLine (codes "WWW-Authenticate: Bearer ") more (omega arith, refl) h

mime_of-no_cr :
    (response : Option HttpResponse) → ResponseIsClean response → HasNoCr (mime_of response)
unfolding no_cr
mime_of-no_cr none h = refl
mime_of-no_cr (some r) h = h.1

response_lines-All :
    (response : Option HttpResponse) (hs : List Bytes)
    → ResponseIsClean response
    → All IsLine hs
    → All IsLine (response_lines response hs)
response_lines-All none hs h k = tt
response_lines-All (some r) hs h k =
    All-append (cors_lines r) _ (cors_lines-All r h.0)
      (All-append hs _ k (All-cookies r.response_cookies h.2))

last_lines-All :
    (len : ℕ) (keep_alive zipped : Bool) (response : Option HttpResponse)
    → ResponseIsClean response
    → All IsLine (last_lines len keep_alive zipped response)
unfolding no_cr
last_lines-All len keep_alive zipped response h = (
  (omega arith, refl),
  (
    choice-IsLine keep_alive (codes "Connection: Keep-Alive") (codes "Connection: close")
        (omega arith, refl) (omega arith, refl),
    (
      behind-IsLine (codes "Content-Type: ") (mime_of response) (omega arith, refl)
          (mime_of-no_cr response h),
      All-append (line_if zipped (codes "Content-Encoding: gzip")) _
          (line_if-All zipped (codes "Content-Encoding: gzip") (omega arith, refl))
          (line_if-All (not (len == 0)) (codes "Content-Length: " ++ size_text len) (
            behind-IsLine (codes "Content-Length: ") (size_text len) (omega arith, refl)
              (size_text-no_cr len))),
    ),
  ),
)

header_lines-All :
    (e : Surroundings) (message_type : Bytes) (len : ℕ) (keep_alive : Bool) (bearer : Option Bytes)
    (zipped : Bool) (response : Option HttpResponse) (hs : List Bytes)
    → IsClean e message_type bearer response hs
    → All IsLine (header_lines e message_type len keep_alive bearer zipped response hs)
unfolding no_cr
header_lines-All e message_type len keep_alive bearer zipped response hs clean =
    All-append (status_lines e message_type) _
      (
        behind-IsLine (codes "HTTP/1.1 ") message_type (omega arith, refl) clean.status,
        (clean.date, (clean.name, tt)),
      )
      (All-append (line_if (starts_with (codes "401") message_type) (challenge bearer)) _
        (line_if-All (starts_with (codes "401") message_type) (challenge bearer)
          (challenge-IsLine bearer clean.more))
        (All-append (response_lines response hs) _
          (response_lines-All response hs clean.answer clean.own)
          (last_lines-All len keep_alive zipped response clean.answer)))

-- A client that reads lines up to an empty one and takes what follows for the body gets of any header
-- of the server, with any body behind it, exactly the lines of the header and that body, if the
-- texts that go into the header (the date, the name, the status, the challenge, the type, the
-- cookies and the response's own headers) have no carriage return in them and no line is empty.
pub client_reads-get_http_header :
    (e : Surroundings) (message_type : Bytes) (len : ℕ) (keep_alive : Bool) (bearer : Option Bytes)
    (zipped : Bool) (response : Option HttpResponse) (hs : List Bytes) (body : Bytes)
    → HasHeaders response hs
    → IsClean e message_type bearer response hs
    → client_reads
        (suc (length (header_lines e message_type len keep_alive bearer zipped response hs)))
        (get_http_header e message_type len keep_alive bearer zipped response ++ body)
      ≡ some (header_lines e message_type len keep_alive bearer zipped response hs, body)
client_reads-get_http_header e message_type len keep_alive bearer zipped response hs body h clean =
    let ls = header_lines e message_type len keep_alive bearer zipped response hs in
    ap (λ s. client_reads (suc (length ls)) (s ++ body))
      (get_http_header-lines e message_type len keep_alive bearer zipped response hs h)
    ∙ ap (client_reads (suc (length ls))) (append_assoc (lines_text ls) crlf body)
    ∙ client_reads-lines_text ls body
        (header_lines-All e message_type len keep_alive bearer zipped response hs clean)
