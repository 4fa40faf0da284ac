-- ===== src/Response/Headers/Lines.antt =====
-- The lines of the header that the server sends (src/WebServer.cc: `getHttpHeader`).
use libnavajo.Base.{
  ℕ, ◌≡◌, refl, sym, ap, ◌∙◌, Bool, true, List, [], ◌++◌, Option, none, some, Bytes, codes, map,
  append_assoc, All, starts_with,
}
use libnavajo.Response.{HttpResponse}
use libnavajo.Response.Headers.{
  crlf, lines_text, line_if, Surroundings, status_lines, challenge, cors_lines, response_text,
  last_lines, get_http_header,
}
use libnavajo.Response.Headers.Reading.{no_cr, IsLine, lines_text-append}

-- The response's own headers are lines.
abbrev pub HasHeaders : Option HttpResponse → List Bytes → Type 0
HasHeaders none hs = hs ≡ []
HasHeaders (some r) hs = r.http_specific_headers ≡ lines_text hs

abbrev pub response_lines : Option HttpResponse → List Bytes → List Bytes
response_lines none hs = []
response_lines (some r) hs =
    cors_lines r ++ (hs ++ map (λ cookie. codes "Set-Cookie: " ++ cookie) r.response_cookies)

-- The lines of the header.
abbrev pub header_lines :
    Surroundings
    → Bytes
    → ℕ
    → Bool
    → Option Bytes
    → Bool
    → Option HttpResponse
    → List Bytes
    → List Bytes
header_lines e message_type len keep_alive bearer zipped response hs =
    status_lines e message_type
    ++ (line_if (starts_with (codes "401") message_type) (challenge bearer)
        ++ (response_lines response hs ++ last_lines len keep_alive zipped response))

abbrev pub HasNoCr : Bytes → Type 0
HasNoCr s = no_cr s ≡ true

abbrev pub BearerIsClean : Option Bytes → Type 0
BearerIsClean none = Unit
BearerIsClean (some more) = HasNoCr more

abbrev pub ResponseIsClean : Option HttpResponse → Type 0
ResponseIsClean none = Unit
ResponseIsClean (some r) =
    HasNoCr r.cors_domain × HasNoCr r.mime_type × All HasNoCr r.response_cookies

-- No text that goes into the header has an end of a line in it, and no line is empty.
pub record IsClean (e : Surroundings) (message_type : Bytes) (bearer : Option Bytes)
    (response : Option HttpResponse) (hs : List Bytes) : Type 0 where
  pub date : IsLine e.date
  pub name : IsLine e.web_server_name
  pub status : HasNoCr message_type
  pub more : BearerIsClean bearer
  pub answer : ResponseIsClean response
  pub own : All IsLine hs

response_text-lines :
    (response : Option HttpResponse) (hs : List Bytes)
    → HasHeaders response hs
    → response_text response ≡ lines_text (response_lines response hs)
response_text-lines none hs h = refl
response_text-lines (some r) hs h =
    let cookies = map (λ cookie. codes "Set-Cookie: " ++ cookie) r.response_cookies in
    ap (λ s. lines_text (cors_lines r) ++ (s ++ lines_text cookies)) h
    ∙ ap (λ s. lines_text (cors_lines r) ++ s) (sym (lines_text-append hs cookies))
    ∙ sym (lines_text-append (cors_lines r) (hs ++ cookies))

regroup : (a b c d e : Bytes) → (a ++ (b ++ (c ++ d))) ++ e ≡ a ++ (b ++ (c ++ (d ++ e)))
regroup a b c d e = simp append_assoc

pub get_http_header-lines :
    (e : Surroundings) (message_type : Bytes) (len : ℕ) (keep_alive : Bool) (bearer : Option Bytes)
    (zipped : Bool) (response : Option HttpResponse) (hs : List Bytes)
    → HasHeaders response hs
    → get_http_header e message_type len keep_alive bearer zipped response
      ≡ lines_text (header_lines e message_type len keep_alive bearer zipped response hs) ++ crlf
unfolding get_http_header
get_http_header-lines e message_type len keep_alive bearer zipped response hs h =
    let first = status_lines e message_type in
    let second = line_if (starts_with (codes "401") message_type) (challenge bearer) in
    let third = response_lines response hs in
    let last = last_lines len keep_alive zipped response in
    ap (λ s. lines_text first ++ (lines_text second ++ (s ++ (lines_text last ++ crlf))))
      (response_text-lines response hs h)
    ∙ sym (
        ap (λ s. s ++ crlf)
          (lines_text-append first (second ++ (third ++ last))
            ∙ ap (λ s. lines_text first ++ s)
                (lines_text-append second (third ++ last)
                  ∙ ap (λ s. lines_text second ++ s) (lines_text-append third last)))
        ∙ regroup (lines_text first) (lines_text second) (lines_text third) (lines_text last) crlf)
