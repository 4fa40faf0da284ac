-- ===== src/Server/Answering/Encodings.antt =====
-- What a client makes of a page and its encoding (src/WebServer.cc: `accept_request`).
use libnavajo.Base.{
  ◌≡◌, ◌⊎◌, refl, inl, inr, Bool, true, false, ◌||◌, Option, none, some, ◌==◌, ltb, if◌then◌else◌,
  Bool-cases, Bytes, length,
}
use libnavajo.Response.{HttpResponse, get_http_return_code_str}
use libnavajo.Response.Headers.{Surroundings, get_http_header}
use libnavajo.Response.Headers.Messages.{get_internal_server_error_msg}
use libnavajo.Server.Answering.{
  KeepAlive, count_query, Compression, Body, failed, as_it_is, zipped_as, unzipped, zipped_or,
  is_worth_zipping, choose_body, Answer, ends, sends, send_body, page_of, answer_with, answer_page,
}

-- What zlib promises: what was zipped is unzipped to the same.
abbrev pub Unzips : Compression → Type 0
Unzips z = (page small : Bytes) → z.gzip page ≡ some small → z.gunzip small ≡ some page

-- The content of a page.
abbrev pub content_of : Compression → Bool → Bytes → Option Bytes
content_of z zipped_file page = if zipped_file then z.gunzip page else some page

-- A body is the content, zipped only for a client that takes it, and is missing only if zlib fails.
abbrev pub Delivers : Compression → Bool → Bool → Bytes → Body → Type 0
Delivers z client zipped_file page failed =
    (if zipped_file then z.gunzip page else z.gzip page) ≡ none
Delivers z client zipped_file page (as_it_is b) = content_of z zipped_file page ≡ some b
Delivers z client zipped_file page (zipped_as b) =
    (client ≡ true) × (z.gunzip b ≡ content_of z zipped_file page)

unzipped-Delivers :
    (z : Compression) (client : Bool) (page : Bytes) (o : Option Bytes)
    → z.gunzip page ≡ o
    → Delivers z client true page (unzipped o)
unzipped-Delivers z client page none e = e
unzipped-Delivers z client page (some b) e = e

zipped_or-Delivers :
    (z : Compression) (page : Bytes) (o : Option Bytes)
    → Unzips z
    → z.gzip page ≡ o
    → Delivers z true false page (zipped_or page o)
zipped_or-Delivers z page none h e = e
zipped_or-Delivers z page (some small) h e =
    elim (Bool-cases (ltb (length page) (length small) || length small == 0)) [
      | inl longer ↦ rw longer refl
      | inr shorter ↦ rw shorter (refl, h page small e)
    ]

choose_body-Delivers :
    (z : Compression) (client : Bool) (mime : Bytes) (zipped_file : Bool) (page : Bytes)
    → Unzips z
    → Delivers z client zipped_file page (choose_body z client mime zipped_file page)
unfolding choose_body
choose_body-Delivers z false mime true page h = unzipped-Delivers z false page (z.gunzip page) refl
choose_body-Delivers z false mime false page h = refl
choose_body-Delivers z true mime true page h = (refl, refl)
choose_body-Delivers z true mime false page h = elim (Bool-cases (is_worth_zipping mime page)) [
  | inl worth ↦ rw worth (zipped_or-Delivers z page (z.gzip page) h refl)
  | inr not_worth ↦ rw not_worth refl
]

-- A header for a page with that length and encoding.
abbrev pub page_header : Surroundings → KeepAlive → HttpResponse → Bool → Bytes → Bytes
page_header e k r zipped body =
    get_http_header e (get_http_return_code_str r).0 (length body) k.keep_alive none zipped (some r)

-- An answer to a client (the flag says whether it takes gzip) with a page, if there is one.
abbrev pub AnswersWith :
    Compression → Surroundings → Bool → KeepAlive → HttpResponse → Option Bytes → Answer → Type 0
AnswersWith z e client k r none answer =
    answer ≡ ends (get_http_header e (get_http_return_code_str r).0 0 false none false none)
AnswersWith z e client k r (some page) answer =
    ((answer ≡ ends (get_internal_server_error_msg e))
      × ((if r.zipped_file then z.gunzip page else z.gzip page) ≡ none))
    ⊎ ((body : Bytes) × (answer
          ≡ sends (page_header e (count_query k) r false body) body (count_query k))
        × (content_of z r.zipped_file page ≡ some body))
    ⊎ ((body : Bytes) × (answer
          ≡ sends (page_header e (count_query k) r true body) body (count_query k))
        × (client ≡ true)
        × (z.gunzip body ≡ content_of z r.zipped_file page))

send_body-AnswersWith :
    (z : Compression) (e : Surroundings) (client : Bool) (k : KeepAlive) (r : HttpResponse)
    (page : Bytes) (body : Body)
    → Delivers z client r.zipped_file page body
    → AnswersWith z e client k r (some page) (send_body e k r body)
send_body-AnswersWith z e client k r page failed h = inl (refl, h)
send_body-AnswersWith z e client k r page (as_it_is b) h = inr (inl (b, refl, h))
send_body-AnswersWith z e client k r page (zipped_as b) h = inr (inr (b, refl, h.0, h.1))

-- If zlib unzips what it zipped: a response without a page, or with one of length 0, is answered with
-- the header alone; otherwise the answer is the internal error, and zlib failed on the page, or a header
-- with the length of the body behind it. That body is the content of the page as it is, or, if the
-- header says gzip, a text that is unzipped to the content, and the client takes gzip. The content of a
-- zipped page is what it is unzipped to.
pub answer_page-AnswersWith :
    (z : Compression) (e : Surroundings) (client : Bool) (k : KeepAlive) (r : HttpResponse)
    → Unzips z
    → AnswersWith z e client k r
        (page_of r.response_content r.response_content_length)
        (answer_page z e client k r)
unfolding answer_page
answer_page-AnswersWith z e client k r h = go (page_of r.response_content r.response_content_length)
  where
    go : (page : Option Bytes) → AnswersWith z e client k r page (answer_with z e client k r page)
    go none = refl
    go (some page) =
        send_body-AnswersWith z e client k r page
          (choose_body z client r.mime_type r.zipped_file page)
          (choose_body-Delivers z client r.mime_type r.zipped_file page h)
