-- ===== src/Server/Answering/Releases.antt =====
-- The memory of a page in `WebServer::accept_request` (src/WebServer.cc): the block that the repository
-- gave, and the one that zlib makes.
use libnavajo.Base.{
  ℕ, ◌<◌, ◌≡◌, refl, inl, inr, Bool, true, false, not, ◌&&◌, List, [], ◌∷◌, ◌++◌, Option, none,
  some, ltb, if◌then◌else◌, Bool-cases, Bytes, length, arith,
}
use libnavajo.Response.{HttpResponse}
use libnavajo.Server.Answering.{Compression, is_worth_zipping, page_of}

pub data Block : Type 0 where
  page_block zlib_block : Block

-- How a block is given back: by `freeFile` of the repository, or by `free`.
pub data Release : Type 0 where
  free_file : Block → Release
  free : Block → Release

-- The variables `webpage`, `gzipWebPage` and `sizeZip`, and what was given back so far.
pub record Pages : Type 0 where
  pub webpage : Block
  pub gzip_web_page : Option Block
  pub size_zip : ℕ
  pub released : List Release

-- The pointers of a page that was found.
abbrev pub found_pages : Bool → Bytes → Pages
found_pages true page = record {
  webpage = page_block;
  gzip_web_page = some page_block;
  size_zip = length page;
  released = [];
}
found_pages false page = record {
  webpage = page_block;
  gzip_web_page = none;
  size_zip = 0;
  released = [];
}

abbrev pub free_file_of : Option Block → List Release
free_file_of none = []
free_file_of (some b) = free_file b ∷ []

abbrev pub free_of : Option Block → List Release
free_of none = []
free_of (some b) = free b ∷ []

-- The last lines: what is given back once the page is sent.
unfoldable pub release_pages : Bool → Bool → Pages → List Release
release_pages client zipped_file p =
    if ltb 0 p.size_zip && not zipped_file
    then p.released ++ (free_of p.gzip_web_page ++ (free_file p.webpage ∷ []))
    else if not client && zipped_file
    then p.released ++ ((free p.webpage ∷ []) ++ free_file_of p.gzip_web_page)
    else p.released ++ (free_file p.webpage ∷ [])

-- After `nvj_gunzip`, and after `nvj_gzip`; where they fail the page is given back at once.
abbrev pub release_unzipped : Bool → Pages → Option Bytes → List Release
release_unzipped client p none = free_file_of p.gzip_web_page
release_unzipped client p (some page) =
    release_pages client true (record p { webpage = zlib_block })

abbrev pub after_gzip : Bytes → Pages → Bytes → Pages
after_gzip page p small =
    if ltb (length page) (length small)
    then record p {
      gzip_web_page = some zlib_block;
      size_zip = 0;
      released = p.released ++ (free zlib_block ∷ []);
    }
    else record p { gzip_web_page = some zlib_block; size_zip = length small }

abbrev pub release_zipped : Bool → Bytes → Pages → Option Bytes → List Release
release_zipped client page p none = free_file p.webpage ∷ []
release_zipped client page p (some small) = release_pages client false (after_gzip page p small)

-- All that is given back for a page.
unfoldable pub releases : Compression → Bool → Bytes → Bool → Bytes → List Release
unfolding release_pages
releases z client mime zipped_file page =
    let p = found_pages zipped_file page in
    if not client && zipped_file
    then release_unzipped client p (z.gunzip page)
    else if not zipped_file && client && is_worth_zipping mime page
    then release_zipped client page p (z.gzip page)
    else release_pages client zipped_file p

-- Of a response: one without a page has nothing to give back but a block of length 0.
abbrev pub release_empty : Option Bytes → List Release
release_empty none = []
release_empty (some webpage) = free_file page_block ∷ []

abbrev pub release_found : Compression → Bool → HttpResponse → Option Bytes → List Release
release_found z client r none = release_empty r.response_content
release_found z client r (some page) = releases z client r.mime_type r.zipped_file page

unfoldable pub response_releases : Compression → Bool → HttpResponse → List Release
unfolding releases
response_releases z client r =
    release_found z client r (page_of r.response_content r.response_content_length)

-- The block that zlib makes for a page: where it is asked to, and does not fail.
abbrev pub is_made : Option Bytes → List Release
is_made none = []
is_made (some text) = free zlib_block ∷ []

abbrev pub made : Compression → Bool → Bytes → Bool → Bytes → List Release
made z client mime zipped_file page =
    if not client && zipped_file
    then is_made (z.gunzip page)
    else if not zipped_file && client && is_worth_zipping mime page
    then is_made (z.gzip page)
    else []

-- What zlib makes is not empty.
abbrev pub MakesSome : Compression → Type 0
MakesSome z = (page small : Bytes) → z.gzip page ≡ some small → 0 < length small

zipped-made :
    (page small : Bytes)
    → 0 < length small
    → release_zipped true page (found_pages false page) (some small)
      ≡ free zlib_block ∷ free_file page_block ∷ []
unfolding release_pages
zipped-made page small h = ground arith

releases-made :
    (z : Compression) (client : Bool) (mime : Bytes) (zipped_file : Bool) (page : Bytes)
    → MakesSome z
    → releases z client mime zipped_file page
      ≡ made z client mime zipped_file page ++ (free_file page_block ∷ [])
unfolding releases release_pages
releases-made z false mime true page h = unzips (z.gunzip page)
  where
    unzips :
        (o : Option Bytes)
        → release_unzipped false (found_pages true page) o
          ≡ is_made o ++ (free_file page_block ∷ [])
    unzips none = refl
    unzips (some text) = ground arith
releases-made z false mime false page h = refl
releases-made z true mime true page h = ground arith
releases-made z true mime false page h = elim (Bool-cases (is_worth_zipping mime page)) [
  | inl worth ↦ rw worth (zips (z.gzip page) refl)
  | inr not_worth ↦ rw not_worth refl
]
  where
    zips :
        (o : Option Bytes)
        → z.gzip page ≡ o
        → release_zipped true page (found_pages false page) o
          ≡ is_made o ++ (free_file page_block ∷ [])
    zips none e = refl
    zips (some small) e = zipped-made page small (h page small e)

-- What is given back for a response: a block that the repository gave, if there is one.
abbrev pub expected : Compression → Bool → HttpResponse → Option Bytes → List Release
expected z client r none = release_empty r.response_content
expected z client r (some page) =
    made z client r.mime_type r.zipped_file page ++ (free_file page_block ∷ [])

-- If zlib makes no empty text: for a response that was found, whatever the client takes and whether zlib
-- fails, the block that the repository gave is given back to it exactly once, and the block that zlib
-- made, if it was called and did not fail, is freed exactly once, before it. A response without a block
-- gives nothing back.
pub response_releases-expected :
    (z : Compression) (client : Bool) (r : HttpResponse)
    → MakesSome z
    → response_releases z client r
      ≡ expected z client r (page_of r.response_content r.response_content_length)
unfolding response_releases
response_releases-expected z client r h = go (page_of r.response_content r.response_content_length)
  where
    go : (page : Option Bytes) → release_found z client r page ≡ expected z client r page
    go none = refl
    go (some page) = releases-made z client r.mime_type r.zipped_file page h
