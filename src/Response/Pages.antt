-- ===== src/Response/Pages.antt =====
-- What `DynamicPage` (include/libnavajo/DynamicPage.hh) has for the pages of an application.
use libnavajo.Base.{
  ℕ, ◌+◌, ◌++◌, Bool, true, false, not, ◌&&◌, [], ◌∷◌, none, some, leb, if◌then◌else◌, Bytes,
  length,
}
use libnavajo.Response.{HttpResponse, set_content}

-- `isNotPrintable`, in the C locale.
abbrev pub is_not_printable : ℕ → Bool
is_not_printable c = not (leb 32 c && leb c 126)

-- `stripUnprintableChar`
unfoldable pub strip_unprintable_char : Bytes → Bytes
strip_unprintable_char [] = []
strip_unprintable_char (c ∷ s) =
    let rest = strip_unprintable_char s in if is_not_printable c then rest else c ∷ rest

-- `noContent`
unfoldable pub no_content_page : HttpResponse → Bool × HttpResponse
unfolding set_content
no_content_page response = (true, set_content none 0 response)

-- `fromString`: a copy with a zero behind it, where `malloc` gives the memory.
unfoldable pub page_of_text : (ℕ → Bool) → Bytes → HttpResponse → Bool × HttpResponse
unfolding set_content
page_of_text fits resultat response =
    if fits (length resultat + 1)
    then (true, set_content (some (resultat ++ (0 ∷ []))) (length resultat) response)
    else (false, response)
