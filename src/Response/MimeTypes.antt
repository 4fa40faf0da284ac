-- ===== src/Response/MimeTypes.antt =====
-- The type of a resource by its extension: `WebServer::get_mime_type` (src/WebServer.cc).
use libnavajo.Base.{
  ℕ, zero, suc, ◌≤◌, ◌≡◌, ◌≢◌, refl, sym, ap, inl, inr, Bool, true, false, not, ◌&&◌, ◌||◌, List,
  [], ◌∷◌, Option, none, some, ltb, if◌then◌else◌, Bool-cases, Bytes, codes, map, take, length,
  bytes_eq, bytes_eq_iff, arith, eq_of_some, Option-cases, false≢true, ◌==◌,
}
use libnavajo.Server.Text.{lower}

-- `strrchr (name, '.')`: from the last dot on.
unfoldable pub last_dot : Bytes → Option Bytes
last_dot [] = none
last_dot (c ∷ s) = elim (last_dot s) [
  | some ext ↦ some ext
  | none ↦ if c == b'.' then some (c ∷ s) else none
]

-- The comparisons, in their order.
abbrev pub mime_types : List (Bytes × Bytes)
mime_types =
    (codes ".html", codes "text/html")
    ∷ (codes ".htm", codes "text/html")
    ∷ (codes ".js", codes "application/javascript")
    ∷ (codes ".json", codes "application/json")
    ∷ (codes ".xml", codes "application/xml")
    ∷ (codes ".jpg", codes "image/jpeg")
    ∷ (codes ".jpeg", codes "image/jpeg")
    ∷ (codes ".gif", codes "image/gif")
    ∷ (codes ".png", codes "image/png")
    ∷ (codes ".css", codes "text/css")
    ∷ (codes ".txt", codes "text/plain")
    ∷ (codes ".svg", codes "image/svg+xml")
    ∷ (codes ".svgz", codes "image/svg+xml")
    ∷ (codes ".cache", codes "text/cache-manifest")
    ∷ (codes ".au", codes "audio/basic")
    ∷ (codes ".wav", codes "audio/wav")
    ∷ (codes ".avi", codes "video/x-msvideo")
    ∷ (codes ".mpeg", codes "video/mpeg")
    ∷ (codes ".mpg", codes "video/mpeg")
    ∷ (codes ".mp3", codes "audio/mpeg")
    ∷ (codes ".csv", codes "text/csv")
    ∷ (codes ".mp4", codes "application/mp4")
    ∷ (codes ".bin", codes "application/octet-stream")
    ∷ (codes ".doc", codes "application/msword")
    ∷ (codes ".docx", codes "application/msword")
    ∷ (codes ".pdf", codes "application/pdf")
    ∷ (codes ".ps", codes "application/postscript")
    ∷ (codes ".eps", codes "application/postscript")
    ∷ (codes ".ai", codes "application/postscript")
    ∷ (codes ".tar", codes "application/x-tar")
    ∷ (codes ".h264", codes "video/h264")
    ∷ (codes ".dv", codes "video/dv")
    ∷ (codes ".qt", codes "video/quicktime")
    ∷ (codes ".mov", codes "video/quicktime")
    ∷ []

unfoldable pub find_type : Bytes → List (Bytes × Bytes) → Option Bytes
unfolding bytes_eq
find_type ext [] = none
find_type ext ((e, type) ∷ types) =
    let rest = find_type ext types in if bytes_eq ext e then some type else rest

-- `extLowerCase`: five bytes of the extension at most.
abbrev pub ext_lower_case : Bytes → Bytes
ext_lower_case ext = map lower (take 5 ext)

unfoldable pub get_mime_type : Bytes → Option Bytes
unfolding last_dot find_type lower
get_mime_type name = elim (last_dot name) [
  | none ↦ none
  | some ext ↦ find_type (ext_lower_case ext) mime_types
]

-- Does the table give a type for an extension of five bytes or less?
never_for_short : Bytes → List (Bytes × Bytes) → Bool
unfolding bytes_eq
never_for_short type [] = true
never_for_short type ((e, t) ∷ types) =
    (ltb 5 (length e) || not (bytes_eq t type)) && never_for_short type types

length-ext_lower_case : (n : ℕ) (s : Bytes) → length (map lower (take n s)) ≤ n
length-ext_lower_case zero s = omega arith
length-ext_lower_case (suc n) [] = omega arith
length-ext_lower_case (suc n) (c ∷ s) = omega (arith, length-ext_lower_case n s)

not-find_type :
    (type ext : Bytes) (types : List (Bytes × Bytes))
    → length ext ≤ 5
    → never_for_short type types ≡ true
    → find_type ext types ≢ some type
unfolding never_for_short find_type
not-find_type type ext [] short h e = let f : true ≡ false = cc in false≢true (sym f)
not-find_type type ext ((x, t) ∷ types) short h e = elim (Bool-cases (bytes_eq ext x)) [
  | inl same ↦
      let here : ext ≡ x = (bytes_eq_iff ext x).0 same in
      let found : t ≡ type = eq_of_some (rw (same, find_type) at e) in
      let size : ltb 5 (length x) ≡ false = ground (arith, ap length here) in
      let equal : bytes_eq t type ≡ true = (bytes_eq_iff t type).1 found in
      let g : false ≡ true = ground (arith, h, size, equal) in false≢true g
  | inr other ↦ not-find_type type ext types short (ground (arith, h)) (rw (other, find_type) at e)
]

nothing : {t : Bytes} → none ≢ some t
nothing e = let f : true ≡ false = cc in false≢true (sym f)

-- No resource is given the type of a cache manifest: five bytes of an extension are compared, and the
-- extension .cache has six.
pub get_mime_type-cache : (name : Bytes) → get_mime_type name ≢ some (codes "text/cache-manifest")
unfolding get_mime_type never_for_short
get_mime_type-cache name e = elim (Option-cases (last_dot name)) [
  | inl no_dot ↦ let f = rw (no_dot, get_mime_type) at e in nothing f
  | inr (ext, dot) ↦
      not-find_type (codes "text/cache-manifest") (ext_lower_case ext) mime_types
        (length-ext_lower_case 5 ext) refl (rw (dot, get_mime_type) at e)
]
