-- ===== src/Server/Request/Url.antt =====
-- The request line in `WebServer::accept_request` (src/WebServer.cc): the method, the resource, the
-- query and the version.
pub mod Bounds
use libnavajo.Base.{
  ℕ, zero, suc, ◌+◌, ◌-◌, Bool, true, false, not, ◌&&◌, ◌||◌, List, [], ◌∷◌, Option, none, some,
  ◌==◌, leb, if◌then◌else◌, Bytes, codes, length, take, drop, starts_with, bytes_lt,
}
use libnavajo.Request.Client.{
  HttpRequestMethod, unknown_method, get_method, post_method, put_method, delete_method,
  update_method, patch_method, options_method,
}
use libnavajo.Request.Percent.{is_space, hex_value}
use libnavajo.Server.Text.{c_str, ltrim}

abbrev pub buf_size : ℕ
buf_size = 32768

abbrev pub is_get : HttpRequestMethod → Bool
is_get get_method = true
is_get _ = false

abbrev pub is_unknown : HttpRequestMethod → Bool
is_unknown unknown_method = true
is_unknown _ = false

-- The method that a line begins with, and the bytes that are passed for it.
unfoldable pub method_of : Bytes → HttpRequestMethod × ℕ
method_of l =
    if starts_with (codes "GET") l
    then (get_method, 4)
    else (if starts_with (codes "POST") l
        then (post_method, 5)
        else (if starts_with (codes "PUT") l
            then (put_method, 4)
            else (if starts_with (codes "DELETE") l
                then (delete_method, 7)
                else (if starts_with (codes "UPDATE") l
                    then (update_method, 7)
                    else (if starts_with (codes "PATCH") l
                        then (patch_method, 6)
                        else (if starts_with (codes "OPTIONS") l
                            then (options_method, 8)
                            else (unknown_method, 0)))))))

-- The loop that copies the URL without its first slashes: the bytes that it writes, `i` of them so
-- far, and the rest of the line.
unfoldable pub copy_url : ℕ → Bytes → Bytes × Bytes
copy_url i [] = ([], [])
copy_url i (c ∷ s) =
    let skipped = copy_url i s in
    let (written, rest) = copy_url (i + 1) s in
    if is_space c || leb (buf_size - 1) i || c == b'?'
    then ([], c ∷ s)
    else (if i == 0 && c == b'/' then skipped else (c ∷ written, rest))

-- The loop that copies the query.
unfoldable pub copy_query : ℕ → Bytes → Bytes × Bytes
copy_query i [] = ([], [])
copy_query i (c ∷ s) =
    let (written, rest) = copy_query (i + 1) s in
    if is_space c || leb (buf_size - 1) i then ([], c ∷ s) else (c ∷ written, rest)

-- The bytes that `malloc` is asked for the URL, and the bytes that are written there: the final zero
-- too.
abbrev pub url_allocated : Bytes → ℕ
url_allocated l = length (c_str l) + 1

abbrev pub url_written : Bytes → ℕ
url_written l = length (copy_url 0 l).0 + 1

abbrev pub at_query : Bytes → Bool
at_query [] = false
at_query (c ∷ s) = c == b'?'

-- What the rest of a request line gives: `query` is `none` where there is none or it is not read, and
-- `keep_alive` is `none` where no version is given.
pub record RequestLine : Type 0 where
  pub url : Bytes
  pub query : Option Bytes
  pub keep_alive : Option Bool
  pub rest : Bytes

-- `strncmp (httpVers, "1.1", 3) >= 0`
abbrev pub keeps_alive : Bytes → Bool
keeps_alive vers = not (bytes_lt vers (codes "1.1"))

unfoldable pub read_version : Bytes → Option Bytes → Bytes → RequestLine
read_version url query l =
    if starts_with (codes "HTTP/") l
    then record {
      url = url;
      query = query;
      keep_alive = some (keeps_alive (take 3 (c_str (drop 5 l))));
      rest = drop 8 l;
    }
    else record { url = url; query = query; keep_alive = none; rest = l }

-- From behind the method on.
unfoldable pub read_request_line : Bool → Bytes → RequestLine
unfolding ltrim copy_url copy_query read_version
read_request_line urlencoded_form l =
    let (url, rest) = copy_url 0 (ltrim l) in
    let (query, behind) = copy_query 0 (drop 1 rest) in
    if not urlencoded_form && at_query rest
    then read_version (c_str url) (some (c_str query)) (ltrim behind)
    else read_version (c_str url) none (ltrim rest)

-- The default page of a directory.
unfoldable pub with_index : Bytes → Bytes
with_index [] = codes "index.html"
with_index (c ∷ []) = if c == b'/' then c ∷ codes "index.html" else c ∷ []
with_index (c ∷ d ∷ s) = c ∷ with_index (d ∷ s)

-- The loop that takes the percent encoding off, with the cases as in `decodParams`; a number that is
-- not read is 0 here.
abbrev pub url_at_percent : ℕ → ℕ → Bytes → Bytes → Bytes
url_at_percent b c less least =
    if b == 37 then 37 ∷ less else (elim (hex_value b c) [ none ↦ 0 ∷ least | some v ↦ v ∷ least ])

unfoldable pub decode_url : Bytes → Bytes
unfolding hex_value
decode_url [] = []
decode_url (a ∷ []) = a ∷ []
decode_url (a ∷ b ∷ []) =
    let same = decode_url (b ∷ []) in
    if a == 37 then 37 ∷ (if b == 37 then [] else same) else a ∷ same
decode_url (a ∷ b ∷ c ∷ s) =
    let least = decode_url s in
    let less = decode_url (c ∷ s) in
    let same = decode_url (b ∷ c ∷ s) in if a == 37 then url_at_percent b c less least else a ∷ same

-- The name of the resource that is asked for.
unfoldable pub resource_of : Bytes → Bytes
unfolding with_index decode_url c_str
resource_of url = c_str (decode_url (with_index url))
