-- ===== src/Repository/Precompiled.antt =====
-- Pages that were compiled in: `PrecompiledRepository` (include/libnavajo/PrecompiledRepository.hh).
use libnavajo.Base.{
  Bool, true, false, not, List, [], ◌∷◌, ◌++◌, Option, none, some, length, drop, Bytes, codes,
  if◌then◌else◌, lookup, bytes_order, starts_with,
}
use libnavajo.Repository.Local.{strip_front, strip_back}
use libnavajo.Response.{HttpResponse, set_content, set_is_zipped}

-- `data` and its length are one byte string.
pub record PrecompiledRepository : Type 0 where
  pub location : Bytes
  pub index_map : List (Bytes × Bytes)

-- The constructor, over the pages that `initIndexMap` adds; an index that has pages is kept.
unfoldable pub new_repository :
    Bytes → List (Bytes × Bytes) → List (Bytes × Bytes) → PrecompiledRepository
unfolding strip_front strip_back
new_repository l generated [] = record {
  location = strip_back (strip_front l);
  index_map = generated;
}
new_repository l generated (page ∷ pages) = record {
  location = strip_back (strip_front l);
  index_map = page ∷ pages;
}

abbrev pub or_index : Bytes → Bytes
or_index [] = codes "index.html"
or_index (c ∷ url) = c ∷ url

-- The key that is looked up for a URL below the location.
abbrev pub key_of : Bytes → Bytes → Bytes
key_of location url = or_index (strip_front (drop (length location) url))

abbrev pub answer : Option Bytes → Option Bytes → HttpResponse → Bool × HttpResponse
answer (some found) zipped response = (true, set_content (some found) (length found) response)
answer none (some found) response =
    (true, set_content (some found) (length found) (set_is_zipped true response))
answer none none response = (false, response)

-- `getFile`
unfoldable pub get_file : Bytes → PrecompiledRepository → HttpResponse → Bool × HttpResponse
get_file url r response =
    if not (starts_with r.location url)
    then (false, response)
    else answer (lookup (key_of r.location url) r.index_map)
        (lookup (key_of r.location url ++ codes ".gz") r.index_map) response
