-- ===== src/Repository/Tests.antt =====
-- Tests and witnesses for the repositories (src/LocalRepository.cc,
-- include/libnavajo/DynamicRepository.hh, include/libnavajo/PrecompiledRepository.hh).
use libnavajo.Base.{
  ℕ, ◌+◌, ◌≤◌, ◌≡◌, refl, ◌↔◌, true, false, List, [], ◌∷◌, none, some, Bytes, codes, weight, lookup,
  bytes_order,
}
use libnavajo.Response.{new_response}
use libnavajo.Repository.Local.{
  Directory, nothing, file, folder, new_repository, opened_path, is_member,
}
use libnavajo.Repository.Local.Paths.{regular_files}
use libnavajo.Repository.Local.Served.{opened_path-regular_files}
use libnavajo.Repository.Dynamic.{
  PageEntry, DynamicRepository, normalize_url, empty, add, destroy, Call, adding, removing, run,
  page_for,
}
use libnavajo.Repository.Dynamic.Ownership.{times, holds, times_added, times_given, destroy-deleted}
use libnavajo.Repository.Precompiled.{get_file}

abbrev site : Directory
site = file (codes "a") (folder (codes "i") (file (codes "b") nothing) nothing)

opens_below_alias :
    opened_path (codes "doc/i/b") (new_repository (codes "/doc/") (some (codes "/srv/www")) site)
    ≡ some (codes "/srv/www/i/b")
unfolding new_repository opened_path libnavajo.Base.starts_with
opens_below_alias = refl

opened_path-regular_files_example :
    ((url : Bytes) × (opened_path url (new_repository (codes "/doc/") (some (codes "/srv")) site)
        ≡ some (codes "/srv/i/b")))
    ↔ (is_member (codes "/srv/i/b") (regular_files (codes "/srv") site) ≡ true)
opened_path-regular_files_example =
    opened_path-regular_files (codes "/doc/") (codes "/srv") (codes "/srv/i/b") site
      ((refl, tt), ((refl, tt), ((refl, tt), tt), tt))

abbrev some_calls : List Call
some_calls =
    adding (codes "/x") 5 true
    ∷ adding (codes "y") 6 false
    ∷ adding (codes "x") 7 true
    ∷ removing (codes "/y") false
    ∷ []

destroy-deleted_example :
    (times_given 5 some_calls ≤ times 5 (destroy (run some_calls empty)).deleted)
    × (times 5 (destroy (run some_calls empty)).deleted ≤ times_added 5 some_calls)
    × (weight (holds 5) (lookup (normalize_url (codes "/x")) (run some_calls empty).index_map)
          + times 5 (run some_calls empty).deleted
        ≤ times_added 5 some_calls)
destroy-deleted_example = destroy-deleted 5 some_calls (codes "/x") refl

-- A page that is owned and is added again for its URL is deleted and stays in the map.
added_again :
    ((add (codes "x") 5 true (add (codes "x") 5 true empty)).deleted ≡ (5 ∷ []))
    × (page_for (codes "x") (add (codes "x") 5 true (add (codes "x") 5 true empty)) ≡ some 5)
unfolding add lookup libnavajo.Base.insert libnavajo.Base.equiv libnavajo.Base.bytes_lt
    libnavajo.Repository.Local.strip_front libnavajo.Repository.Dynamic.page_of_entry
added_again = (refl, refl)

-- A URL that only begins with the letters of the location is answered.
beside_location :
    (get_file
      (codes "docs.html")
      (record { location = codes "doc"; index_map = (codes "s.html", codes "<p>") ∷ [] })
      (new_response (codes ""))).0
    ≡ true
unfolding get_file libnavajo.Base.starts_with lookup libnavajo.Base.equiv libnavajo.Base.bytes_lt
    libnavajo.Repository.Local.strip_front
beside_location = refl
