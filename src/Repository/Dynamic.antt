-- ===== src/Repository/Dynamic.antt =====
-- Pages that are made on request: `DynamicRepository` (include/libnavajo/DynamicRepository.hh).
pub mod Ownership
use libnavajo.Base.{
  ℕ, Bool, true, false, not, ◌||◌, List, [], ◌∷◌, Option, none, some, length, ◌==◌, if◌then◌else◌,
  Bytes, lookup, insert, erase, bytes_order,
}
use libnavajo.Repository.Local.{strip_front}
use libnavajo.Response.{HttpResponse, add_session_cookie}

-- A page is its address, and 0 is NULL.
pub record PageEntry : Type 0 where
  pub page : ℕ
  pub owned : Bool

-- The map, and the pages that were handed to `delete`, the last one first.
pub record DynamicRepository : Type 0 where
  pub index_map : List (Bytes × PageEntry)
  pub deleted : List ℕ

abbrev pub empty : DynamicRepository
empty = record { index_map = []; deleted = [] }

-- `normalizeUrl`
abbrev pub normalize_url : Bytes → Bytes
normalize_url = strip_front

-- `delete` of a null pointer has no effect.
unfoldable pub delete_page : ℕ → List ℕ → List ℕ
delete_page page deleted = if page == 0 then deleted else page ∷ deleted

unfoldable pub delete_if : Bool → ℕ → List ℕ → List ℕ
unfolding delete_page
delete_if b page deleted = if b then delete_page page deleted else deleted

unfoldable pub delete_owned : List (Bytes × PageEntry) → List ℕ → List ℕ
unfolding delete_if
delete_owned [] deleted = deleted
delete_owned ((url, e) ∷ m) deleted = delete_owned m (delete_if e.owned e.page deleted)

-- `clearIndex`
unfoldable pub clear_index : Bool → DynamicRepository → DynamicRepository
unfolding delete_owned
clear_index delete_owned_pages r = record {
  index_map = [];
  deleted = if delete_owned_pages then delete_owned r.index_map r.deleted else r.deleted;
}

-- The destructor.
abbrev pub destroy : DynamicRepository → DynamicRepository
destroy = clear_index true

-- What `add` deletes: the page that the URL had, if it was owned.
unfoldable pub delete_replaced : Option PageEntry → List ℕ → List ℕ
unfolding delete_if
delete_replaced none deleted = deleted
delete_replaced (some e) deleted = delete_if e.owned e.page deleted

unfoldable pub add : Bytes → ℕ → Bool → DynamicRepository → DynamicRepository
unfolding delete_replaced
add url page take_ownership r =
    let key = normalize_url url in
    record {
      index_map = insert key (record { page = page; owned = take_ownership }) r.index_map;
      deleted = delete_replaced (lookup key r.index_map) r.deleted;
    }

-- What `remove` deletes.
unfoldable pub delete_removed : Bool → Option PageEntry → List ℕ → List ℕ
unfolding delete_if
delete_removed delete_dynamic_page none deleted = deleted
delete_removed delete_dynamic_page (some e) deleted =
    delete_if (delete_dynamic_page || e.owned) e.page deleted

unfoldable pub remove : Bytes → Bool → DynamicRepository → DynamicRepository
unfolding delete_removed
remove url_to_remove delete_dynamic_page r =
    let url = normalize_url url_to_remove in
    record {
      index_map = erase url r.index_map;
      deleted = delete_removed delete_dynamic_page (lookup url r.index_map) r.deleted;
    }

-- The page that answers for a URL.
unfoldable pub page_of_entry : Option PageEntry → Option ℕ
page_of_entry none = none
page_of_entry (some e) = if e.page == 0 then none else some e.page

abbrev pub page_for : Bytes → DynamicRepository → Option ℕ
page_for url r = page_of_entry (lookup (normalize_url url) r.index_map)

-- What `getPage` of a page leaves: its result, the session of the request and the response.
pub record PageResult : Type 0 where
  pub result : Bool
  pub session_id : Bytes
  pub response : HttpResponse

-- `getFile`, with the pages' `getPage` for the request at hand.
unfoldable pub get_file :
    (ℕ → Bytes)
    → ℕ
    → (ℕ → HttpResponse → PageResult)
    → Bytes
    → HttpResponse
    → DynamicRepository
    → Bool × HttpResponse
get_file http_date life_time get_page url response r = elim (page_for url r) [
  | none ↦ (false, response)
  | some page ↦
      let made = get_page page response in
      (
        made.result,
        if not (length made.session_id == 0)
            then add_session_cookie http_date life_time made.session_id made.response
            else made.response,
      )
]

-- Calls, in the order of the lock.
pub data Call : Type 0 where
  adding : Bytes → ℕ → Bool → Call
  removing : Bytes → Bool → Call

unfoldable pub run : List Call → DynamicRepository → DynamicRepository
unfolding add remove
run [] r = r
run (adding url page take_ownership ∷ later) r = run later (add url page take_ownership r)
run (removing url delete_dynamic_page ∷ later) r = run later (remove url delete_dynamic_page r)
