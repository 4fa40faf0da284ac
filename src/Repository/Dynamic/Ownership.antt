-- ===== src/Repository/Dynamic/Ownership.antt =====
-- Who deletes the pages of a dynamic repository (include/libnavajo/DynamicRepository.hh).
use libnavajo.Base.{
  ℕ, ◌+◌, ◌≤◌, ◌≡◌, Bool, true, false, ◌||◌, ◌&&◌, List, [], ◌∷◌, Option, none, some, ◌==◌,
  if◌then◌else◌, Bytes, lookup, IsSorted, insert-IsSorted, erase-IsSorted, total, weight,
  total-insert, total-erase, arith, bytes_order,
}
use libnavajo.Repository.Dynamic.{
  PageEntry, DynamicRepository, empty, normalize_url, delete_page, delete_if, delete_owned,
  clear_index, destroy, delete_replaced, add, delete_removed, remove, Call, adding, removing, run,
}

-- How often a page stands in a list of pages.
unfoldable pub times : ℕ → List ℕ → ℕ
times p [] = 0
times p (q ∷ qs) = (if q == p then 1 else 0) + times p qs

-- Whether an entry holds a page, and whether it owns it.
unfoldable pub holds : ℕ → PageEntry → ℕ
holds p e = if e.page == p then 1 else 0

unfoldable pub owns : ℕ → PageEntry → ℕ
owns p e = if e.owned && e.page == p then 1 else 0

-- How often calls add a page, and how often with ownership.
unfoldable pub times_added : ℕ → List Call → ℕ
unfolding holds
times_added p [] = 0
times_added p (adding url page take_ownership ∷ later) =
    holds p (record { page = page; owned = take_ownership }) + times_added p later
times_added p (removing url b ∷ later) = times_added p later

unfoldable pub times_given : ℕ → List Call → ℕ
unfolding owns
times_given p [] = 0
times_given p (adding url page take_ownership ∷ later) =
    owns p (record { page = page; owned = take_ownership }) + times_given p later
times_given p (removing url b ∷ later) = times_given p later

module _ (p : ℕ) (real : (p == 0) ≡ false) where
  times-delete_if :
      (b : Bool) (q : ℕ) (d : List ℕ)
      → times p (delete_if b q d) ≡ (if b && q == p then 1 else 0) + times p d
  unfolding times delete_if delete_page
  times-delete_if true q d = ground arith
  times-delete_if false q d = ground arith

  times-delete_replaced :
      (o : Option PageEntry) (d : List ℕ)
      → times p (delete_replaced o d) ≡ weight (owns p) o + times p d
  unfolding delete_replaced owns
  times-delete_replaced none d = omega arith
  times-delete_replaced (some e) d = times-delete_if e.owned e.page d

  owns-holds : (e : PageEntry) → owns p e ≤ holds p e
  unfolding owns holds
  owns-holds e = ground arith

  weight-owns : (o : Option PageEntry) → weight (owns p) o ≤ weight (holds p) o
  weight-owns none = omega arith
  weight-owns (some e) = owns-holds e

  times-delete_removed :
      (b : Bool) (o : Option PageEntry) (d : List ℕ)
      → (weight (owns p) o + times p d ≤ times p (delete_removed b o d))
        × (times p (delete_removed b o d) ≤ weight (holds p) o + times p d)
  unfolding delete_removed owns holds
  times-delete_removed b none d = (omega arith, omega arith)
  times-delete_removed b (some e) d = ground (arith, times-delete_if (b || e.owned) e.page d)

  times-delete_owned :
      (m : List (Bytes × PageEntry)) (d : List ℕ)
      → times p (delete_owned m d) ≡ total (owns p) m + times p d
  unfolding delete_owned owns
  times-delete_owned [] d = omega arith
  times-delete_owned ((url, e) ∷ m) d =
      ground
        (arith, times-delete_owned m (delete_if e.owned e.page d), times-delete_if e.owned e.page d)

  total-owns : (m : List (Bytes × PageEntry)) → total (owns p) m ≤ total (holds p) m
  total-owns [] = omega arith
  total-owns ((url, e) ∷ m) = ground (arith, total-owns m, owns-holds e)

  -- What calls leave: all that was given is owned or deleted, and all that is held or deleted was added.
  run-bounds :
      (calls : List Call) (r : DynamicRepository)
      → IsSorted r.index_map
      → (times_given p calls + (total (owns p) r.index_map + times p r.deleted)
          ≤ total (owns p) (run calls r).index_map + times p (run calls r).deleted)
        × (total (holds p) (run calls r).index_map + times p (run calls r).deleted
            ≤ times_added p calls + (total (holds p) r.index_map + times p r.deleted))
        × IsSorted (run calls r).index_map
  unfolding run times_given times_added add remove
  run-bounds [] r s = (omega arith, omega arith, s)
  run-bounds (adding url page take_ownership ∷ later) r s =
      let key = normalize_url url in
      let e : PageEntry = record { page = page; owned = take_ownership } in
      let rest =
        run-bounds later (add url page take_ownership r) (insert-IsSorted key e r.index_map s) in
      let old = lookup key r.index_map in
      let deleted = times-delete_replaced old r.deleted in
      let owned_now = total-insert (owns p) key e r.index_map s in
      let held_now = total-insert (holds p) key e r.index_map s in
      let less = weight-owns old in (omega arith, omega arith, rest.2)
  run-bounds (removing url b ∷ later) r s =
      let key = normalize_url url in
      let rest = run-bounds later (remove url b r) (erase-IsSorted key r.index_map s) in
      let deleted = times-delete_removed b (lookup key r.index_map) r.deleted in
      let owned_now = total-erase (owns p) key r.index_map s in
      let held_now = total-erase (holds p) key r.index_map s in (omega arith, omega arith, rest.2)

-- Whatever calls came before the destructor, a page is deleted at least as often as it was added with
-- ownership and at most as often as it was added, and before that a page of the map was not deleted so
-- often: `holds` of the entry that a URL has counts with the deletions. So a page that is added once is
-- deleted at most once, at the end if it is owned, and never while the map has it. The page is not NULL.
pub destroy-deleted :
    (p : ℕ) (calls : List Call) (url : Bytes)
    → (p == 0) ≡ false
    → (times_given p calls ≤ times p (destroy (run calls empty)).deleted)
      × (times p (destroy (run calls empty)).deleted ≤ times_added p calls)
      × (weight (holds p) (lookup (normalize_url url) (run calls empty).index_map)
            + times p (run calls empty).deleted
          ≤ times_added p calls)
unfolding clear_index times
destroy-deleted p calls url real =
    let r = run calls empty in
    let bounds = run-bounds p real calls empty tt in
    let at_end = times-delete_owned p real r.index_map r.deleted in
    let less = total-owns p real r.index_map in
    let found = total-erase (holds p) (normalize_url url) r.index_map bounds.2 in
    (omega arith, omega arith, omega arith)
