-- ===== src/Repository/Local/Served.antt =====
-- Which files a repository serves (src/LocalRepository.cc).
use libnavajo.Base.{
  ℕ, ◌≡◌, refl, sym, ap, subst, ◌∙◌, inl, inr, ◌↔◌, true, false, false≢true, List, [], ◌∷◌, ◌++◌,
  some, ◌==◌, Bool-cases, Bytes, bytes_eq, bytes_eq_iff, map, append-nil, starts_with, All, arith,
  eq_of_some,
}
use libnavajo.Repository.Local.{
  Directory, nothing, file, folder, other, slash, strip_front, strip_back, cons_unless_slash,
  is_skipped, load_filename_dir, LocalRepository, new_repository, is_member, path_of, opened_path,
}
use libnavajo.Repository.Local.Paths.{
  NamesHaveNoSlash, regular_files, StartsPlain, load_filename_dir-regular_files, strip_front-plain,
}

strip_front-StartsPlain : (s : Bytes) → StartsPlain (strip_front s)
unfolding strip_front
strip_front-StartsPlain [] = tt
strip_front-StartsPlain (c ∷ s) = elim (Bool-cases (c == slash)) [
  | inl e ↦ rw e (strip_front-StartsPlain s)
  | inr e ↦ rw e e
]

cons_unless_slash-StartsPlain :
    (c : ℕ) (s : Bytes) → (c == slash) ≡ false → StartsPlain (cons_unless_slash c s)
cons_unless_slash-StartsPlain c [] h = rw h h
cons_unless_slash-StartsPlain c (d ∷ s) h = h

strip_back-StartsPlain : (s : Bytes) → StartsPlain s → StartsPlain (strip_back s)
unfolding strip_back
strip_back-StartsPlain [] h = tt
strip_back-StartsPlain (c ∷ s) h = cons_unless_slash-StartsPlain c (strip_back s) h

is_member-append_left :
    (x : Bytes) (a b : List Bytes) → is_member x a ≡ true → is_member x (a ++ b) ≡ true
unfolding is_member
is_member-append_left x [] b h = absurd (false≢true h)
is_member-append_left x (y ∷ a) b h = ground (arith, is_member-append_left x a b)

is_member-map :
    (f : Bytes → Bytes) (x : Bytes) (xs : List Bytes)
    → is_member x xs ≡ true
    → is_member (f x) (map f xs) ≡ true
unfolding is_member
is_member-map f x [] h = absurd (false≢true h)
is_member-map f x (y ∷ xs) h = elim (Bool-cases (bytes_eq x y)) [
  | inl e ↦ rw ((bytes_eq_iff (f x) (f y)).1 (ap f ((bytes_eq_iff x y).0 e))) refl
  | inr e ↦ ground (arith, is_member-map f x xs)
]

member-map :
    (f : Bytes → Bytes) (y : Bytes) (xs : List Bytes)
    → is_member y (map f xs) ≡ true
    → (x : Bytes) × (is_member x xs ≡ true) × (f x ≡ y)
unfolding is_member
member-map f y [] h = absurd (false≢true h)
member-map f y (x ∷ xs) h = elim (Bool-cases (bytes_eq y (f x))) [
  | inl e ↦ (x, rw ((bytes_eq_iff x x).1 refl) refl, sym ((bytes_eq_iff y (f x)).0 e))
  | inr e ↦ let found = member-map f y xs (ground arith) in (found.0, ground arith, found.2)
]

starts_with-append : (t s : Bytes) → starts_with t (t ++ s) ≡ true
unfolding starts_with
starts_with-append [] s = refl
starts_with-append (c ∷ t) s = ground (arith, starts_with-append t s)

starts_with-strip_front :
    (alias s : Bytes) → StartsPlain alias → starts_with alias (strip_front (alias ++ s)) ≡ true
unfolding starts_with
starts_with-strip_front [] s h = refl
starts_with-strip_front (c ∷ alias) s h =
    subst (λ t. starts_with (c ∷ alias) t ≡ true) (sym (strip_front-plain c (alias ++ s) h))
      (starts_with-append (c ∷ alias) s)

All-append : (P : Bytes → Type 0) (xs ys : List Bytes) → All P xs → All P ys → All P (xs ++ ys)
All-append P [] ys h k = k
All-append P (x ∷ xs) ys h k = (h.0, All-append P xs ys h.1 k)

All-member :
    (P : Bytes → Type 0) (x : Bytes) (xs : List Bytes) → All P xs → is_member x xs ≡ true → P x
unfolding is_member
All-member P x [] h e = absurd (false≢true e)
All-member P x (y ∷ xs) h e = elim (Bool-cases (bytes_eq x y)) [
  | inl same ↦ subst P (sym ((bytes_eq_iff x y).0 same)) h.0
  | inr differ ↦ All-member P x xs h.1 (ground arith)
]

abbrev StartsWith : Bytes → Bytes → Type 0
StartsWith alias name = starts_with alias name ≡ true

load_filename_dir-StartsWith :
    (alias sub : Bytes) (d : Directory)
    → StartsPlain alias
    → All (StartsWith alias) (load_filename_dir alias sub d)
unfolding load_filename_dir
load_filename_dir-StartsWith alias sub nothing h = tt
load_filename_dir-StartsWith alias sub (file name rest) h =
    let later = load_filename_dir-StartsWith alias sub rest h in
    elim (Bool-cases (is_skipped name)) [
      | inl e ↦ rw e later
      | inr e ↦ rw e (starts_with-strip_front alias (sub ++ (slash ∷ name)) h, later)
    ]
load_filename_dir-StartsWith alias sub (folder name inside rest) h =
    let later = load_filename_dir-StartsWith alias sub rest h in
    let within = load_filename_dir-StartsWith alias (sub ++ (slash ∷ name)) inside h in
    elim (Bool-cases (is_skipped name)) [
      | inl e ↦ rw e later
      | inr e ↦ rw e (
          All-append (StartsWith alias) (load_filename_dir alias (sub ++ (slash ∷ name)) inside)
            (load_filename_dir alias sub rest) within later)
    ]
load_filename_dir-StartsWith alias sub (other name rest) h =
    load_filename_dir-StartsWith alias sub rest h

opened_path-is_member :
    (url path : Bytes) (r : LocalRepository)
    → opened_path url r ≡ some path
    → (is_member url r.filenames_set ≡ true)
      × (path_of r.alias_name r.full_path_to_local_dir url ≡ path)
unfolding opened_path
opened_path-is_member url path r h =
    ground (arith, eq_of_some {a = path_of r.alias_name r.full_path_to_local_dir url} {b = path})

opened_path-path_of :
    (url : Bytes) (r : LocalRepository)
    → starts_with r.alias_name url ≡ true
    → is_member url r.filenames_set ≡ true
    → opened_path url r ≡ some (path_of r.alias_name r.full_path_to_local_dir url)
unfolding opened_path
opened_path-path_of url r h k = rw (h, k) refl

-- The paths that a repository opens are those of the regular files below its directory.
pub opened_path-regular_files :
    (alias full path : Bytes) (d : Directory)
    → NamesHaveNoSlash d
    → ((url : Bytes) × (opened_path url (new_repository alias (some full) d) ≡ some path))
      ↔ (is_member path (regular_files full d) ≡ true)
unfolding new_repository opened_path
opened_path-regular_files alias full path d h =
    let name = strip_back (strip_front alias) in
    let plain : StartsPlain name =
      strip_back-StartsPlain (strip_front alias) (strip_front-StartsPlain alias) in
    let names = load_filename_dir name [] d in
    let paths : map (path_of name full) names ≡ regular_files full d =
      load_filename_dir-regular_files name full [] d plain tt h
      ∙ ap (λ p. regular_files p d) (append-nil full) in
    (
      λ opened.
          let found =
            opened_path-is_member (opened.0) path (new_repository alias (some full) d) (opened.1) in
          subst (λ p. is_member p (regular_files full d) ≡ true) (found.1)
            (subst (λ ps. is_member (path_of name full (opened.0)) ps ≡ true) paths
              (is_member-map (path_of name full) (opened.0) names (found.0))),
      λ e.
          let found = member-map (path_of name full) path names (rw paths e) in
          (
            found.0,
            opened_path-path_of (found.0) (new_repository alias (some full) d)
                  (All-member (StartsWith name) (found.0) names
                    (load_filename_dir-StartsWith name [] d plain) (found.1))
                  (found.1)
                ∙ ap some (found.2),
          ),
    )
