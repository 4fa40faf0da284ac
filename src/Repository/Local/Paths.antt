-- ===== src/Repository/Local/Paths.antt =====
-- The paths of the files that a repository serves (src/LocalRepository.cc).
use libnavajo.Base.{
  ℕ, false≢true, ◌≡◌, refl, sym, ap, ◌∙◌, subst, inl, inr, false, List, [], ◌∷◌, ◌++◌, ◌==◌,
  if◌then◌else◌, Bool-cases, Bytes, length, drop, map, append_assoc, All,
}
use libnavajo.Repository.Local.{
  Directory, nothing, file, folder, other, slash, strip_front, is_skipped, load_filename_dir,
  path_of,
}
use mathlib.Core.List.{map-append}

-- A name of an entry: no slash in it, as the file system has it.
abbrev pub HasNoSlash : Bytes → Type 0
HasNoSlash = All (λ c. (c == slash) ≡ false)

abbrev pub NamesHaveNoSlash : Directory → Type 0
NamesHaveNoSlash nothing = Unit
NamesHaveNoSlash (file name rest) = HasNoSlash name × NamesHaveNoSlash rest
NamesHaveNoSlash (folder name inside rest) =
    HasNoSlash name × NamesHaveNoSlash inside × NamesHaveNoSlash rest
NamesHaveNoSlash (other name rest) = NamesHaveNoSlash rest

-- The regular files below a path.
unfoldable pub regular_files : Bytes → Directory → List Bytes
unfolding is_skipped
regular_files path nothing = []
regular_files path (file name rest) =
    let later = regular_files path rest in
    if is_skipped name then later else (path ++ (slash ∷ name)) ∷ later
regular_files path (folder name inside rest) =
    let within = regular_files (path ++ (slash ∷ name)) inside in
    let later = regular_files path rest in if is_skipped name then later else within ++ later
regular_files path (other name rest) = regular_files path rest

-- A path below the directory: empty, or a slash and a name.
abbrev IsBelow : Bytes → Type 0
IsBelow [] = Unit
IsBelow (c ∷ []) = ⊥
IsBelow (c ∷ d ∷ s) = (c ≡ slash) × ((d == slash) ≡ false)

-- No slash begins the alias.
abbrev pub StartsPlain : Bytes → Type 0
StartsPlain [] = Unit
StartsPlain (c ∷ s) = (c == slash) ≡ false

append-IsBelow :
    (sub name : Bytes)
    → IsBelow sub
    → HasNoSlash name
    → is_skipped name ≡ false
    → IsBelow (sub ++ (slash ∷ name))
unfolding is_skipped
append-IsBelow [] [] h k e = absurd (false≢true (sym e))
append-IsBelow [] (c ∷ name) h k e = (refl, k.0)
append-IsBelow (c ∷ []) name h k e = elim h [ ]
append-IsBelow (c ∷ d ∷ sub) name h k e = h

-- Without an alias a name is the path without its first slash.
strip_front-below :
    (sub name : Bytes)
    → IsBelow sub
    → HasNoSlash name
    → is_skipped name ≡ false
    → slash ∷ strip_front (sub ++ (slash ∷ name)) ≡ sub ++ (slash ∷ name)
unfolding strip_front is_skipped
strip_front-below [] [] h k e = absurd (false≢true (sym e))
strip_front-below [] (c ∷ name) h k e = rw (k.0) refl
strip_front-below (c ∷ []) name h k e = elim h [ ]
strip_front-below (c ∷ d ∷ sub) name h k e =
    subst
      (λ c. slash ∷ strip_front (c ∷ d ∷ (sub ++ (slash ∷ name))) ≡ c ∷ d ∷ (sub ++ (slash ∷ name)))
      (sym (h.0)) (rw (h.1) refl)

drop_alias : (alias s : Bytes) → drop (length alias) (alias ++ s) ≡ s
drop_alias [] s = refl
drop_alias (c ∷ alias) s = drop_alias alias s

pub strip_front-plain : (c : ℕ) (s : Bytes) → (c == slash) ≡ false → strip_front (c ∷ s) ≡ c ∷ s
unfolding strip_front
strip_front-plain c s h = rw h refl

-- The path that is opened for a name is the path that the name was listed for.
path_of-listed :
    (alias full sub name : Bytes)
    → StartsPlain alias
    → IsBelow sub
    → HasNoSlash name
    → is_skipped name ≡ false
    → path_of alias full (strip_front (alias ++ (sub ++ (slash ∷ name))))
      ≡ (full ++ sub) ++ (slash ∷ name)
path_of-listed [] full sub name plain h k e =
    ap (λ s. full ++ s) (strip_front-below sub name h k e)
    ∙ sym (append_assoc full sub (slash ∷ name))
path_of-listed (c ∷ alias) full sub name plain h k e =
    ap (path_of (c ∷ alias) full) (strip_front-plain c (alias ++ (sub ++ (slash ∷ name))) plain)
    ∙ (ap (λ s. full ++ s) (drop_alias alias (sub ++ (slash ∷ name)))
        ∙ sym (append_assoc full sub (slash ∷ name)))

-- The names of the set are those of the regular files below the directory.
pub load_filename_dir-regular_files :
    (alias full sub : Bytes) (d : Directory)
    → StartsPlain alias
    → IsBelow sub
    → NamesHaveNoSlash d
    → map (path_of alias full) (load_filename_dir alias sub d) ≡ regular_files (full ++ sub) d
unfolding load_filename_dir regular_files
load_filename_dir-regular_files alias full sub nothing plain h k = refl
load_filename_dir-regular_files alias full sub (file name rest) plain h k =
    let later = load_filename_dir-regular_files alias full sub rest plain h (k.1) in
    elim (Bool-cases (is_skipped name)) [
      | inl e ↦ rw e later
      | inr e ↦ rw (e, path_of-listed alias full sub name plain h (k.0) e, later) refl
    ]
load_filename_dir-regular_files alias full sub (folder name inside rest) plain h k =
    let later = load_filename_dir-regular_files alias full sub rest plain h (k.2) in
    elim (Bool-cases (is_skipped name)) [
      | inl e ↦ rw e later
      | inr e ↦
          let below = sub ++ (slash ∷ name) in
          let within =
            load_filename_dir-regular_files alias full below inside plain
              (append-IsBelow sub name h (k.0) e) (k.1) in
          rw (e, map-append, within, later, append_assoc) refl
    ]
load_filename_dir-regular_files alias full sub (other name rest) plain h k =
    load_filename_dir-regular_files alias full sub rest plain h k
