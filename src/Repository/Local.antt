-- ===== src/Repository/Local.antt =====
-- The files of a directory: `LocalRepository` (src/LocalRepository.cc,
-- include/libnavajo/LocalRepository.hh).
pub mod Paths
pub mod Served
use libnavajo.Base.{
  ℕ, zero, suc, ◌*◌, Bool, true, false, not, ◌&&◌, ◌||◌, List, [], ◌∷◌, ◌++◌, Option, none, some,
  ltb, ◌==◌, if◌then◌else◌, Bytes, codes, bytes_eq, starts_with, length, drop,
}
use libnavajo.Response.{HttpResponse, set_content}

-- What `readdir` and `lstat` find: entries one after another. A directory that cannot be opened is one
-- without entries, and an `other` entry is no file and no directory, or `lstat` fails on it.
pub data Directory : Type 0 where
  nothing : Directory
  file : Bytes → Directory → Directory
  folder : Bytes → Directory → Directory → Directory
  other : Bytes → Directory → Directory

abbrev pub slash : ℕ
slash = b'/'

-- The loops that erase slashes at the beginning, and at the end.
unfoldable pub strip_front : Bytes → Bytes
strip_front [] = []
strip_front (c ∷ s) = if c == slash then strip_front s else c ∷ s

abbrev pub cons_unless_slash : ℕ → Bytes → Bytes
cons_unless_slash c [] = if c == slash then [] else c ∷ []
cons_unless_slash c (d ∷ s) = c ∷ d ∷ s

unfoldable pub strip_back : Bytes → Bytes
strip_back [] = []
strip_back (c ∷ s) = cons_unless_slash c (strip_back s)

unfoldable pub is_skipped : Bytes → Bool
unfolding bytes_eq
is_skipped name = bytes_eq name (codes ".") || bytes_eq name (codes "..") || length name == 0

-- `loadFilename_dir`: the names that are put into the set.
unfoldable pub load_filename_dir : Bytes → Bytes → Directory → List Bytes
unfolding strip_front is_skipped
load_filename_dir alias subpath nothing = []
load_filename_dir alias subpath (file name rest) =
    let later = load_filename_dir alias subpath rest in
    if is_skipped name then later else strip_front (alias ++ (subpath ++ (slash ∷ name))) ∷ later
load_filename_dir alias subpath (folder name inside rest) =
    let within = load_filename_dir alias (subpath ++ (slash ∷ name)) inside in
    let later = load_filename_dir alias subpath rest in
    if is_skipped name then later else within ++ later
load_filename_dir alias subpath (other name rest) = load_filename_dir alias subpath rest

pub record LocalRepository : Type 0 where
  pub alias_name : Bytes
  pub full_path_to_local_dir : Bytes
  pub filenames_set : List Bytes

-- The constructor, with what `realpath` gives for the directory: none where it fails.
unfoldable pub new_repository : Bytes → Option Bytes → Directory → LocalRepository
unfolding strip_front strip_back load_filename_dir
new_repository alias resolved directory =
    let alias_name = strip_back (strip_front alias) in
    elim resolved [
      | none ↦ record { alias_name = alias_name; full_path_to_local_dir = []; filenames_set = [] }
      | some path ↦ record {
        alias_name = alias_name;
        full_path_to_local_dir = path;
        filenames_set = load_filename_dir alias_name [] directory;
      }
    ]

-- `reload`, with the directory as it is then.
abbrev pub reload : Directory → LocalRepository → LocalRepository
reload directory r = record r { filenames_set = load_filename_dir r.alias_name [] directory }

unfoldable pub is_member : Bytes → List Bytes → Bool
is_member s [] = false
is_member s (x ∷ xs) = bytes_eq s x || is_member s xs

-- `fileExist`
abbrev pub file_exist : Bytes → LocalRepository → Bool
file_exist url r = is_member url r.filenames_set

-- The path of the file for a URL.
abbrev pub path_of : Bytes → Bytes → Bytes → Bytes
path_of [] full url = full ++ (slash ∷ url)
path_of (c ∷ alias) full url = full ++ drop (length (c ∷ alias)) url

abbrev pub max_file_size : ℕ
max_file_size = 100 * 1024 * 1024

-- The path that is opened for a URL, if it is one of the set.
unfoldable pub opened_path : Bytes → LocalRepository → Option Bytes
unfolding is_member
opened_path url r =
    if starts_with r.alias_name url && is_member url r.filenames_set
    then some (path_of r.alias_name r.full_path_to_local_dir url)
    else none

-- What is read from a path, where it can be opened and read whole.
abbrev pub with_file : Option Bytes → HttpResponse → Bool × HttpResponse
with_file none response = (false, response)
with_file (some content) response =
    if ltb max_file_size (length content)
    then (false, response)
    else (true, set_content (some content) (length content) response)

-- `getFile`
unfoldable pub get_file :
    (Bytes → Option Bytes) → Bytes → LocalRepository → HttpResponse → Bool × HttpResponse
unfolding opened_path
get_file reads url r response = elim (opened_path url r) [
  | none ↦ (false, response)
  | some path ↦ with_file (reads path) response
]
