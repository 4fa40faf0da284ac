-- ===== src/Mpfd/Field.antt =====
-- `MPFD::Field` (src/MPFDParser/Field.cc). A pointer that is NULL is `none`.
pub mod Accept
use libnavajo.Base.{
  ℕ, ◌+◌, ◌≡◌, Bool, true, false, not, ◌||◌, List, [], ◌∷◌, ◌++◌, Option, none, some, ltb, ◌==◌,
  if◌then◌else◌, Bytes, length,
}
use libnavajo.Mpfd.Exceptions.{
  Exception, type_incorrect, no_type_set, not_text, not_file, in_filesystem, in_memory, no_temp_dir,
  cannot_write, Result, ok, throw, Run, returns, throws, null_pointer, out_of_fuel,
}
use libnavajo.Mpfd.TempFiles.{Disk, temp_name, temp_path, first_free}

abbrev pub text_type : ℕ
text_type = 1

abbrev pub file_type : ℕ
file_type = 2

-- `Parser::StoreUploadedFilesInFilesystem`, `Parser::StoreUploadedFilesInMemory`
abbrev pub store_in_filesystem : ℕ
store_in_filesystem = 1

abbrev pub store_in_memory : ℕ
store_in_memory = 2

-- `FieldContentLength` is the length of `content`; `file` is what was written to the open file.
pub record Field : Type 0 where
  pub type : ℕ
  pub content : Option Bytes
  pub where_to_store : ℕ
  pub temp_dir : Bytes
  pub temp_file : Bytes
  pub file_content_type : Bytes
  pub file_name : Bytes
  pub file : Option Bytes

-- The constructor leaves `WhereToStoreUploadedFiles` unset; 0 is no storage.
abbrev pub new_field : Field
new_field = record {
  type = 0;
  content = none;
  where_to_store = 0;
  temp_dir = [];
  temp_file = [];
  file_content_type = [];
  file_name = [];
  file = none;
}

unfoldable pub set_type : ℕ → Field → Result Field
set_type t f =
    if t == text_type || t == file_type then ok (record f { type = t }) else throw type_incorrect

unfoldable pub get_type : Field → Result ℕ
get_type f = if ltb 0 f.type then ok f.type else throw no_type_set

abbrev pub set_temp_dir : Bytes → Field → Field
set_temp_dir dir f = record f { temp_dir = dir }

abbrev pub set_file_name : Bytes → Field → Field
set_file_name name f = record f { file_name = name }

abbrev pub set_uploaded_files_storage : ℕ → Field → Field
set_uploaded_files_storage store f = record f { where_to_store = store }

abbrev pub set_file_content_type : Bytes → Field → Field
set_file_content_type t f = record f { file_content_type = t }

-- What a pointer to bytes holds.
abbrev pub held : Option Bytes → Bytes
held none = []
held (some s) = s

abbrev pub append_to : Option Bytes → Bytes → Option Bytes
append_to c s = some (held c ++ s)

-- `file.write` and `file.flush` on a file that is open.
write_file : Field → Disk → Bytes → Run (Field × Disk) (Unit {0})
write_file f disk s = returns tt (record f { file = append_to f.file s }, disk)

-- `file.open` at the free path: it is created, unless it cannot be.
open_temp : (Bytes → Bool) → Field → Disk → Bytes → ℕ → Run (Field × Disk) (Unit {0})
unfolding write_file temp_name temp_path
open_temp can_create f disk s i =
    let named = record f { temp_file = temp_name i } in
    let path = temp_path f.temp_dir i in
    if can_create path
    then write_file (record named { file = some [] }) (path ∷ disk) s
    else throws (cannot_write path) (named, disk)

find_temp : (Bytes → Bool) → Field → Disk → Bytes → Option ℕ → Run (Field × Disk) (Unit {0})
unfolding open_temp
find_temp can_create f disk s none = out_of_fuel
find_temp can_create f disk s (some i) = open_temp can_create f disk s i

-- A file that is kept in the file system, with or without its temporary file open.
accept_in_file :
    (Bytes → Bool) → Field → Disk → Bytes → Option Bytes → Run (Field × Disk) (Unit {0})
unfolding find_temp first_free write_file
accept_in_file can_create f disk s none =
    find_temp can_create f disk s (first_free (length disk + 1) f.temp_dir 1 disk)
accept_in_file can_create f disk s (some written) = write_file f disk s

-- `AcceptSomeData`; `can_create` says where a file can be opened for writing.
unfoldable pub accept_field_data :
    (Bytes → Bool) → Bytes → Field × Disk → Run (Field × Disk) (Unit {0})
unfolding accept_in_file
accept_field_data can_create s (f, disk) =
    if f.type == text_type
    then returns tt (record f { content = append_to f.content s }, disk)
    else if f.type == file_type
    then (if f.where_to_store == store_in_filesystem
        then (if ltb 0 (length f.temp_dir)
            then accept_in_file can_create f disk s f.file
            else throws no_temp_dir (f, disk))
        else returns tt (record f { content = append_to f.content s }, disk))
    else throws no_type_set (f, disk)

-- The shape of every getter of a file: a type must be set, and be that of a file.
file_getter {ℓ} : {A : Type ℓ} → Field → Result A → Result A
file_getter f r =
    if f.type == 0 then throw no_type_set else if f.type == file_type then r else throw not_file

unfoldable pub get_file_content_size : Field → Result ℕ
unfolding file_getter
get_file_content_size f = file_getter f (
    if f.where_to_store == store_in_memory
    then ok (length (held f.content))
    else throw in_filesystem)

unfoldable pub get_file_content : Field → Result (Option Bytes)
unfolding file_getter
get_file_content f =
    file_getter f
      (if f.where_to_store == store_in_memory then ok f.content else throw in_filesystem)

-- A C string ends at its first NUL.
unfoldable pub c_string : Bytes → Bytes
c_string [] = []
c_string (x ∷ xs) = if x == 0 then [] else x ∷ c_string xs

unfoldable pub get_text_type_content : Field → Result Bytes
unfolding c_string
get_text_type_content f =
    if f.type == 0
    then throw no_type_set
    else if not (f.type == text_type)
    then throw not_text
    else ok (c_string (held f.content))

unfoldable pub get_temp_file_name : Field → Result Bytes
unfolding file_getter
get_temp_file_name f = file_getter f (
    if f.where_to_store == store_in_filesystem
    then ok (f.temp_dir ++ (b'/' ∷ f.temp_file))
    else throw in_memory)

unfoldable pub get_file_name : Field → Result Bytes
unfolding file_getter
get_file_name f = file_getter f (ok f.file_name)

unfoldable pub get_file_mime_type : Field → Result Bytes
unfolding file_getter
get_file_mime_type f = file_getter f (ok f.file_content_type)
