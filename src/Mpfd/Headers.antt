-- ===== src/Mpfd/Headers.antt =====
-- `Parser::_ParseHeaders` (src/MPFDParser/Parser.cc): the headers of one part.
pub mod Frame
use libnavajo.Base.{
  ℕ, zero, suc, ◌+◌, ◌-◌, ◌≡◌, Bool, true, false, ◌||◌, List, [], ◌∷◌, Option, none, some, ◌==◌,
  if◌then◌else◌, Bytes, codes, length, get_or, drop, insert, lookup, bytes_order, find_text,
  find_byte_from, substr, sub_size, ltb,
}
use libnavajo.Mpfd.Exceptions.{
  Exception, not_form_data, no_name, name_not_closed, filename_not_closed, Run, returns, throws,
}
use libnavajo.Mpfd.Field.{
  Field, new_field, text_type, file_type, set_temp_dir, set_uploaded_files_storage, set_file_name,
  set_file_content_type,
}
use libnavajo.Mpfd.TempFiles.{Disk}

pub data Status : Type 0 where
  looking_for_starting_boundary processing_headers processing_content_of_the_field : Status

-- `DataCollector` with its length; NULL is the empty text. `disk` is the file system that the
-- fields write to.
pub record Parser : Type 0 where
  pub where_to_store : ℕ
  pub fields : List (Bytes × Field)
  pub temp_dir : Bytes
  pub status : Status
  pub boundary : Bytes
  pub processing_field_name : Bytes
  pub collector : Bytes
  pub max_length : ℕ
  pub disk : Disk

-- The loop that looks for the end of the content type; `at` is `i`, and `h` the text from there on.
-- It leaves `i - 1`, or 0 where the text ends first.
content_type_end : ℕ → Bytes → ℕ
content_type_end at [] = 0
content_type_end at (c ∷ cs) =
    if c == b' ' || c == 10 || c == 13
    then (if at - 1 == 0 then content_type_end (at + 1) cs else at - 1)
    else content_type_end (at + 1) cs

-- `headers.substr(pos + 14, end - (pos + 14))`
content_type_at : Bytes → ℕ → Bytes
unfolding content_type_end
content_type_at h pos =
    let start = pos + 14 in substr h start (sub_size (content_type_end start (drop start h)) start)

-- The part of `_ParseHeaders` for a file, on the field of type `FileType` that it is about: the
-- file's name, then the content type if there is one.
file_headers : Bytes → Field → ℕ → Option ℕ → Option ℕ → Option Field
unfolding content_type_at
file_headers h f filename_pos none content_type_pos = none
file_headers h f filename_pos (some end) none =
    some (set_file_name (substr h (filename_pos + 10) (end - (filename_pos + 10))) f)
file_headers h f filename_pos (some end) (some at) = some (
    set_file_content_type (content_type_at h at)
      (set_file_name (substr h (filename_pos + 10) (end - (filename_pos + 10))) f))

abbrev set_field : Parser → Field → Parser
set_field p f = record p { fields = insert p.processing_field_name f p.fields }

-- The headers behind the name: the type of the new field, and what a file has.
parse_file_headers : Bytes → Parser → Option ℕ → Run Parser (Unit {0})
unfolding file_headers
parse_file_headers h p none = returns tt (set_field p (record new_field { type = text_type }))
parse_file_headers h p (some filename_pos) =
    let f =
      set_uploaded_files_storage p.where_to_store
        (set_temp_dir p.temp_dir (record new_field { type = file_type })) in
    elim (file_headers h f filename_pos (find_byte_from b'"' (filename_pos + 10) h)
      (find_text (codes "Content-Type: ") h)) [
        | none ↦ throws (filename_not_closed h) (set_field p f)
        | some f' ↦ returns tt (set_field p f')
      ]

parse_name : Bytes → Parser → ℕ → Option ℕ → Run Parser (Unit {0})
unfolding parse_file_headers
parse_name h p name_pos none = throws (name_not_closed h) p
parse_name h p name_pos (some end) =
    parse_file_headers h
      (record p { processing_field_name = substr h (name_pos + 6) (end - (name_pos + 6)) })
      (find_text (codes "filename=\"") h)

parse_from_name : Bytes → Parser → Option ℕ → Run Parser (Unit {0})
unfolding parse_name
parse_from_name h p none = throws (no_name h) p
parse_from_name h p (some name_pos) = parse_name h p name_pos (find_byte_from b'"' (name_pos + 6) h)

unfoldable pub parse_headers : Bytes → Parser → Run Parser (Unit {0})
unfolding parse_from_name
parse_headers h p = elim (find_text (codes "Content-Disposition: form-data;") h) [
  | none ↦ throws (not_form_data h) p
  | some at ↦ parse_from_name h p (find_text (codes "name=\"") h)
]
