-- ===== src/Mpfd/Parser.antt =====
-- `MPFD::Parser` (src/MPFDParser/Parser.cc): the three statuses and the data collector.
pub mod Steps
pub mod Rounds
pub mod Measure
pub mod Progress
pub mod Content
pub mod ContentEnd
use libnavajo.Base.{
  ℕ, zero, suc, ◌+◌, ◌-◌, ◌*◌, ◌≡◌, Bool, true, false, not, ◌&&◌, List, [], ◌∷◌, ◌++◌, Option, none,
  some, ltb, ◌==◌, if◌then◌else◌, Bytes, codes, length, take, drop, insert, lookup, bytes_order,
  find_text, starts_with, bytes_eq,
}
use libnavajo.Mpfd.Exceptions.{
  Exception, not_multipart, no_boundary, no_content_type, too_much_data, Result, ok, throw, Run,
  returns, throws, null_pointer, out_of_fuel, ◌>>=◌, ◌>>◌,
}
use libnavajo.Mpfd.Field.{Field, accept_field_data, c_string, store_in_filesystem, file_type}
use libnavajo.Mpfd.Headers.{
  Status, looking_for_starting_boundary, processing_headers, processing_content_of_the_field,
  Parser, parse_headers,
}
use libnavajo.Mpfd.TempFiles.{Disk, temp_path}

-- The constructor: 16 MB for the data collector.
abbrev pub new_parser : Disk → Parser
new_parser disk = record {
  where_to_store = store_in_filesystem;
  fields = [];
  temp_dir = [];
  status = looking_for_starting_boundary;
  boundary = [];
  processing_field_name = [];
  collector = [];
  max_length = 16 * 1024 * 1024;
  disk = disk;
}

unfoldable pub get_field : Bytes → Parser → Option Field
get_field name p = lookup name p.fields

set_boundary : Bytes → Parser → Option ℕ → Result Parser
set_boundary type p none = throw (no_boundary type)
set_boundary type p (some bp) = ok (record p { boundary = codes "--" ++ drop (bp + 9) type })

-- `SetContentType`: the type must begin with `multipart/form-data;`.
unfoldable pub set_content_type : Bytes → Parser → Result Parser
unfolding set_boundary
set_content_type type p =
    if starts_with (codes "multipart/form-data;") type
    then set_boundary type p (find_text (codes "boundary=") type)
    else throw (not_multipart type)

abbrev pub set_uploaded_files_storage : ℕ → Parser → Parser
set_uploaded_files_storage store p = record p { where_to_store = store }

abbrev pub set_temp_dir_for_file_upload : Bytes → Parser → Parser
set_temp_dir_for_file_upload dir p = record p { temp_dir = dir }

abbrev pub set_max_collected_data_length : ℕ → Parser → Parser
set_max_collected_data_length max p = record p { max_length = max }

-- `TruncateDataCollectorFromTheBeginning`
abbrev pub truncate_collector : ℕ → Parser → Parser
truncate_collector n p = record p { collector = drop n p.collector }

-- `BoundaryPositionInDataCollector`: the first match; -1 is `none`.
abbrev pub boundary_position : Parser → Option ℕ
boundary_position p = find_text p.boundary p.collector

-- `FindStartingBoundaryAndTruncData`
unfoldable pub find_starting_boundary_and_trunc_data : Parser → Run Parser Bool
find_starting_boundary_and_trunc_data p = elim (boundary_position p) [
  | none ↦ returns false p
  | some n ↦ returns true (truncate_collector (n + length p.boundary) p)
]

abbrev pub header_end : Bytes
header_end = 13 ∷ 10 ∷ 13 ∷ 10 ∷ []

-- `WaitForHeadersEndAndParseThem`: the headers are handed on as a C string.
unfoldable pub wait_for_headers_end_and_parse_them : Parser → Run Parser Bool
unfolding c_string
wait_for_headers_end_and_parse_them p = elim (find_text header_end p.collector) [
  | none ↦ returns false p
  | some i ↦
      (do
        parse_headers (c_string (take i p.collector))
        λ q. returns true (truncate_collector (i + 4) q))
        p
]

-- `Fields[ProcessingFieldName]->AcceptSomeData(DataCollector, n)`; the exception leaves the field as it is.
pub accept_into : Parser → Run (Field × Disk) (Unit {0}) → Run Parser (Unit {0})
accept_into p (returns u (f, disk)) =
    returns u (record p { fields = insert p.processing_field_name f p.fields; disk = disk })
accept_into p (throws e (f, disk)) =
    throws e (record p { fields = insert p.processing_field_name f p.fields; disk = disk })
accept_into p null_pointer = null_pointer
accept_into p out_of_fuel = out_of_fuel

unfoldable pub send_to_field : (Bytes → Bool) → ℕ → Parser → Run Parser (Unit {0})
unfolding accept_into
send_to_field can_create n p = elim (lookup p.processing_field_name p.fields) [
  | none ↦ null_pointer
  | some f ↦ accept_into p (accept_field_data can_create (take n p.collector) (f, p.disk))
]

-- `if( DataLengthToSendToField > 0 )`: the bytes go to the field and leave the collector.
unfoldable pub send_and_truncate : (Bytes → Bool) → ℕ → Parser → Run Parser (Unit {0})
send_and_truncate can_create n p =
    if ltb 0 n
    then (do send_to_field can_create n; λ q. returns tt (truncate_collector n q)) p
    else returns tt p

-- `ProcessContentOfTheField`: the two bytes before the boundary are its line end; without a boundary
-- as many bytes stay as may be the beginning of one. Lengths below zero send nothing.
unfoldable pub process_content_of_the_field : (Bytes → Bool) → Parser → Run Parser Bool
process_content_of_the_field can_create p = elim (boundary_position p) [
  | none ↦
      (do
        send_and_truncate can_create (length p.collector - (length p.boundary + 2))
        λ q. returns false q)
        p
  | some at ↦
      (do
        send_and_truncate can_create (at - 2)
        λ q. returns true (record q { status = looking_for_starting_boundary }))
        p
]

abbrev set_status : Status → Bool → Parser → Run Parser Bool
set_status st false p = returns false p
set_status st true p = returns true (record p { status = st })

-- One round of the loop in `_ProcessData`; the result is `NeedToRepeat`.
unfoldable pub process_round : (Bytes → Bool) → Status → Parser → Run Parser Bool
process_round can_create looking_for_starting_boundary = do
  again ← find_starting_boundary_and_trunc_data
  set_status processing_headers again
process_round can_create processing_headers = do
  again ← wait_for_headers_end_and_parse_them
  set_status processing_content_of_the_field again
process_round can_create processing_content_of_the_field = do
  again ← process_content_of_the_field can_create
  set_status looking_for_starting_boundary again

-- `_ProcessData`: the rounds, with fuel.
unfoldable pub process_data : (Bytes → Bool) → ℕ → Parser → Run Parser (Unit {0})
process_data can_create zero p = out_of_fuel
process_data can_create (suc fuel) p = elim (process_round can_create p.status p) [
  | returns true q ↦ process_data can_create fuel q
  | returns false q ↦ returns tt q
  | throws e q ↦ throws e q
  | null_pointer ↦ null_pointer
  | out_of_fuel ↦ out_of_fuel
]

-- The fuel: each round but those that leave a content shortens the collector.
abbrev pub rounds : Parser → ℕ
rounds p = 2 * length p.collector + 2

-- `AcceptSomeData`
unfoldable pub accept_some_data : (Bytes → Bool) → Bytes → Parser → Run Parser (Unit {0})
accept_some_data can_create s p =
    if ltb 0 (length p.boundary)
    then (let q = record p { collector = p.collector ++ s } in
        if ltb q.max_length (length q.collector)
        then throws too_much_data q
        else process_data can_create (rounds q) q)
    else throws no_content_type p

-- `remove(path)`
remove_path : Bytes → Disk → Disk
remove_path path [] = []
remove_path path (x ∷ xs) = if bytes_eq path x then xs else x ∷ remove_path path xs

-- The destructor of a field: an open temporary file is closed and removed.
delete_field : Field → Disk → Disk
unfolding remove_path
delete_field f disk = elim f.file [
  | none ↦ disk
  | some written ↦
      if f.type == file_type then remove_path (f.temp_dir ++ (b'/' ∷ f.temp_file)) disk else disk
]

-- The destructor of the parser, over the fields that are left.
unfoldable pub delete_fields : List (Bytes × Field) → Disk → Disk
unfolding delete_field
delete_fields [] disk = disk
delete_fields ((name, f) ∷ fs) disk = delete_fields fs (delete_field f disk)

-- The loop of `accept_request` over the buffers that it receives (src/WebServer.cc).
unfoldable pub accept_chunks : (Bytes → Bool) → List Bytes → Parser → Run Parser (Unit {0})
accept_chunks can_create [] = returns tt
accept_chunks can_create (s ∷ ss) =
    let rest = accept_chunks can_create ss in do accept_some_data can_create s; rest
