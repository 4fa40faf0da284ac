-- ===== src/Server/Request/Body.antt =====
-- The reading of a request's content in `WebServer::accept_request` (src/WebServer.cc), where the
-- connection is not encrypted.
pub mod Payload
pub mod Rest
pub mod Ends
pub mod Expected
use libnavajo.Base.{
  ℕ, zero, suc, ◌+◌, ◌-◌, ◌^◌, Bool, true, false, not, List, [], ◌∷◌, ◌++◌, Option, none, some, ltb,
  leb, ◌==◌, if◌then◌else◌, Bytes, codes, length, take,
}
use libnavajo.Mpfd.Exceptions.{Result, ok, throw, Run, returns, throws, null_pointer, out_of_fuel}
use libnavajo.Mpfd.TempFiles.{Disk}
use libnavajo.Mpfd.Headers.{Parser}
use libnavajo.Mpfd.Parser.{
  new_parser, set_content_type, set_uploaded_files_storage, set_temp_dir_for_file_upload,
  set_max_collected_data_length, accept_some_data,
}
use libnavajo.Mpfd.Field.{store_in_filesystem}
use libnavajo.Server.Stream.Reads.{Connection, body, read_call}
use libnavajo.Server.Request.Url.{buf_size}

-- What the content is read into: the parameters, the payload and the parser of a form.
pub record Content : Type 0 where
  pub request_params : Option Bytes
  pub payload : Bytes
  pub parser : Option Parser

-- The parser for a multipart form; none where its content type is refused.
unfoldable pub make_parser : Bytes → ℕ → Disk → Bytes → Option Parser
make_parser temp_dir max_length disk multipart_content =
    let p = set_max_collected_data_length max_length (
      set_temp_dir_for_file_upload temp_dir
        (set_uploaded_files_storage store_in_filesystem (new_parser disk))) in
    elim (set_content_type multipart_content p) [ ok q ↦ some q | throw e ↦ none ]

-- How the reading ends: with all of it, or with the `break` after an error; with the end of the
-- connection; or by an exception that is not caught or an access that faults.
pub data ContentEnd : Type 0 where
  finished given_up : Content → ContentEnd
  cut_off length_error faults : ContentEnd

pub data BufferEnd : Type 0 where
  taken : Content → BufferEnd
  breaks : Content → BufferEnd
  throws_out faulty : BufferEnd

-- `reserve` throws `length_error` beyond the size a vector can have, and `bad_alloc`, which is caught,
-- where the memory does not `fit`.
abbrev pub max_vector_size : ℕ
max_vector_size = 2 ^ 63 - 1

abbrev pub or_nothing : Option Bytes → Bytes
or_nothing none = []
or_nothing (some s) = s

abbrev pub parsed : Content → Run Parser (Unit {0}) → BufferEnd
parsed b (returns a p) = taken (record b { parser = some p })
parsed b (throws e p) = breaks (record b { parser = some p })
parsed b null_pointer = faulty
parsed b out_of_fuel = faulty

unfoldable pub to_payload : (ℕ → Bool) → ℕ → ℕ → Bytes → Content → BufferEnd
to_payload fits content_length datalen buffer b =
    let b' = record b { payload = take datalen b.payload ++ buffer } in
    if length b.payload == 0
    then (if ltb max_vector_size content_length
        then throws_out
        else (if fits content_length then taken b' else breaks b))
    else taken b'

-- What is done with a buffer that was received at the place `datalen`.
unfoldable pub take_buffer :
    (Bytes → Bool) → (ℕ → Bool) → Bool → ℕ → ℕ → Bytes → Content → BufferEnd
unfolding to_payload
take_buffer can_create fits urlencoded_form content_length datalen buffer b =
    if urlencoded_form
    then taken
        (record b { request_params = some (take datalen (or_nothing b.request_params) ++ buffer) })
    else (elim b.parser [
      | none ↦ to_payload fits content_length datalen buffer b
      | some p ↦ parsed b (accept_some_data can_create buffer p)
    ])

abbrev pub requested_length : ℕ → ℕ → ℕ
requested_length content_length datalen =
    if ltb buf_size (content_length - datalen) then buf_size else content_length - datalen

-- The loop, on fuel; `none` where the fuel ends.
unfoldable pub read_content :
    ℕ
    → ℕ
    → (Bytes → Bool)
    → (ℕ → Bool)
    → Bool
    → ℕ
    → ℕ
    → Content
    → Connection
    → Option (ContentEnd × Connection)
unfolding take_buffer
read_content zero client can_create fits urlencoded_form content_length datalen b c = none
read_content (suc fuel) client can_create fits urlencoded_form content_length datalen b c =
    elim (ltb datalen content_length) [
      | false ↦ some (finished b, c)
      | true ↦ elim (read_call client (body (requested_length content_length datalen)) c) [
        | none ↦ none
        | some (buffer, c') ↦
            let next =
              take_buffer can_create fits urlencoded_form content_length datalen buffer b in
            elim (length buffer == 0) [
              | true ↦ some (cut_off, c')
              | false ↦ elim next [
                | taken b' ↦
                    read_content fuel client can_create fits urlencoded_form content_length
                      (datalen + length buffer) b' c'
                | breaks b' ↦ some (given_up b', c')
                | throws_out ↦ some (length_error, c')
                | faulty ↦ some (faults, c')
              ]
            ]
      ]
    ]
