-- ===== src/Mpfd/Tests.antt =====
-- Runs of the multipart parser, and the theorems at inputs.
use libnavajo.Base.{
  ◌≡◌, ◌-◌, refl, Bool, true, [], ◌∷◌, ◌++◌, some, none, Bytes, codes, arith, drop, bytes_order,
  lookup, insert, bytes_lt, equiv, find_byte, find_text, starts_with, sub_size, find_byte_from,
  bytes_eq,
}
use libnavajo.Mpfd.Exceptions.{Run, returns, throws, null_pointer, out_of_fuel, ok, throw, Ends}
use libnavajo.Mpfd.Field.{
  Field, text_type, new_field, held, accept_field_data, c_string, get_text_type_content,
}
use libnavajo.Mpfd.Headers.{
  Parser, parse_headers, processing_content_of_the_field, looking_for_starting_boundary,
}
use libnavajo.Mpfd.Parser.Content.{InText, accept_chunks-InText}
use libnavajo.Mpfd.Parser.ContentEnd.{process_round-content_end}
use libnavajo.Mpfd.Parser.Progress.{accept_some_data-IsReady}
use libnavajo.Mpfd.Parser.Measure.{IsReady}
use libnavajo.Mpfd.Parser.{
  new_parser, accept_some_data, accept_chunks, process_data, process_round,
  find_starting_boundary_and_trunc_data, wait_for_headers_end_and_parse_them,
  process_content_of_the_field, send_and_truncate, send_to_field,
}

abbrev anywhere : Bytes → Bool
anywhere path = true

abbrev start : Parser
start = record (new_parser []) { boundary = codes "--XX" }

abbrev body : Bytes
body =
    codes "--XX\r\nContent-Disposition: form-data; name=\"a\"\r\n\r\nhello\r\n--XX\r\n"
    ++ codes
        "Content-Disposition: form-data; name=\"f\"; filename=\"x.txt\"\r\nContent-Type: text/plain\r\nX: y\r\n\r\n12\r\n--XX--\r\n"

abbrev final : Run Parser (Unit {0}) → Bytes → Bytes
final (returns u p) name = elim (lookup name p.fields) [
  | none ↦ codes "no field"
  | some f ↦ elim (get_text_type_content f) [ ok s ↦ s | throw e ↦ f.file_content_type ]
]
final (throws e p) name = codes "throws"
final null_pointer name = codes "null"
final out_of_fuel name = codes "fuel"

run_a :
    final (accept_some_data anywhere body (record start { temp_dir = codes "/tmp" })) (codes "a")
    ≡ codes "hello"
unfolding accept_some_data process_data process_round find_starting_boundary_and_trunc_data
    wait_for_headers_end_and_parse_them parse_headers process_content_of_the_field send_and_truncate
    send_to_field accept_field_data c_string lookup insert bytes_lt equiv find_byte find_text
    starts_with sub_size find_byte_from get_text_type_content bytes_eq
run_a = refl

-- A content type that is not in the last header loses its last character.
run_f :
    final (accept_some_data anywhere body (record start { temp_dir = codes "/tmp" })) (codes "f")
    ≡ codes "text/plai"
unfolding accept_some_data process_data process_round find_starting_boundary_and_trunc_data
    wait_for_headers_end_and_parse_them parse_headers process_content_of_the_field send_and_truncate
    send_to_field accept_field_data c_string lookup insert bytes_lt equiv find_byte find_text
    starts_with sub_size find_byte_from get_text_type_content bytes_eq
run_f = refl

-- A parser in the content of the text field `a`.
abbrev in_a : Parser
in_a = record start {
  status = processing_content_of_the_field;
  processing_field_name = codes "a";
  fields = (codes "a", record new_field { type = text_type }) ∷ [];
}

in_a-InText : InText in_a []
unfolding lookup equiv bytes_lt
in_a-InText = record {
  in_content = refl;
  field = record new_field { type = text_type };
  found = refl;
  is_text = refl;
  taken = refl;
}

accept_chunks-InText_example :
    (q : Parser) × (accept_chunks anywhere (codes "hel" ∷ codes "lo\r\n--" ∷ []) in_a
      ≡ returns tt q)
    × InText q (codes "hello\r\n--")
unfolding find_text starts_with
accept_chunks-InText_example =
    accept_chunks-InText anywhere (codes "hel" ∷ codes "lo\r\n--" ∷ []) in_a in_a-InText
      (omega arith) refl (omega arith)

abbrev at_end : Parser
at_end = record in_a { collector = codes "hello\r\n--XX--" }

at_end-InText : InText at_end (codes "hello\r\n--XX--")
unfolding lookup equiv bytes_lt
at_end-InText = record {
  in_content = refl;
  field = record new_field { type = text_type };
  found = refl;
  is_text = refl;
  taken = refl;
}

process_round-content_end_example :
    (q : Parser) × (f : Field) × (process_round anywhere processing_content_of_the_field at_end
      ≡ returns true q)
    × (q.status ≡ looking_for_starting_boundary)
    × (lookup q.processing_field_name q.fields ≡ some f)
    × (q.collector ≡ drop (7 - 2) at_end.collector)
    × (held f.content ++ q.collector ≡ codes "hello\r\n--XX--")
unfolding find_text starts_with
process_round-content_end_example = process_round-content_end anywhere at_end at_end-InText refl

accept_some_data-IsReady_example :
    Ends (λ u q. IsReady q) IsReady (accept_some_data anywhere body start)
accept_some_data-IsReady_example =
    accept_some_data-IsReady anywhere body start
      (record { boundary_set = omega arith; knows_field = tt })
