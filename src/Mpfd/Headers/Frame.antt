-- ===== src/Mpfd/Headers/Frame.antt =====
-- `Parser::_ParseHeaders` (src/MPFDParser/Parser.cc): the parts of the parser that it writes, and the field
-- that it sets up.
use libnavajo.Base.{
  ℕ, ◌+◌, ◌-◌, ◌<◌, ◌≡◌, refl, Option, none, some, Bytes, codes, lookup, bytes_order,
  lookup-insert_self, find_text, find_byte_from, arith, substr,
}
use libnavajo.Mpfd.Exceptions.{Run, returns, throws, Ends, filename_not_closed, not_form_data}
use libnavajo.Mpfd.Field.{Field, new_field, file_type, set_temp_dir, set_uploaded_files_storage}
use libnavajo.Mpfd.Headers.{
  Parser, set_field, file_headers, parse_file_headers, parse_name, parse_from_name, parse_headers,
}

-- A field is being processed that is there and has a type.
abbrev pub HasField : Parser → Type 0
HasField p = (f : Field) × (lookup p.processing_field_name p.fields ≡ some f) × (0 < f.type)

-- Everything but the fields, the field's name, the disk and the collector is as it was.
pub record Framed (p q : Parser) : Type 0 where
  pub boundary_eq : q.boundary ≡ p.boundary
  pub status_eq : q.status ≡ p.status
  pub max_eq : q.max_length ≡ p.max_length
  pub where_eq : q.where_to_store ≡ p.where_to_store

set_field-HasField : (p : Parser) (f : Field) → 0 < f.type → HasField (set_field p f)
set_field-HasField p f h = (f, lookup-insert_self p.processing_field_name f p.fields, h)

-- A field is set up, or the parser is as it was but for the fields.
abbrev pub SetsUp : Parser → Run Parser (Unit {0}) → Type 0
SetsUp p = Ends (λ u q. Framed p q × HasField q × (q.collector ≡ p.collector)) (λ q. Framed p q)

file_headers_type :
    (h : Bytes) (f : Field) (at : ℕ) (end type_at : Option ℕ) {g : Field}
    → file_headers h f at end type_at ≡ some g
    → g.type ≡ f.type
unfolding file_headers
file_headers_type h f at none type_at e = cc
file_headers_type h f at (some end) none e = ground arith
file_headers_type h f at (some end) (some b) e = ground arith

parse_file_headers-SetsUp :
    (h : Bytes) (p : Parser) (name : Bytes) (at : Option ℕ)
    → SetsUp p (parse_file_headers h (record p { processing_field_name = name }) at)
unfolding parse_file_headers
parse_file_headers-SetsUp h p name none = (
  record { boundary_eq = refl; status_eq = refl; max_eq = refl; where_eq = refl },
  set_field-HasField (record p { processing_field_name = name }) _ (omega arith),
  refl,
)
parse_file_headers-SetsUp h p name (some at) = finish (file_headers h file at end type_at) refl
  where
    file : Field
    file =
        set_uploaded_files_storage p.where_to_store
          (set_temp_dir p.temp_dir (record new_field { type = file_type }))

    end : Option ℕ
    end = find_byte_from b'"' (at + 10) h

    type_at : Option ℕ
    type_at = find_text (codes "Content-Type: ") h

    finish :
        (o : Option Field)
        → file_headers h file at end type_at ≡ o
        → SetsUp p (elim o [
          | none ↦
              throws
                (filename_not_closed h)
                (set_field (record p { processing_field_name = name }) file)
          | some f' ↦ returns tt (set_field (record p { processing_field_name = name }) f')
        ])
    finish none e = record { boundary_eq = refl; status_eq = refl; max_eq = refl; where_eq = refl }
    finish (some g) e = (
      record { boundary_eq = refl; status_eq = refl; max_eq = refl; where_eq = refl },
      set_field-HasField (record p { processing_field_name = name }) g
          (omega (arith, file_headers_type h file at end type_at e)),
      refl,
    )

parse_name-SetsUp :
    (h : Bytes) (p : Parser) (at : ℕ) (end : Option ℕ) → SetsUp p (parse_name h p at end)
unfolding parse_name
parse_name-SetsUp h p at none = record {
  boundary_eq = refl;
  status_eq = refl;
  max_eq = refl;
  where_eq = refl;
}
parse_name-SetsUp h p at (some end) =
    parse_file_headers-SetsUp h p (substr h (at + 6) (end - (at + 6)))
      (find_text (codes "filename=\"") h)

parse_from_name-SetsUp :
    (h : Bytes) (p : Parser) (at : Option ℕ) → SetsUp p (parse_from_name h p at)
unfolding parse_from_name
parse_from_name-SetsUp h p none = record {
  boundary_eq = refl;
  status_eq = refl;
  max_eq = refl;
  where_eq = refl;
}
parse_from_name-SetsUp h p (some at) = parse_name-SetsUp h p at _

after_disposition-SetsUp :
    (h : Bytes) (p : Parser) (o : Option ℕ)
    → SetsUp p (elim o [
      | none ↦ throws (not_form_data h) p
      | some at ↦ parse_from_name h p (find_text (codes "name=\"") h)
    ])
after_disposition-SetsUp h p none = record {
  boundary_eq = refl;
  status_eq = refl;
  max_eq = refl;
  where_eq = refl;
}
after_disposition-SetsUp h p (some at) = parse_from_name-SetsUp h p (find_text (codes "name=\"") h)

-- Parsing headers ends, and where it returns, the field that it names is set up with a type.
pub parse_headers-SetsUp : (h : Bytes) (p : Parser) → SetsUp p (parse_headers h p)
unfolding parse_headers
parse_headers-SetsUp h p =
    after_disposition-SetsUp h p (find_text (codes "Content-Disposition: form-data;") h)
