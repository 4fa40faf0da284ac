-- ===== src/Mpfd/Parser/Measure.antt =====
-- The measure of the rounds of `Parser::_ProcessData` (src/MPFDParser/Parser.cc), and the steps that make
-- it smaller.
use libnavajo.Base.{
  ℕ, ◌+◌, ◌*◌, ◌<◌, ◌≤◌, ◌≡◌, refl, ap, inl, inr, Bool, true, false, length, take, length-drop,
  find_text, find_text-le, arith, Option-cases,
}
use libnavajo.Mpfd.Exceptions.{Run, returns, Ends, Ends-bind}
use libnavajo.Mpfd.Field.{c_string}
use libnavajo.Mpfd.Headers.Frame.{HasField, Framed, parse_headers-SetsUp}
use libnavajo.Mpfd.Headers.{
  Status, looking_for_starting_boundary, processing_headers, processing_content_of_the_field,
  Parser, parse_headers,
}
use libnavajo.Mpfd.Parser.Steps.{Framed-truncate}
use libnavajo.Mpfd.Parser.{
  boundary_position, header_end, truncate_collector, find_starting_boundary_and_trunc_data,
  wait_for_headers_end_and_parse_them,
}

-- What holds between two calls of `AcceptSomeData`.
abbrev pub KnowsField : Status → Parser → Type 0
KnowsField looking_for_starting_boundary p = Unit
KnowsField processing_headers p = Unit
KnowsField processing_content_of_the_field p = HasField p

pub record IsReady (p : Parser) : Type 0 where
  pub boundary_set : 0 < length p.boundary
  pub knows_field : KnowsField p.status p

abbrev pub rank : Status → ℕ
rank looking_for_starting_boundary = 0
rank processing_headers = 0
rank processing_content_of_the_field = 1

abbrev pub measure : Parser → ℕ
measure p = 2 * length p.collector + rank p.status

-- A round goes on only with a smaller measure.
abbrev pub Goes : Parser → Bool → Parser → Type 0
Goes p again q = IsReady q × (again ≡ true → measure q < measure p)

abbrev pub Round : Parser → Run Parser Bool → Type 0
Round p = Ends (Goes p) IsReady

abbrev one_if : Bool → ℕ
one_if true = 1
one_if false = 0

-- A step that is true takes bytes from the collector.
pub record Shortens (p : Parser) (again : Bool) (q : Parser) : Type 0 where
  pub frame : Framed p q
  pub shorter : length q.collector + one_if again ≤ length p.collector

pub find_starting-Shortens :
    (p : Parser)
    → 0 < length p.boundary
    → Ends (Shortens p) IsReady (find_starting_boundary_and_trunc_data p)
unfolding find_starting_boundary_and_trunc_data
find_starting-Shortens p b = elim (Option-cases (boundary_position p)) [
  | inl absent ↦
      rw (absent, find_starting_boundary_and_trunc_data)
        (record {
          frame = record { boundary_eq = refl; status_eq = refl; max_eq = refl; where_eq = refl };
          shorter = omega arith;
        })
  | inr (at, found) ↦
      rw (found, find_starting_boundary_and_trunc_data)
        (record {
          frame = record { boundary_eq = refl; status_eq = refl; max_eq = refl; where_eq = refl };
          shorter = omega (
            arith,
            find_text-le p.boundary p.collector found,
            length-drop (at + length p.boundary) p.collector,
          );
        })
]

-- The headers that are waited for, and the field that they set up.
pub record Headed (p : Parser) (again : Bool) (q : Parser) : Type 0 where
  pub frame : Framed p q
  pub shorter : length q.collector + one_if again ≤ length p.collector
  pub has_field : again ≡ true → HasField q

-- The headers end at a position that leaves four bytes to drop.
pub wait_for_headers-Headed :
    (p : Parser) → Ends (Headed p) (λ q. Framed p q) (wait_for_headers_end_and_parse_them p)
unfolding wait_for_headers_end_and_parse_them
wait_for_headers-Headed p = elim (Option-cases (find_text header_end p.collector)) [
  | inl absent ↦
      rw (absent, wait_for_headers_end_and_parse_them)
        (record {
          frame = record { boundary_eq = refl; status_eq = refl; max_eq = refl; where_eq = refl };
          shorter = omega arith;
          has_field = λ x. cc;
        })
  | inr (at, found) ↦
      rw (found, wait_for_headers_end_and_parse_them)
        (Ends-bind (λ u q. Framed p q × HasField q × (q.collector ≡ p.collector)) _ (Headed p)
          (parse_headers (c_string (take at p.collector)))
          (λ u q. returns true (truncate_collector (at + 4) q)) p
          (parse_headers-SetsUp (c_string (take at p.collector)) p)
          (λ u q s. record {
            frame = Framed-truncate (at + 4) s.0;
            shorter = omega (
              arith,
              find_text-le header_end p.collector found,
              length-drop (at + 4) q.collector,
              ap length s.2,
            );
            has_field = λ x. s.1;
          }))
]
