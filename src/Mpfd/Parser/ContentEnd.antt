-- ===== src/Mpfd/Parser/ContentEnd.antt =====
-- The end of the content of a text field (`Parser::ProcessContentOfTheField`,
-- src/MPFDParser/Parser.cc).
use libnavajo.Base.{ℕ, ◌-◌, ◌≡◌, refl, Bool, true, ◌++◌, some, Bytes, drop, lookup, bytes_order}
use libnavajo.Mpfd.Exceptions.{returns, bind-returns}
use libnavajo.Mpfd.Field.{Field, held}
use libnavajo.Mpfd.Headers.{looking_for_starting_boundary, processing_content_of_the_field, Parser}
use libnavajo.Mpfd.Parser.{
  boundary_position, send_and_truncate, process_content_of_the_field, process_round, set_status,
}
use libnavajo.Mpfd.Parser.Content.{InText, send_and_truncate-InText}

module _ (can_create : Bytes → Bool) where
  process_content_some :
      (at : ℕ) (p q : Parser)
      → boundary_position p ≡ some at
      → send_and_truncate can_create (at - 2) p ≡ returns tt q
      → process_content_of_the_field can_create p
        ≡ returns true (record q { status = looking_for_starting_boundary })
  unfolding process_content_of_the_field
  process_content_some at p q found e =
      rw (found, process_content_of_the_field)
        (bind-returns (send_and_truncate can_create (at - 2))
          (λ u q. returns true (record q { status = looking_for_starting_boundary })) p e)

  -- The boundary at position `at` of the collector ends the content: the field has taken the text up to
  -- the two bytes before the boundary, which stay in the collector, and the parser looks for it again.
  pub process_round-content_end :
      (p : Parser) {text : Bytes} {at : ℕ}
      → InText p text
      → boundary_position p ≡ some at
      → (q : Parser) × (f : Field) × (process_round can_create processing_content_of_the_field p
          ≡ returns true q)
        × (q.status ≡ looking_for_starting_boundary)
        × (lookup q.processing_field_name q.fields ≡ some f)
        × (q.collector ≡ drop (at - 2) p.collector)
        × (held f.content ++ q.collector ≡ text)
  unfolding process_round
  process_round-content_end p {at} t found =
      let (q, e, t', b, m, c) = send_and_truncate-InText can_create (at - 2) p t in
      (
        record q { status = looking_for_starting_boundary },
        t'.field,
        bind-returns (process_content_of_the_field can_create)
            (λ again. set_status looking_for_starting_boundary again) p
            (process_content_some at p q found e),
        refl,
        t'.found,
        c,
        t'.taken,
      )
