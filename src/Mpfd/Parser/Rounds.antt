-- ===== src/Mpfd/Parser/Rounds.antt =====
-- The rounds of `Parser::_ProcessData` (src/MPFDParser/Parser.cc), with the measure of the loop.
use libnavajo.Base.{
  ◌+◌, ◌-◌, ◌<◌, ◌≤◌, ◌≡◌, refl, ap, inl, inr, Bool, true, false, Bytes, length, length-drop, arith,
  Option-cases,
}
use libnavajo.Mpfd.Exceptions.{returns, Ends, Ends-bind, Ends-weaken}
use libnavajo.Mpfd.Headers.Frame.{HasField, Framed}
use libnavajo.Mpfd.Headers.{
  Status, looking_for_starting_boundary, processing_headers, processing_content_of_the_field,
  Parser,
}
use libnavajo.Mpfd.Parser.Steps.{Sent, send_and_truncate-Ends}
use libnavajo.Mpfd.Parser.{
  boundary_position, find_starting_boundary_and_trunc_data, wait_for_headers_end_and_parse_them,
  send_and_truncate, process_content_of_the_field, set_status, process_round,
}
use libnavajo.Mpfd.Parser.Measure.{
  IsReady, Goes, Round, Shortens, find_starting-Shortens, Headed, wait_for_headers-Headed,
}

module _ (can_create : Bytes → Bool) where
  looking-Round :
      (p : Parser)
      → 0 < length p.boundary
      → p.status ≡ looking_for_starting_boundary
      → Round p (process_round can_create looking_for_starting_boundary p)
  unfolding process_round
  looking-Round p b e =
      Ends-bind (Shortens p) IsReady _ find_starting_boundary_and_trunc_data
        (λ again. set_status processing_headers again) p (find_starting-Shortens p b)
        (λ again q s. after again q s)
    where
      after :
          (again : Bool) (q : Parser)
          → Shortens p again q
          → Round p (set_status processing_headers again q)
      after true q s = (
        record { boundary_set = rw s.frame.boundary_eq b; knows_field = tt },
        λ _. omega (arith, s.shorter),
      )
      after false q s = (
        record {
          boundary_set = rw s.frame.boundary_eq b;
          knows_field = rw (s.frame.status_eq, e) tt;
        },
        λ x. cc,
      )

  headers-Round :
      (p : Parser)
      → 0 < length p.boundary
      → p.status ≡ processing_headers
      → Round p (process_round can_create processing_headers p)
  unfolding process_round
  headers-Round p b e =
      Ends-weaken (Goes p) (λ q. Framed p q) IsReady
        (λ q f. record { boundary_set = rw f.boundary_eq b; knows_field = rw (f.status_eq, e) tt })
        _
        (Ends-bind (Headed p) _ _ wait_for_headers_end_and_parse_them
          (λ again. set_status processing_content_of_the_field again) p (wait_for_headers-Headed p)
          (λ again q s. after again q s))
    where
      after :
          (again : Bool) (q : Parser)
          → Headed p again q
          → Ends (Goes p) (λ q. Framed p q) (set_status processing_content_of_the_field again q)
      after true q s = (
        record { boundary_set = rw s.frame.boundary_eq b; knows_field = s.has_field refl },
        λ _. omega (arith, s.shorter),
      )
      after false q s = (
        record {
          boundary_set = rw s.frame.boundary_eq b;
          knows_field = rw (s.frame.status_eq, e) tt;
        },
        λ x. cc,
      )

  -- The content goes to the field; only a boundary ends it.
  record Contents (p : Parser) (again : Bool) (q : Parser) : Type 0 where
    boundary_same : q.boundary ≡ p.boundary
    not_longer : length q.collector ≤ length p.collector
    has_field : HasField q
    status_same : again ≡ false → q.status ≡ p.status

  process_content-Contents :
      (p : Parser)
      → HasField p
      → Ends (Contents p) (λ q. Framed p q × HasField q) (process_content_of_the_field can_create p)
  unfolding process_content_of_the_field
  process_content-Contents p h = elim (Option-cases (boundary_position p)) [
    | inl absent ↦
        rw (absent, process_content_of_the_field)
          (let n = length p.collector - (length p.boundary + 2) in
            Ends-bind (λ u q. Sent n p q) _ (Contents p) (send_and_truncate can_create n)
              (λ u q. returns false q) p (send_and_truncate-Ends can_create n p h)
              (λ u q s. record {
                boundary_same = s.frame.boundary_eq;
                not_longer = omega (arith, ap length s.shortened, length-drop n p.collector);
                has_field = s.has_field;
                status_same = λ _. s.frame.status_eq;
              }))
    | inr (at, found) ↦
        rw (found, process_content_of_the_field)
          (Ends-bind (λ u q. Sent (at - 2) p q) _ (Contents p)
            (send_and_truncate can_create (at - 2))
            (λ u q. returns true (record q { status = looking_for_starting_boundary })) p
            (send_and_truncate-Ends can_create (at - 2) p h)
            (λ u q s. record {
              boundary_same = s.frame.boundary_eq;
              not_longer = omega (arith, ap length s.shortened, length-drop (at - 2) p.collector);
              has_field = s.has_field;
              status_same = λ x. cc;
            }))
  ]

  content-Round :
      (p : Parser)
      → 0 < length p.boundary
      → HasField p
      → p.status ≡ processing_content_of_the_field
      → Round p (process_round can_create processing_content_of_the_field p)
  unfolding process_round
  content-Round p b h e =
      Ends-weaken (Goes p) (λ q. Framed p q × HasField q) IsReady
        (λ q f. record {
          boundary_set = rw f.0.boundary_eq b;
          knows_field = rw (f.0.status_eq, e) f.1;
        })
        _
        (Ends-bind (Contents p) _ _ (process_content_of_the_field can_create)
          (λ again. set_status looking_for_starting_boundary again) p (process_content-Contents p h)
          (λ again q s. after again q s))
    where
      after :
          (again : Bool) (q : Parser)
          → Contents p again q
          → Ends
              (Goes p)
              (λ q. Framed p q × HasField q)
              (set_status looking_for_starting_boundary again q)
      after true q s = (
        record { boundary_set = rw s.boundary_same b; knows_field = tt },
        λ _. rw e (omega (arith, s.not_longer)),
      )
      after false q s = (
        record {
          boundary_set = rw s.boundary_same b;
          knows_field = rw (s.status_same refl, e) s.has_field;
        },
        λ x. cc,
      )

  pub process_round-Round :
      (st : Status) (p : Parser)
      → p.status ≡ st
      → IsReady p
      → Round p (process_round can_create st p)
  process_round-Round looking_for_starting_boundary p e r = looking-Round p r.boundary_set e
  process_round-Round processing_headers p e r = headers-Round p r.boundary_set e
  process_round-Round processing_content_of_the_field p e r =
      content-Round p r.boundary_set (rw e at r.knows_field) e
