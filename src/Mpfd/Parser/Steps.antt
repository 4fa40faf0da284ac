-- ===== src/Mpfd/Parser/Steps.antt =====
-- The steps of a round of `Parser::_ProcessData` (src/MPFDParser/Parser.cc): what they write.
use libnavajo.Base.{
  ℕ, ◌<◌, ◌≡◌, refl, inl, inr, Bool, ltb, Bytes, take, drop, bytes_order, lookup-insert_self, ap,
  arith, Bool-cases,
}
use libnavajo.Mpfd.Exceptions.{Run, returns, throws, null_pointer, out_of_fuel, Ends, Ends-bind}
use libnavajo.Mpfd.TempFiles.{Disk}
use libnavajo.Mpfd.Field.{Field, accept_field_data}
use libnavajo.Mpfd.Field.Accept.{KeepsType, accept_field_data-KeepsType}
use libnavajo.Mpfd.Headers.Frame.{HasField, Framed}
use libnavajo.Mpfd.Headers.{Parser}
use libnavajo.Mpfd.Parser.{accept_into, send_to_field, send_and_truncate, truncate_collector}

-- The bytes went to a field, and `n` of them left the collector.
pub record Sent (n : ℕ) (p q : Parser) : Type 0 where
  pub frame : Framed p q
  pub has_field : HasField q
  pub shortened : q.collector ≡ drop n p.collector

pub Framed-truncate :
    (n : ℕ) {p q : Parser} → Framed p q → Framed p (record q { collector = drop n q.collector })
Framed-truncate n f = record {
  boundary_eq = f.boundary_eq;
  status_eq = f.status_eq;
  max_eq = f.max_eq;
  where_eq = f.where_eq;
}

module _ (can_create : Bytes → Bool) where
  accept_into-Ends :
      (p : Parser) (f : Field) (r : Run (Field × Disk) (Unit {0}))
      → 0 < f.type
      → KeepsType can_create f r
      → Ends (λ u q. Sent 0 p q) (λ q. Framed p q × HasField q) (accept_into p r)
  unfolding accept_into
  accept_into-Ends p f (returns u (g, disk)) h k = record {
    frame = record { boundary_eq = refl; status_eq = refl; max_eq = refl; where_eq = refl };
    has_field = (g, lookup-insert_self p.processing_field_name g p.fields, omega arith);
    shortened = refl;
  }
  accept_into-Ends p f (throws e (g, disk)) h k = (
    record { boundary_eq = refl; status_eq = refl; max_eq = refl; where_eq = refl },
    (g, lookup-insert_self p.processing_field_name g p.fields, omega arith),
  )
  accept_into-Ends p f null_pointer h k = absurd k
  accept_into-Ends p f out_of_fuel h k = absurd k

  send_to_field-Ends :
      (n : ℕ) (p : Parser)
      → HasField p
      → Ends (λ u q. Sent 0 p q) (λ q. Framed p q × HasField q) (send_to_field can_create n p)
  unfolding send_to_field
  send_to_field-Ends n p (f, e, h) =
      rw (e, send_to_field)
        (accept_into-Ends p f (accept_field_data can_create (take n p.collector) (f, p.disk)) h
          (accept_field_data-KeepsType can_create f p.disk (take n p.collector)))

  pub send_and_truncate-Ends :
      (n : ℕ) (p : Parser)
      → HasField p
      → Ends (λ u q. Sent n p q) (λ q. Framed p q × HasField q) (send_and_truncate can_create n p)
  unfolding send_and_truncate
  send_and_truncate-Ends n p h = elim (Bool-cases (ltb 0 n)) [
    | inl some' ↦
        rw (some', send_and_truncate)
          (Ends-bind (λ u q. Sent 0 p q) _ (λ u q. Sent n p q) (send_to_field can_create n)
            (λ u q. returns tt (truncate_collector n q)) p (send_to_field-Ends n p h)
            (λ u q s. record {
              frame = Framed-truncate n s.frame;
              has_field = s.has_field;
              shortened = ap (drop n) s.shortened;
            }))
    | inr none' ↦
        rw (none', send_and_truncate)
          (record {
            frame = record { boundary_eq = refl; status_eq = refl; max_eq = refl; where_eq = refl };
            has_field = h;
            shortened = let z : n ≡ 0 = ground arith in rw z refl;
          })
  ]
