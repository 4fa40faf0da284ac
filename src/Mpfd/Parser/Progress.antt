-- ===== src/Mpfd/Parser/Progress.antt =====
-- `Parser::AcceptSomeData` (src/MPFDParser/Parser.cc): its ends and its fuel.
use libnavajo.Base.{
  ℕ, zero, suc, ◌+◌, ◌*◌, ◌<◌, ◌≡◌, refl, subst, inl, inr, Bool, true, false, ◌++◌, ltb, Bytes,
  length, find_text, arith, lt→ltb, codes, starts_with, Bool-cases, Option-cases,
}
use libnavajo.Mpfd.Exceptions.{ok, Run, returns, throws, null_pointer, out_of_fuel, Ends}
use libnavajo.Mpfd.Headers.{
  Status, looking_for_starting_boundary, processing_headers, processing_content_of_the_field,
  Parser,
}
use libnavajo.Mpfd.TempFiles.{Disk}
use libnavajo.Mpfd.Parser.Rounds.{process_round-Round}
use libnavajo.Mpfd.Parser.Measure.{IsReady, KnowsField, rank, measure, Round}
use libnavajo.Mpfd.Parser.{
  process_round, process_data, rounds, accept_some_data, set_content_type, set_boundary, new_parser,
}

module _ (can_create : Bytes → Bool) where
  process_data-IsReady :
      (fuel : ℕ) (p : Parser)
      → measure p < fuel
      → IsReady p
      → Ends (λ u q. IsReady q) IsReady (process_data can_create fuel p)
  unfolding process_data
  process_data-IsReady zero p m r = absurd (omega arith)
  process_data-IsReady (suc fuel) p m r =
      go (process_data-IsReady fuel) (process_round can_create p.status p)
        (process_round-Round can_create p.status p refl r)
    where
      go :
          ((q : Parser)
            → measure q < fuel
            → IsReady q
            → Ends (λ u q. IsReady q) IsReady (process_data can_create fuel q))
          → (x : Run Parser Bool) → Round p x
          → Ends
              (λ u q. IsReady q)
              IsReady
              (elim x [
                | returns true q ↦ process_data can_create fuel q
                | returns false q ↦ returns tt q
                | throws e q ↦ throws e q
                | null_pointer ↦ null_pointer
                | out_of_fuel ↦ out_of_fuel
              ])
      go recur (returns true q) k = recur q (omega (arith, k.1 refl)) k.0
      go recur (returns false q) k = k.0
      go recur (throws e q) k = k
      go recur null_pointer k = k
      go recur out_of_fuel k = k

  -- `AcceptSomeData` on a parser that is ready, with any bytes, ends: it returns or throws an
  -- exception, it never writes to a missing field nor loops, and leaves the parser ready.
  pub accept_some_data-IsReady :
      (s : Bytes) (p : Parser)
      → IsReady p
      → Ends (λ u q. IsReady q) IsReady (accept_some_data can_create s p)
  unfolding accept_some_data
  accept_some_data-IsReady s p r =
      let q = record p { collector = p.collector ++ s } in
      let ready : IsReady q = record {
        boundary_set = r.boundary_set;
        knows_field = knows p.status r.knows_field;
      } in
      rw (lt→ltb 0 (length p.boundary) r.boundary_set)
        (elim (Bool-cases (ltb q.max_length (length q.collector))) [
          | inl large ↦ rw large ready
          | inr small ↦ rw small (process_data-IsReady (rounds q) q (rank-lt q.status) ready)
        ])
    where
      knows :
          (st : Status)
          → KnowsField st p
          → KnowsField st (record p { collector = p.collector ++ s })
      knows looking_for_starting_boundary h = tt
      knows processing_headers h = tt
      knows processing_content_of_the_field h = h

      rank-lt :
          (st : Status)
          → 2 * length (p.collector ++ s) + rank st < 2 * length (p.collector ++ s) + 2
      rank-lt looking_for_starting_boundary = omega arith
      rank-lt processing_headers = omega arith
      rank-lt processing_content_of_the_field = omega arith

ok-injective : {p q : Parser} → ok p ≡ ok q → p ≡ q
ok-injective e = cc

-- A parser that was given a content type is ready: the boundary is at least the two dashes.
pub set_content_type-IsReady :
    (type : Bytes) (disk : Disk) {p : Parser}
    → set_content_type type (new_parser disk) ≡ ok p
    → IsReady p
unfolding set_content_type set_boundary
set_content_type-IsReady type disk {p} e =
    elim (Bool-cases (starts_with (codes "multipart/form-data;") type)) [
      | inl is_form ↦ elim (Option-cases (find_text (codes "boundary=") type)) [
        | inl absent ↦ absurd (cc (rw (is_form, absent, set_content_type, set_boundary) at e))
        | inr (at, found) ↦
            subst IsReady (ok-injective (rw (is_form, found, set_content_type, set_boundary) at e))
              (record { boundary_set = omega arith; knows_field = tt })
      ]
      | inr other ↦ absurd (cc (rw (other, set_content_type) at e))
    ]
