-- ===== src/Mpfd/Parser/Content.antt =====
-- The content of a text field and the chunks it comes in (`Parser::ProcessContentOfTheField`,
-- src/MPFDParser/Parser.cc).
use libnavajo.Base.{
  ℕ, zero, suc, ◌+◌, ◌-◌, ◌*◌, ◌<◌, ◌≤◌, ◌≡◌, refl, sym, ap, ◌∙◌, Bool, false, List, [], ◌∷◌, ◌++◌,
  none, some, Bytes, length, take, drop, take-append-drop, find_text, find_text-append_right,
  find_text-append_left, arith, lookup, insert, bytes_order, lookup-insert_self, append_assoc,
  append-nil, length-append, lt→ltb, joined,
}
use libnavajo.Mpfd.Exceptions.{returns, bind-returns}
use libnavajo.Mpfd.Field.{Field, text_type, held, append_to}
use libnavajo.Mpfd.Field.Accept.{accept_field_data_text}
use libnavajo.Mpfd.Headers.{
  Status, looking_for_starting_boundary, processing_content_of_the_field, Parser,
}
use libnavajo.Mpfd.Parser.{
  boundary_position, truncate_collector, accept_into, send_to_field, send_and_truncate,
  process_content_of_the_field, process_round, process_data, set_status, rounds, accept_chunks,
  accept_some_data,
}

-- The text field that is being filled has taken `text`, of which the end is still in the collector.
pub record InText (p : Parser) (text : Bytes) : Type 0 where
  pub in_content : p.status ≡ processing_content_of_the_field
  pub field : Field
  pub found : lookup p.processing_field_name p.fields ≡ some field
  pub is_text : field.type ≡ text_type
  pub taken : held field.content ++ p.collector ≡ text

module _ (can_create : Bytes → Bool) where
  -- What `n` bytes more do to the field.
  abbrev filled : ℕ → Parser → Field → Parser
  filled n p f = record p {
    fields =
        insert p.processing_field_name
          (record f { content = append_to f.content (take n p.collector) }) p.fields;
    collector = drop n p.collector;
  }

  -- The field that is filled, with the collector not yet truncated.
  abbrev sent : ℕ → Parser → Field → Parser
  sent n p f = record p {
    fields =
        insert p.processing_field_name
          (record f { content = append_to f.content (take n p.collector) }) p.fields;
  }

  send_to_field_text :
      (n : ℕ) (p : Parser) (f : Field)
      → lookup p.processing_field_name p.fields ≡ some f
      → f.type ≡ text_type
      → send_to_field can_create n p ≡ returns tt (sent n p f)
  unfolding send_to_field accept_into
  send_to_field_text n p f e t = rw (
    e,
    send_to_field,
    accept_field_data_text can_create f p.disk (take n p.collector) t,
    accept_into,
  )

  send_and_truncate_text :
      (n : ℕ) (p : Parser) (f : Field)
      → 0 < n
      → lookup p.processing_field_name p.fields ≡ some f
      → f.type ≡ text_type
      → send_and_truncate can_create n p ≡ returns tt (filled n p f)
  unfolding send_and_truncate
  send_and_truncate_text n p f h e t = rw (lt→ltb 0 n h) (
      bind-returns (send_to_field can_create n) (λ u q. returns tt (truncate_collector n q)) p
        (send_to_field_text n p f e t))

  send_none : (p : Parser) → send_and_truncate can_create 0 p ≡ returns tt p
  unfolding send_and_truncate
  send_none p = refl

  filled-InText :
      (n : ℕ) (p : Parser) (f : Field) {text : Bytes}
      → p.status ≡ processing_content_of_the_field
      → f.type ≡ text_type
      → held f.content ++ p.collector ≡ text
      → InText (filled n p f) text
  filled-InText n p f s t e = record {
    in_content = s;
    field = record f { content = append_to f.content (take n p.collector) };
    found = lookup-insert_self p.processing_field_name _ p.fields;
    is_text = t;
    taken =
        append_assoc (held f.content) (take n p.collector) (drop n p.collector)
        ∙ rw (take-append-drop n p.collector) e;
  }

  -- Sending keeps the text, whether there is something to send or not.
  pub send_and_truncate-InText :
      (n : ℕ) (p : Parser) {text : Bytes}
      → InText p text
      → (q : Parser) × (send_and_truncate can_create n p ≡ returns tt q)
        × InText q text
        × (q.boundary ≡ p.boundary)
        × (q.max_length ≡ p.max_length)
        × (q.collector ≡ drop n p.collector)
  send_and_truncate-InText zero p t = (p, send_none p, t, refl, refl, refl)
  send_and_truncate-InText (suc n) p t = (
    filled (suc n) p t.field,
    send_and_truncate_text (suc n) p t.field (omega arith) t.found t.is_text,
    filled-InText (suc n) p t.field t.in_content t.is_text t.taken,
    refl,
    refl,
    refl,
  )

  process_content_none :
      (p q : Parser)
      → boundary_position p ≡ none
      → send_and_truncate can_create (length p.collector - (length p.boundary + 2)) p ≡ returns tt q
      → process_content_of_the_field can_create p ≡ returns false q
  unfolding process_content_of_the_field
  process_content_none p q absent e =
      rw (absent, process_content_of_the_field)
        (bind-returns (send_and_truncate can_create (length p.collector - (length p.boundary + 2)))
          (λ u q. returns false q) p e)

  -- One round without a boundary: the collector keeps what may be the beginning of one.
  content_round :
      (p : Parser) {text : Bytes}
      → InText p text
      → boundary_position p ≡ none
      → (q : Parser) × (process_round can_create processing_content_of_the_field p
          ≡ returns false q)
        × InText q text
        × (q.boundary ≡ p.boundary)
        × (q.max_length ≡ p.max_length)
  unfolding process_round
  content_round p t absent =
      let (q, e, t', b, m, c) = send_and_truncate-InText _ p t in
      (
        q,
        bind-returns (process_content_of_the_field can_create)
            (λ again. set_status looking_for_starting_boundary again) p
            (process_content_none p q absent e),
        t',
        b,
        m,
      )

  process_data_ends :
      (fuel : ℕ) (st : Status) (p q : Parser)
      → p.status ≡ st
      → process_round can_create st p ≡ returns false q
      → process_data can_create (suc fuel) p ≡ returns tt q
  unfolding process_data
  process_data_ends fuel st p q s e =
      rw (ap (λ x. process_round can_create x p) s ∙ e, process_data)

  accept_some_data_lem :
      (s : Bytes) (p : Parser)
      → 0 < length p.boundary
      → length (p.collector ++ s) ≤ p.max_length
      → accept_some_data can_create s p
        ≡ process_data can_create
            (rounds (record p { collector = p.collector ++ s }))
            (record p { collector = p.collector ++ s })
  unfolding accept_some_data
  accept_some_data_lem s p b l = ground arith

  -- A chunk that completes no boundary: the text grows by it, and the rest stays as it is.
  pub accept_some_data-InText :
      (s : Bytes) (p : Parser) {text : Bytes}
      → InText p text
      → 0 < length p.boundary
      → find_text p.boundary (p.collector ++ s) ≡ none
      → length (p.collector ++ s) ≤ p.max_length
      → (q : Parser) × (accept_some_data can_create s p ≡ returns tt q)
        × InText q (text ++ s)
        × (q.boundary ≡ p.boundary)
        × (q.max_length ≡ p.max_length)
  accept_some_data-InText s p {text} t b absent l =
      let p' = record p { collector = p.collector ++ s } in
      let t' : InText p' (text ++ s) = record {
        in_content = t.in_content;
        field = t.field;
        found = t.found;
        is_text = t.is_text;
        taken = sym (append_assoc (held t.field.content) p.collector s) ∙ ap (λ x. x ++ s) t.taken;
      } in
      let (q, e, u, same, max) = content_round p' t' absent in
      (
        q,
        accept_some_data_lem s p b l
            ∙ rw (simp_rounds (length p'.collector)) (process_data_ends _ _ p' q t.in_content e),
        u,
        same,
        max,
      )
    where
      simp_rounds : (n : ℕ) → 2 * n + 2 ≡ suc (2 * n + 1)
      simp_rounds n = omega arith

  -- What the collector and a chunk make is a part of the text.
  part-absent :
      (p : Parser) {text : Bytes} (s rest : Bytes)
      → InText p text
      → find_text p.boundary (text ++ (s ++ rest)) ≡ none
      → find_text p.boundary (p.collector ++ s) ≡ none
  part-absent p s rest t absent = find_text-append_left p.boundary (p.collector ++ s) rest (
      find_text-append_right p.boundary (held t.field.content) ((p.collector ++ s) ++ rest) (
        ap (find_text p.boundary) (
          ap (λ x. held t.field.content ++ x) (append_assoc p.collector s rest)
          ∙ sym (append_assoc (held t.field.content) p.collector (s ++ rest))
          ∙ ap (λ x. x ++ (s ++ rest)) t.taken)
        ∙ absent))

  part-length :
      (p : Parser) {text : Bytes} (s rest : Bytes)
      → InText p text
      → length (p.collector ++ s) ≤ length (text ++ (s ++ rest))
  part-length p {text} s rest t = omega (
    arith,
    length-append p.collector s,
    length-append text (s ++ rest),
    length-append s rest,
    ap length t.taken,
    length-append (held t.field.content) p.collector,
  )

  -- Any number of chunks that together complete no boundary: the text is what they are joined, so it
  -- does not depend on where the input is cut.
  pub accept_chunks-InText :
      (ss : List Bytes) (p : Parser) {text : Bytes}
      → InText p text
      → 0 < length p.boundary
      → find_text p.boundary (text ++ joined ss) ≡ none
      → length (text ++ joined ss) ≤ p.max_length
      → (q : Parser) × (accept_chunks can_create ss p ≡ returns tt q) × InText q (text ++ joined ss)
  unfolding accept_chunks
  accept_chunks-InText [] p {text} t b absent l = (p, refl, rw append-nil t)
  accept_chunks-InText (s ∷ ss) p {text} t b absent l =
      let (q, e, u, same, max) =
        accept_some_data-InText s p t b (part-absent p s (joined ss) t absent)
          (omega (arith, part-length p s (joined ss) t)) in
      let (r, f, v) =
        accept_chunks-InText ss q u (rw same b) (rw (same, append_assoc text s (joined ss)) absent)
          (rw (max, append_assoc text s (joined ss)) l) in
      (
        r,
        bind-returns (accept_some_data can_create s) (λ u. accept_chunks can_create ss) p e ∙ f,
        rw (← append_assoc text s (joined ss)) v,
      )
