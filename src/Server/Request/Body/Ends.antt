-- ===== src/Server/Request/Body/Ends.antt =====
-- The ends of the reading of a request's content (src/WebServer.cc).
use libnavajo.Base.{
  Option, ℕ, zero, suc, ◌+◌, ◌-◌, ◌≤◌, ◌<◌, ◌≡◌, refl, sym, ap, ◌∙◌, inl, inr, Bool, true, false,
  not, ◌||◌, [], none, some, ltb, ◌==◌, if◌then◌else◌, Bool-cases, Bytes, length, take, drop,
  length-take, arith, nil_of, ==_iff,
}
use libnavajo.Server.Stream.Pieces.{Flows}
use libnavajo.Server.Stream.Reads.{ReadsBody, Connection, stream_of, read_call-ReadsBody}
use libnavajo.Server.Request.Body.{
  Content, ContentEnd, finished, given_up, cut_off, length_error, taken, breaks, throws_out,
  max_vector_size, to_payload, take_buffer, requested_length, read_content,
}
use libnavajo.Server.Request.Body.Payload.{
  drop_nil, drop-drop, requested_length_bounds, rest_end, rest_end-more, GivesContent,
}
use libnavajo.Server.Request.Body.Rest.{read_rest}
use libnavajo.Server.Request.Body.Expected.{
  content_end, read_rest_of, content_rest, content_later, ended_end, big_end, unfit_end, fit_end,
  nothing_left, unread,
}

module _ (client : ℕ) (can_create : Bytes → Bool) (fits : ℕ → Bool) (content_length : ℕ) where
  first_taken :
      (b : Content) (buffer : Bytes)
      → b.parser ≡ none
      → b.payload ≡ []
      → take_buffer can_create fits false content_length 0 buffer b ≡ (
          if ltb max_vector_size content_length
          then throws_out
          else (if fits content_length then taken (record b { payload = buffer }) else breaks b))
  unfolding take_buffer to_payload
  first_taken b buffer plain empty = ground (arith, plain, empty)

  -- The run that is meant below, and what it is to give.
  abbrev content_run : ℕ → Content → Connection → Option (ContentEnd × Connection)
  content_run fuel b c = read_content fuel client can_create fits false content_length 0 b c

  abbrev Ends : ℕ → Content → Connection → Type 0
  Ends fuel b c =
      GivesContent client (content_end fits content_length b (stream_of client c))
        (content_rest fits content_length (stream_of client c)) (content_run fuel b c)

  nothing_asked :
      (fuel : ℕ) (b : Content) (c : Connection)
      → Flows c.coming
      → (content_length == 0) ≡ true
      → Ends (suc fuel) b c
  unfolding read_content
  nothing_asked fuel b c flows zero' =
      let s = stream_of client c in
      let none_asked : content_length ≡ 0 = (==_iff content_length 0).0 zero' in
      let done : ltb 0 content_length ≡ false = ground (arith, none_asked) in
      let ran : content_run (suc fuel) b c ≡ some (finished b, c) = rw (done, read_content) refl in
      record {
        after = c;
        runs =
            ran
            ∙ ap (λ t. some (if t then finished b else content_later fits content_length b s, c))
                (sym zero');
        left = sym (unread fits content_length s none_asked);
        flows = flows;
      }

  module _ (fuel : ℕ) (b : Content) (c : Connection) (flows : Flows c.coming) where
    first_call : ReadsBody client (requested_length content_length 0) c
    first_call = read_call-ReadsBody client (requested_length content_length 0) c flows

    -- The bytes of the first call.
    abbrev first_buffer : Bytes
    first_buffer = take (requested_length content_length 0) (stream_of client c)

    module _ (asks : (content_length == 0) ≡ false) where
      asked :
          (0 < requested_length content_length 0)
          × (requested_length content_length 0 ≤ content_length - 0)
      asked = requested_length_bounds content_length 0 (ground (arith, asks))

      stream_ended : (length (stream_of client c) == 0) ≡ true → Ends (suc fuel) b c
      unfolding read_content
      stream_ended ended =
          let s = stream_of client c in
          let more : ltb 0 content_length ≡ true = ground (arith, asks) in
          let nothing : s ≡ [] = nil_of s ((==_iff (length s) 0).0 ended) in
          let no_bytes : (length first_buffer == 0) ≡ true =
            ground (arith, length-take (requested_length content_length 0) s, ended) in
          let ran : content_run (suc fuel) b c ≡ some (cut_off, first_call.after) =
            rw (more, first_call.runs, read_content, no_bytes) refl in
          record {
            after = first_call.after;
            runs =
                ran
                ∙ ap (λ e. some (e, first_call.after))
                    (sym (ended_end fits content_length b s asks ended));
            left =
                first_call.left
                ∙ ap (drop (length first_buffer)) nothing
                ∙ drop_nil (length first_buffer)
                ∙ sym nothing
                ∙ sym (nothing_left fits content_length s nothing);
            flows = first_call.flows;
          }

      module _ (comes : (length (stream_of client c) == 0) ≡ false) (plain : b.parser ≡ none)
          (empty : b.payload ≡ []) where
        bytes : (length first_buffer == 0) ≡ false
        bytes =
            let size = length-take (requested_length content_length 0) (stream_of client c) in
            ground (arith, size, comes, asked.0)

        too_long : ltb max_vector_size content_length ≡ true → Ends (suc fuel) b c
        unfolding read_content
        too_long big =
            let s = stream_of client c in
            let more : ltb 0 content_length ≡ true = ground (arith, asks) in
            let first = first_taken b first_buffer plain empty in
            let ran : content_run (suc fuel) b c ≡ some (length_error, first_call.after) =
              rw (more, first_call.runs, read_content, bytes, first, big) refl in
            record {
              after = first_call.after;
              runs =
                  ran
                  ∙ ap (λ e. some (e, first_call.after))
                      (sym (big_end fits content_length b s asks comes big));
              left =
                  first_call.left
                  ∙ sym (
                      ap (λ t. read_rest_of fits content_length s (t || not (fits content_length)))
                        big);
              flows = first_call.flows;
            }

        module _ (small : ltb max_vector_size content_length ≡ false) where
          does_not_fit : fits content_length ≡ false → Ends (suc fuel) b c
          unfolding read_content
          does_not_fit unfit =
              let s = stream_of client c in
              let more : ltb 0 content_length ≡ true = ground (arith, asks) in
              let first = first_taken b first_buffer plain empty in
              let ran : content_run (suc fuel) b c ≡ some (given_up b, first_call.after) =
                rw (more, first_call.runs, read_content, bytes, first, small, unfit) refl in
              record {
                after = first_call.after;
                runs =
                    ran
                    ∙ ap (λ e. some (e, first_call.after))
                        (sym (unfit_end fits content_length b s asks comes small unfit));
                left =
                    first_call.left
                    ∙ sym (
                        ap
                          (λ t. read_rest_of fits content_length s (t || not (fits content_length)))
                          small
                        ∙ ap (λ t. read_rest_of fits content_length s (not t)) unfit);
                flows = first_call.flows;
              }

          all_read : fits content_length ≡ true → content_length < suc fuel → Ends (suc fuel) b c
          unfolding read_content
          all_read fit enough =
              let s = stream_of client c in
              let n = requested_length content_length 0 in
              let missing = content_length - length first_buffer in
              let more : ltb 0 content_length ≡ true = ground (arith, asks) in
              let first = first_taken b first_buffer plain empty in
              let within : length first_buffer ≤ content_length =
                omega (arith, length-take n s, asked.1) in
              let size : 0 + length first_buffer ≡ length first_buffer = omega arith in
              let later =
                read_rest client can_create fits content_length fuel b first_buffer first_call.after
                  first_call.flows plain (ground (arith, bytes)) (ground (arith, bytes, enough)) in
              let ran : content_run (suc fuel) b c
                  ≡ some (
                    rest_end b first_buffer missing (stream_of client first_call.after),
                    later.after,
                  ) =
                rw (more, first_call.runs, read_content, bytes, first, small, fit, size)
                  later.runs in
              record {
                after = later.after;
                runs =
                    ran
                    ∙ ap (λ e. some (e, later.after))
                        (ap (rest_end b first_buffer missing) first_call.left
                          ∙ rest_end-more b [] n content_length s within
                          ∙ sym (fit_end fits content_length b s asks comes small fit));
                left =
                    later.left
                    ∙ ap (drop missing) first_call.left
                    ∙ drop-drop (length first_buffer) content_length s within
                    ∙ sym (
                        ap
                          (λ t. read_rest_of fits content_length s (t || not (fits content_length)))
                          small
                        ∙ ap (λ t. read_rest_of fits content_length s (not t)) fit);
                flows = later.flows;
              }

  -- The content of a request that is no form is read from a socket, whatever pieces it comes in and
  -- with no call of recv that fails before the end of the stream, within one round more than it has
  -- bytes, and ends on every branch as follows. Without a length nothing is read. Where the stream is
  -- at its end the connection is given up. A length that no vector can have throws an exception that
  -- is not caught, and one that the memory does not fit gives the content up; both after one call.
  -- Otherwise the payload is the next bytes of the stream, as many as the length says, and the stream
  -- goes on behind them; or the connection is given up if it has not as many.
  pub read_content-content_end :
      (fuel : ℕ) (b : Content) (c : Connection)
      → Flows c.coming
      → b.parser ≡ none
      → b.payload ≡ []
      → content_length < fuel
      → GivesContent client
          (content_end fits content_length b (stream_of client c))
          (content_rest fits content_length (stream_of client c))
          (read_content fuel client can_create fits false content_length 0 b c)
  read_content-content_end zero b c flows plain empty enough = absurd (omega arith)
  read_content-content_end (suc fuel) b c flows plain empty enough =
      elim (Bool-cases (content_length == 0)) [
        | inl zero' ↦ nothing_asked fuel b c flows zero'
        | inr asks ↦ elim (Bool-cases (length (stream_of client c) == 0)) [
          | inl ended ↦ stream_ended fuel b c flows asks ended
          | inr comes ↦ elim (Bool-cases (ltb max_vector_size content_length)) [
            | inl big ↦ too_long fuel b c flows asks comes plain empty big
            | inr small ↦ elim (Bool-cases (fits content_length)) [
              | inl fit ↦ all_read fuel b c flows asks comes plain empty small fit enough
              | inr unfit ↦ does_not_fit fuel b c flows asks comes plain empty small unfit
            ]
          ]
        ]
      ]
