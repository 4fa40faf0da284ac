-- ===== src/Server/Request/Body/Rest.antt =====
-- The rounds behind the first one that read a request's content (src/WebServer.cc).
use libnavajo.Base.{
  ℕ, zero, suc, ◌+◌, ◌-◌, ◌≤◌, ◌<◌, ◌≡◌, sym, ap, ◌∙◌, inl, inr, Bool, true, false, [], ◌++◌, none,
  some, ltb, ◌==◌, if◌then◌else◌, Bool-cases, Bytes, length, take, drop, length-append, length-take,
  arith, nil_of, ==_iff,
}
use libnavajo.Server.Stream.Pieces.{Flows}
use libnavajo.Server.Stream.Bodies.{take_whole}
use libnavajo.Server.Stream.Reads.{Connection, stream_of, read_call-ReadsBody}
use libnavajo.Server.Request.Body.{
  Content, finished, cut_off, taken, to_payload, take_buffer, requested_length, read_content,
}
use libnavajo.Server.Request.Body.Payload.{
  drop_nil, drop-drop, requested_length_bounds, rest_end, rest_end-none, rest_end-more,
  GivesContent,
}

module _ (client : ℕ) (can_create : Bytes → Bool) (fits : ℕ → Bool) (content_length : ℕ) where
  buffer_taken :
      (b : Content) (acc buffer : Bytes)
      → b.parser ≡ none
      → 0 < length acc
      → take_buffer can_create fits false content_length
          (length acc)
          buffer
          (record b { payload = acc })
        ≡ taken (record b { payload = acc ++ buffer })
  unfolding take_buffer to_payload
  buffer_taken b acc buffer plain started = ground (arith, plain, take_whole acc)

  pub read_rest :
      (fuel : ℕ) (b : Content) (acc : Bytes) (c : Connection)
      → Flows c.coming
      → b.parser ≡ none
      → 0 < length acc
      → content_length - length acc < fuel
      → GivesContent client
          (rest_end b acc (content_length - length acc) (stream_of client c))
          (drop (content_length - length acc) (stream_of client c))
          (read_content fuel client can_create fits false content_length
            (length acc)
            (record b { payload = acc })
            c)
  unfolding read_content take_buffer to_payload
  read_rest zero b acc c flows plain started enough = absurd (omega arith)
  read_rest (suc fuel) b acc c flows plain started enough =
      let s = stream_of client c in
      let need = content_length - length acc in
      elim (Bool-cases (ltb (length acc) content_length)) [
        | inl more ↦
            let n = requested_length content_length (length acc) in
            let asked =
              requested_length_bounds content_length (length acc) (ground (arith, more)) in
            let got = read_call-ReadsBody client n c flows in
            let buffer = take n s in
            elim (Bool-cases (length buffer == 0)) [
              | inl ended ↦
                  let nothing : s ≡ [] =
                    nil_of s (
                      omega
                        (arith, length-take n s, asked.0, (==_iff (length buffer) 0).0 ended)) in
                  let test : ltb (length s) need ≡ true = ground (arith, more, ap length nothing) in
                  record {
                    after = got.after;
                    runs =
                        rw (more, got.runs, read_content, ended)
                          (ap
                            (λ t. some (
                              if t
                                  then cut_off
                                  else finished (record b { payload = acc ++ take need s }),
                              got.after,
                            ))
                            (sym test));
                    left =
                        got.left
                        ∙ ap (drop (length buffer)) nothing
                        ∙ drop_nil (length buffer)
                        ∙ sym (drop_nil need)
                        ∙ ap (drop need) (sym nothing);
                    flows = got.flows;
                  }
              | inr comes ↦
                  let step = buffer_taken b acc buffer plain started in
                  let later =
                    read_rest fuel b (acc ++ buffer) got.after got.flows plain
                      (omega (arith, started, length-append acc buffer))
                      (ground (arith, length-append acc buffer, comes, more)) in
                  let within : length buffer ≤ need = omega (arith, length-take n s, asked.1) in
                  let size : length acc + length buffer ≡ length (acc ++ buffer) =
                    sym (length-append acc buffer) in
                  let less : content_length - length (acc ++ buffer) ≡ need - length buffer =
                    omega (arith, size) in
                  record {
                    after = later.after;
                    runs =
                        rw (more, got.runs, read_content, comes, step)
                          (ap
                              (λ k.
                                read_content fuel client can_create fits false content_length k
                                  (record b { payload = acc ++ buffer }) got.after)
                              size
                            ∙ later.runs
                            ∙ ap (λ e. some (e, later.after))
                                (ap (λ k. rest_end b (acc ++ buffer) k (stream_of client got.after))
                                    less
                                  ∙ ap (rest_end b (acc ++ buffer) (need - length buffer)) got.left
                                  ∙ rest_end-more b acc n need s within));
                    left =
                        later.left
                        ∙ ap (λ k. drop k (stream_of client got.after)) less
                        ∙ ap (drop (need - length buffer)) got.left
                        ∙ drop-drop (length buffer) need s within;
                    flows = later.flows;
                  }
            ]
        | inr done ↦
            let none_left : need ≡ 0 = ground (arith, done) in
            record {
              after = c;
              runs =
                  rw (done, read_content)
                    (ap (λ e. some (e, c))
                      (sym (rest_end-none b acc s) ∙ ap (λ n. rest_end b acc n s) (sym none_left)));
              left = ap (λ n. drop n s) (sym none_left);
              flows = flows;
            }
      ]
