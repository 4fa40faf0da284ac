-- ===== src/Server/Sending/Answers.antt =====
-- What reaches the client of an answer (src/WebServer.cc: `httpSend`, `httpSend2`).
use libnavajo.Base.{
  ℕ, ◌+◌, ◌≤◌, ◌<◌, ◌≡◌, refl, sym, ap, ◌∙◌, inl, inr, Bool, true, false, List, [], ◌∷◌, ◌++◌,
  Option, none, some, ◌==◌, if◌then◌else◌, Bool-cases, Bytes, length, take, drop, All, append_assoc,
  append-nil, length-append, length-take, length-drop, take-append-drop, arith, nil_of, ==_iff,
}
use libnavajo.Server.Sending.{
  SendCall, sends, interrupted, refused, blocked, Sent, after_sent, stops, sent_part, send_loop,
  http_send, and_then, http_send2,
}

-- A call that takes bytes takes one at least.
abbrev pub Moves : SendCall → Type 0
Moves (sends k) = 0 < k
Moves interrupted = Unit
Moves refused = Unit
Moves (blocked none) = Unit
Moves (blocked (some none)) = Unit
Moves (blocked (some (some k))) = 0 < k

-- The function returns; the bytes that were taken are the beginning of the text, and it returns true
-- exactly if they are all of it.
pub record Sends (text : Bytes) (run : Option Sent) : Type 0 where
  pub end : Sent
  pub rest : Bytes
  pub runs : run ≡ some end
  pub beginning : end.bytes ++ rest ≡ text
  pub answers : end.result ≡ (length rest == 0)

-- The same with the number of calls that it takes.
record Counted (text : Bytes) (calls : List SendCall) (run : Option Sent) : Type 0 where
  end : Sent
  rest : Bytes
  runs : run ≡ some end
  beginning : end.bytes ++ rest ≡ text
  answers : end.result ≡ (length rest == 0)
  used : length calls ≤ length end.coming + length end.bytes + 1
  moves : All Moves end.coming

stops-Counted :
    (ok : Bool) (text : Bytes) (call : SendCall) (calls : List SendCall)
    → ok ≡ (length text == 0)
    → All Moves calls
    → Counted text (call ∷ calls) (stops ok calls)
stops-Counted ok text call calls e m = record {
  end = record { result = ok; bytes = []; coming = calls };
  rest = text;
  runs = refl;
  beginning = refl;
  answers = e;
  used = omega arith;
  moves = m;
}

more_left : (s t : Bytes) → 0 < length t → false ≡ (length (s ++ t) == 0)
more_left s t h = ground (arith, length-append s t)

not_empty : (text : Bytes) → 0 < length text → false ≡ (length text == 0)
not_empty text h = ground arith

sent_part-Counted :
    (k : ℕ) (text : Bytes) (call : SendCall) (calls : List SendCall) (more : Option Sent)
    → 0 < k
    → 0 < length text
    → All Moves calls
    → ((length (drop k text) == 0) ≡ false → Counted (drop k text) calls more)
    → Counted text (call ∷ calls) (sent_part k text calls more)
sent_part-Counted k text call calls more pos filled m later =
    elim (Bool-cases (length (drop k text) == 0)) [
      | inl done ↦ record {
        end = record { result = true; bytes = take k text; coming = calls };
        rest = drop k text;
        runs = rw done refl;
        beginning = take-append-drop k text;
        answers = sym done;
        used = omega (arith, length-take k text);
        moves = m;
      }
      | inr left ↦
          let next = later left in
          record {
            end = record next.end { bytes = take k text ++ next.end.bytes };
            rest = next.rest;
            runs = rw left (ap (after_sent (take k text)) next.runs);
            beginning =
                append_assoc (take k text) next.end.bytes next.rest
                ∙ ap (λ s. take k text ++ s) next.beginning
                ∙ take-append-drop k text;
            answers = next.answers;
            used =
                omega (
                  arith,
                  next.used,
                  length-append (take k text) next.end.bytes,
                  length-take k text,
                );
            moves = next.moves;
          }
    ]

-- As many calls as there are bytes are enough.
send_loop-Counted :
    (calls : List SendCall) (text : Bytes)
    → All Moves calls
    → 0 < length text
    → length text ≤ length calls
    → Counted text calls (send_loop calls text)
unfolding send_loop
send_loop-Counted [] text m filled enough = absurd (omega arith)
send_loop-Counted (sends k ∷ calls) text m filled enough =
    sent_part-Counted k text (sends k) calls (send_loop calls (drop k text)) m.0 filled m.1 (λ left.
      send_loop-Counted calls (drop k text) m.1 (ground (arith, left))
        (omega (arith, length-drop k text, m.0)))
send_loop-Counted (interrupted ∷ calls) text m filled enough =
    stops-Counted (length text == 0) text interrupted calls refl m.1
send_loop-Counted (refused ∷ calls) text m filled enough =
    stops-Counted false text refused calls (not_empty text filled) m.1
send_loop-Counted (blocked none ∷ calls) text m filled enough =
    stops-Counted false text (blocked none) calls (not_empty text filled) m.1
send_loop-Counted (blocked (some none) ∷ calls) text m filled enough =
    stops-Counted false text (blocked (some none)) calls (not_empty text filled) m.1
send_loop-Counted (blocked (some (some k)) ∷ calls) text m filled enough =
    sent_part-Counted k text (blocked (some (some k))) calls (send_loop calls (drop k text)) m.0
      filled m.1
      (λ left.
        send_loop-Counted calls (drop k text) m.1 (ground (arith, left))
          (omega (arith, length-drop k text, m.0)))

http_send-Counted :
    (socket_id : ℕ) (calls : List SendCall) (text : Bytes)
    → (socket_id == 0) ≡ false
    → All Moves calls
    → 0 < length text
    → length text ≤ length calls
    → Counted text calls (http_send socket_id calls text)
unfolding http_send
http_send-Counted socket_id calls text is_open m filled enough =
    rw is_open (send_loop-Counted calls text m filled enough)

-- Where the first buffer was sent, the second follows.
and_then-Sends :
    (text1 text2 : Bytes) (calls : List SendCall) (run : Option Sent)
    (next : List SendCall → Option Sent)
    → 0 < length text2
    → length text1 + length text2 < length calls
    → Counted text1 calls run
    → ((later : List SendCall)
        → All Moves later
        → length text2 ≤ length later
        → Counted text2 later (next later))
    → Sends (text1 ++ text2) (and_then run next)
and_then-Sends text1 text2 calls run next filled enough first second =
    elim (Bool-cases first.end.result) [
      | inl sent ↦
          let size : length first.rest ≡ 0 =
            (==_iff (length first.rest) 0).0 (sym first.answers ∙ sent) in
          let all : first.end.bytes ≡ text1 =
            sym (append-nil first.end.bytes)
            ∙ ap (λ s. first.end.bytes ++ s) (sym (nil_of first.rest size))
            ∙ first.beginning in
          let then' =
            second first.end.coming first.moves
              (omega (arith, first.used, ap length all, enough)) in
          record {
            end = record then'.end { bytes = first.end.bytes ++ then'.end.bytes };
            rest = then'.rest;
            runs =
                ap (λ o. and_then o next) first.runs
                ∙ ap
                    (λ t.
                      if t
                      then after_sent first.end.bytes (next first.end.coming)
                      else some first.end)
                    sent
                ∙ ap (after_sent first.end.bytes) then'.runs;
            beginning =
                append_assoc first.end.bytes then'.end.bytes then'.rest
                ∙ ap (λ s. first.end.bytes ++ s) then'.beginning
                ∙ ap (λ s. s ++ text2) all;
            answers = then'.answers;
          }
      | inr failed ↦ record {
        end = first.end;
        rest = first.rest ++ text2;
        runs =
            ap (λ o. and_then o next) first.runs
            ∙ ap
                (λ t.
                  if t then after_sent first.end.bytes (next first.end.coming) else some first.end)
                failed;
        beginning =
            sym (append_assoc first.end.bytes first.rest text2)
            ∙ ap (λ s. s ++ text2) first.beginning;
        answers = failed ∙ more_left first.rest text2 filled;
      }
    ]

-- An answer of a header and a body, neither of them empty, on a socket that is open, where a call of
-- send that takes bytes takes one at least and the calls are more than the bytes: httpSend2 returns;
-- the bytes that were taken are the beginning of the header with the body behind it, whatever pieces
-- the calls took, and it returns true exactly if they are all of it.
pub http_send2-Sends :
    (socket_id : ℕ) (calls : List SendCall) (header content : Bytes)
    → (socket_id == 0) ≡ false
    → All Moves calls
    → 0 < length header
    → 0 < length content
    → length header + length content < length calls
    → Sends (header ++ content) (http_send2 socket_id calls header content)
unfolding http_send2
http_send2-Sends socket_id calls header content is_open m filled1 filled2 enough =
    and_then-Sends header content calls (http_send socket_id calls header)
      (λ later. http_send socket_id later content) filled2 enough
      (http_send-Counted socket_id calls header is_open m filled1 (omega (arith, enough)))
      (λ later moves many. http_send-Counted socket_id later content is_open moves filled2 many)
