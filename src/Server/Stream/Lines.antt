-- ===== src/Server/Stream/Lines.antt =====
-- `WebServer::recvLine` (src/WebServer.cc) beside the first line of the whole stream.
use libnavajo.Base.{
  ℕ, zero, suc, ◌+◌, ◌-◌, ◌≤◌, ◌<◌, min, ◌≡◌, refl, sym, ap, ◌∙◌, inl, inr, true, false, List, [],
  ◌∷◌, ◌++◌, ◌≢◌, subst, Option, none, some, leb, ◌==◌, if◌then◌else◌, Bool-cases, Option-cases,
  Bytes, length, take, find_byte, joined, append_assoc, append-nil, length-append, arith,
  eq_of_some,
}
use libnavajo.Server.Stream.{
  recv, Read, take_read, http_recv_buffer_size, recv_line_loop, recv_line,
}
use libnavajo.Server.Stream.Pieces.{
  Flows, Receives, recv-Receives, Takes, Gives, take_read-joined, pos_of_ne,
}

-- The first line with its end, cut after `n` bytes; all there is where no line ends.
abbrev pub first_line : ℕ → Bytes → Bytes
first_line zero s = []
first_line (suc n) [] = []
first_line (suc n) (x ∷ xs) = if x == b'\n' then x ∷ [] else x ∷ first_line n xs

-- The copies of the buffer are the first line, whatever follows in the stream.
found-first_line :
    (n : ℕ) (s more : Bytes) {pos : ℕ}
    → find_byte b'\n' s ≡ some pos
    → take (min (pos + 1) n) s ≡ first_line n (s ++ more)
unfolding find_byte
found-first_line n [] more h = cc
found-first_line zero (x ∷ s) more {pos} h = let e : min (pos + 1) 0 ≡ 0 = omega arith in rw e refl
found-first_line (suc n) (x ∷ s) more {pos} h = elim (Bool-cases (x == b'\n')) [
  | inl here ↦
      let first : pos ≡ 0 = ground (arith, here) in
      let one : min (pos + 1) (suc n) ≡ suc zero = omega arith in rw (one, here) refl
  | inr later ↦ elim (Option-cases (find_byte b'\n' s)) [
    | inl absent ↦ let f = rw (later, find_byte, absent) at h in cc
    | inr (m, found) ↦
        let f : suc m ≡ pos = eq_of_some (rw (later, find_byte, found) at h) in
        let size : min (pos + 1) (suc n) ≡ suc (min (m + 1) n) = omega arith in
        rw (size, later) (ap (λ l. x ∷ l) (found-first_line n s more found))
  ]
]

full-first_line :
    (n : ℕ) (s more : Bytes)
    → find_byte b'\n' s ≡ none
    → n ≤ length s
    → take n s ≡ first_line n (s ++ more)
unfolding find_byte
full-first_line zero s more h e = refl
full-first_line (suc n) [] more h e = absurd (omega arith)
full-first_line (suc n) (x ∷ s) more h e =
    ground (arith, full-first_line n s more, Option-cases (find_byte b'\n' s))

last-first_line :
    (n : ℕ) (s : Bytes) → find_byte b'\n' s ≡ none → take (min (length s) n) s ≡ first_line n s
unfolding find_byte
last-first_line zero s h = let e : min (length s) 0 ≡ 0 = omega arith in rw e refl
last-first_line (suc n) [] h = let e : min 0 (suc n) ≡ 0 = omega arith in rw e refl
last-first_line (suc n) (x ∷ s) h =
    let size : min (suc (length s)) (suc n) ≡ suc (min (length s) n) = omega arith in
    rw size (ground (arith, last-first_line n s, Option-cases (find_byte b'\n' s)))

pub length-first_line : (n : ℕ) (s : Bytes) → length (first_line n s) ≤ length s
length-first_line zero s = omega arith
length-first_line (suc n) [] = omega arith
length-first_line (suc n) (x ∷ s) = ground (arith, length-first_line n s)

abbrev pub TakesLine : ℕ → Bytes → Read → Type 0
TakesLine nsize stream r = Takes (first_line (nsize - 1) stream) stream r

abbrev pub GivesLine : ℕ → Bytes → Option Read → Type 0
GivesLine nsize stream run = Gives (first_line (nsize - 1) stream) stream run

take_read-TakesLine :
    (n count : ℕ) (inbuf : Bytes) (ps : List Bytes)
    → Flows ps
    → take count inbuf ≡ first_line n (inbuf ++ joined ps)
    → TakesLine (suc n) (inbuf ++ joined ps) (take_read count inbuf ps)
take_read-TakesLine n count inbuf ps flows e = record {
  given = let size : suc n - 1 ≡ n = omega arith in rw size e;
  goes_on = take_read-joined count inbuf (joined ps);
  flows = flows;
}

-- The round that fills the buffer, or finds the end of the stream.
more-GivesLine :
    (fuel n : ℕ) (inbuf : Bytes) (ps : List Bytes)
    → find_byte b'\n' inbuf ≡ none
    → leb n (length inbuf) ≡ false
    → (got : Bytes × List Bytes) → got ≡ recv http_recv_buffer_size ps
    → Receives http_recv_buffer_size ps got
    → (length got.0 ≢ 0
        → GivesLine
            (suc n)
            ((inbuf ++ got.0) ++ joined got.1)
            (recv_line_loop fuel (suc n) (inbuf ++ got.0) got.1))
    → GivesLine (suc n) (inbuf ++ joined ps) (recv_line_loop (suc fuel) (suc n) inbuf ps)
unfolding recv_line_loop
more-GivesLine fuel n inbuf ps absent room got e received rest =
    let size : suc n - 1 ≡ n = omega arith in
    elim (Bool-cases (length got.0 == 0)) [
      | inl ended ↦
          let all : inbuf ++ joined ps ≡ inbuf =
            ap (λ s. inbuf ++ s) (received.ends (ground (arith, ended))).0 ∙ append-nil inbuf in
          let last : inbuf ++ joined got.1 ≡ inbuf =
            ap (λ s. inbuf ++ s) (received.ends (ground (arith, ended))).1 ∙ append-nil inbuf in
          (
            take_read (min (length inbuf) n) inbuf got.1,
            rw (absent, recv_line_loop, size, room, sym e, ended) refl,
            subst (λ s. TakesLine (suc n) s (take_read (min (length inbuf) n) inbuf got.1))
                (last ∙ sym all)
                (take_read-TakesLine n (min (length inbuf) n) inbuf got.1 received.flows
                  (last-first_line n inbuf absent ∙ ap (first_line n) (sym last))),
          )
      | inr comes ↦
          let (r, runs, takes) = rest (ground (arith, comes)) in
          (
            r,
            rw (absent, recv_line_loop, size, room, sym e, comes) runs,
            subst (λ s. TakesLine (suc n) s r)
                (append_assoc inbuf got.0 (joined got.1) ∙ ap (λ s. inbuf ++ s) received.kept)
                takes,
          )
    ]

found-GivesLine :
    (fuel n : ℕ) (inbuf : Bytes) (ps : List Bytes) {pos : ℕ}
    → find_byte b'\n' inbuf ≡ some pos
    → Flows ps
    → GivesLine (suc n) (inbuf ++ joined ps) (recv_line_loop (suc fuel) (suc n) inbuf ps)
unfolding recv_line_loop
found-GivesLine fuel n inbuf ps {pos} found flows =
    let size : suc n - 1 ≡ n = omega arith in
    (
      take_read (min (pos + 1) n) inbuf ps,
      rw (found, recv_line_loop, size) refl,
      take_read-TakesLine n (min (pos + 1) n) inbuf ps flows
          (found-first_line n inbuf (joined ps) found),
    )

full-GivesLine :
    (fuel n : ℕ) (inbuf : Bytes) (ps : List Bytes)
    → find_byte b'\n' inbuf ≡ none
    → n ≤ length inbuf
    → Flows ps
    → GivesLine (suc n) (inbuf ++ joined ps) (recv_line_loop (suc fuel) (suc n) inbuf ps)
unfolding recv_line_loop
full-GivesLine fuel n inbuf ps absent full flows =
    let size : suc n - 1 ≡ n = omega arith in
    let test : leb n (length inbuf) ≡ true = ground arith in
    (
      take_read n inbuf ps,
      rw (absent, recv_line_loop, size, test) refl,
      take_read-TakesLine n n inbuf ps flows (full-first_line n inbuf (joined ps) absent full),
    )

-- As many rounds as the destination has bytes left are enough.
recv_line_loop-GivesLine :
    (fuel n : ℕ) (inbuf : Bytes) (ps : List Bytes)
    → Flows ps
    → n ≤ fuel + length inbuf
    → GivesLine (suc n) (inbuf ++ joined ps) (recv_line_loop (suc fuel) (suc n) inbuf ps)
recv_line_loop-GivesLine zero n inbuf ps flows enough =
    elim (Option-cases (find_byte b'\n' inbuf)) [
      | inr (pos, found) ↦ found-GivesLine 0 n inbuf ps found flows
      | inl absent ↦ full-GivesLine 0 n inbuf ps absent (omega arith) flows
    ]
recv_line_loop-GivesLine (suc fuel) n inbuf ps flows enough =
    elim (Option-cases (find_byte b'\n' inbuf)) [
      | inr (pos, found) ↦ found-GivesLine (suc fuel) n inbuf ps found flows
      | inl absent ↦ elim (Bool-cases (leb n (length inbuf))) [
        | inl full ↦ full-GivesLine (suc fuel) n inbuf ps absent (ground (arith, full)) flows
        | inr room ↦
            let got = recv http_recv_buffer_size ps in
            let received = recv-Receives http_recv_buffer_size ps (omega arith) flows in
            more-GivesLine (suc fuel) n inbuf ps absent room got refl received (λ comes.
              recv_line_loop-GivesLine fuel n (inbuf ++ got.0) got.1 received.flows
                (omega (arith, length-append inbuf got.0, pos_of_ne (length got.0) comes)))
      ]
    ]

-- What `recvLine` gives is the first line of the stream, whatever pieces it comes in.
pub recv_line-TakesLine :
    (nsize : ℕ) (inbuf : Bytes) (ps : List Bytes)
    → 0 < nsize
    → Flows ps
    → GivesLine nsize (inbuf ++ joined ps) (recv_line nsize inbuf ps)
unfolding recv_line
recv_line-TakesLine zero inbuf ps h flows = absurd (omega arith)
recv_line-TakesLine (suc n) inbuf ps h flows =
    recv_line_loop-GivesLine n n inbuf ps flows (omega arith)
