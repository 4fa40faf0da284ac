-- ===== src/Server/Stream/Bodies.antt =====
-- `WebServer::recvBytes` (src/WebServer.cc) beside the first bytes of the whole stream.
use libnavajo.Base.{
  ℕ, zero, suc, ◌-◌, ◌≤◌, min, ◌≡◌, refl, sym, ap, ◌∙◌, inl, inr, List, [], ◌∷◌, ◌++◌, ◌≢◌, subst,
  Option, leb, ◌==◌, Bool-cases, Bytes, length, take, joined, append_assoc, arith,
}
use libnavajo.Server.Stream.{recv, Read, take_read, after, recv_bytes_loop, recv_bytes}
use libnavajo.Server.Stream.Pieces.{
  Flows, Receives, recv-Receives, Gives, take_read-joined, pos_of_ne,
}

pub take_whole : (s : Bytes) → take (length s) s ≡ s
take_whole [] = refl
take_whole (x ∷ s) = ap (λ l. x ∷ l) (take_whole s)

-- The first bytes of two texts in a row.
take-append_long :
    (n : ℕ) (s t : Bytes) → length s ≤ n → take n (s ++ t) ≡ s ++ take (n - length s) t
take-append_long n [] t h = let e : n - 0 ≡ n = omega arith in rw e refl
take-append_long zero (x ∷ s) t h = absurd (omega arith)
take-append_long (suc n) (x ∷ s) t h =
    let e : suc n - suc (length s) ≡ n - length s = omega arith in
    rw e (ap (λ l. x ∷ l) (take-append_long n s t (omega arith)))

take-append_short : (n : ℕ) (s t : Bytes) → n ≤ length s → take n (s ++ t) ≡ take n s
take-append_short zero s t h = refl
take-append_short (suc n) [] t h = absurd (omega arith)
take-append_short (suc n) (x ∷ s) t h = ap (λ l. x ∷ l) (take-append_short n s t (omega arith))

-- A run behind bytes that were read before.
after-Gives :
    (n : ℕ) (p s : Bytes) (run : Option Read)
    → length p ≤ n
    → Gives (take (n - length p) s) s run
    → Gives (take n (p ++ s)) (p ++ s) (after p run)
after-Gives n p s run short (r, runs, takes) = (
  record r { bytes = p ++ r.bytes },
  ap (after p) runs,
  record {
    given = ap (λ x. p ++ x) takes.given ∙ sym (take-append_long n p s short);
    goes_on = append_assoc p r.bytes (r.inbuf ++ joined r.coming) ∙ ap (λ x. p ++ x) takes.goes_on;
    flows = takes.flows;
  },
)

-- The round behind a call of `recv`.
round-Gives :
    (fuel w : ℕ) (ps : List Bytes) (got : Bytes × List Bytes)
    → got ≡ recv (suc w) ps
    → Receives (suc w) ps got
    → (length got.0 ≢ 0
        → Gives
            (take (suc w - length got.0) (joined got.1))
            (joined got.1)
            (recv_bytes_loop fuel (suc w - length got.0) got.1))
    → Gives (take (suc w) (joined ps)) (joined ps) (recv_bytes_loop (suc fuel) (suc w) ps)
unfolding recv_bytes_loop
round-Gives fuel w ps got e received rest = elim (Bool-cases (length got.0 == 0)) [
  | inl ended ↦
      let (nothing, left) = received.ends (ground (arith, ended)) in
      (
        record { bytes = []; inbuf = []; coming = got.1 },
        rw (sym e, ended) refl,
        record {
          given = sym (ap (take (suc w)) nothing);
          goes_on = left ∙ sym nothing;
          flows = received.flows;
        },
      )
  | inr comes ↦
      let run =
        after-Gives (suc w) got.0 (joined got.1) (recv_bytes_loop fuel (suc w - length got.0) got.1)
          received.within (rest (ground (arith, comes))) in
      rw (sym e, comes)
        (subst
          (λ s.
            Gives (take (suc w) s) s
              (after got.0 (recv_bytes_loop fuel (suc w - length got.0) got.1)))
          received.kept run)
]

-- As many rounds as there are bytes to read are enough.
recv_bytes_loop-Gives :
    (fuel w : ℕ) (ps : List Bytes)
    → Flows ps
    → w ≤ fuel
    → Gives (take w (joined ps)) (joined ps) (recv_bytes_loop fuel w ps)
unfolding recv_bytes_loop
recv_bytes_loop-Gives zero zero ps flows h = (
  record { bytes = []; inbuf = []; coming = ps },
  refl,
  record { given = refl; goes_on = refl; flows = flows },
)
recv_bytes_loop-Gives (suc fuel) zero ps flows h = (
  record { bytes = []; inbuf = []; coming = ps },
  refl,
  record { given = refl; goes_on = refl; flows = flows },
)
recv_bytes_loop-Gives zero (suc w) ps flows h = absurd (omega arith)
recv_bytes_loop-Gives (suc fuel) (suc w) ps flows h =
    let got = recv (suc w) ps in
    let received = recv-Receives (suc w) ps (omega arith) flows in
    round-Gives fuel w ps got refl received (λ comes.
      recv_bytes_loop-Gives fuel (suc w - length got.0) got.1 received.flows
        (omega (arith, pos_of_ne (length got.0) comes)))

-- What `recvBytes` gives are the first bytes of the stream, whatever pieces it comes in.
pub recv_bytes-Gives :
    (n : ℕ) (inbuf : Bytes) (ps : List Bytes)
    → Flows ps
    → Gives (take n (inbuf ++ joined ps)) (inbuf ++ joined ps) (recv_bytes n inbuf ps)
unfolding recv_bytes
recv_bytes-Gives n inbuf ps flows = elim (Bool-cases (leb n (length inbuf))) [
  | inl within ↦
      let all : min (length inbuf) n ≡ n = ground (arith, within) in
      rw (within, all)
        (
          take_read n inbuf ps,
          refl,
          record {
            given = sym (take-append_short n inbuf (joined ps) (ground (arith, within)));
            goes_on = take_read-joined n inbuf (joined ps);
            flows = flows;
          },
        )
  | inr beyond ↦
      let size : min (length inbuf) n ≡ length inbuf = ground (arith, beyond) in
      let whole : take (length inbuf) inbuf ≡ inbuf = take_whole inbuf in
      rw (beyond, size, whole)
        (after-Gives n inbuf (joined ps) (recv_bytes_loop (n - length inbuf) (n - length inbuf) ps)
          (ground (arith, beyond))
          (recv_bytes_loop-Gives (n - length inbuf) (n - length inbuf) ps flows (omega arith)))
]
