-- ===== src/Server/Stream/Pieces.antt =====
-- The pieces in which a stream comes (src/WebServer.cc: the calls of `recv`).
use libnavajo.Base.{
  ℕ, zero, suc, ◌≤◌, ◌<◌, ◌≡◌, refl, sym, ap, ◌∙◌, inl, inr, List, [], ◌∷◌, ◌++◌, ◌≢◌, Option, some,
  leb, Bool-cases, Bytes, length, take, drop, joined, append_assoc, take-append-drop, arith,
}
use libnavajo.Server.Stream.{recv, Read}

-- No call of `recv` fails before all has come.
abbrev pub Flows : List Bytes → Type 0
Flows [] = Unit
Flows (p ∷ ps) = (0 < length p) × Flows ps

length-drop_pos : (n : ℕ) (p : Bytes) → n < length p → 0 < length (drop n p)
length-drop_pos zero p h = h
length-drop_pos (suc n) [] h = absurd (omega arith)
length-drop_pos (suc n) (x ∷ p) h = length-drop_pos n p (omega arith)

-- A call of `recv` keeps the stream, and gives nothing only at its end.
pub record Receives (size : ℕ) (ps : List Bytes) (r : Bytes × List Bytes) : Type 0 where
  pub kept : r.0 ++ joined r.1 ≡ joined ps
  pub flows : Flows r.1
  pub ends : length r.0 ≡ 0 → (joined ps ≡ []) × (joined r.1 ≡ [])
  pub within : length r.0 ≤ size

length-take_le : (n : ℕ) (p : Bytes) → length (take n p) ≤ n
length-take_le zero p = omega arith
length-take_le (suc n) [] = omega arith
length-take_le (suc n) (x ∷ p) = omega (arith, length-take_le n p)

pub recv-Receives :
    (size : ℕ) (ps : List Bytes) → 0 < size → Flows ps → Receives size ps (recv size ps)
unfolding recv
recv-Receives size [] h f = record {
  kept = refl;
  flows = tt;
  ends = λ e. (refl, refl);
  within = omega arith;
}
recv-Receives size ([] ∷ ps) h f = absurd (omega (arith, f.0))
recv-Receives (suc n) ((x ∷ p) ∷ ps) h f = elim (Bool-cases (leb (length (x ∷ p)) (suc n))) [
  | inl fits ↦ rw fits (record {
    kept = refl;
    flows = f.1;
    ends = λ e. absurd (omega arith);
    within = ground (arith, fits);
  })
  | inr long ↦ rw long (record {
    kept =
        sym (append_assoc (take (suc n) (x ∷ p)) (drop (suc n) (x ∷ p)) (joined ps))
        ∙ ap (λ s. s ++ joined ps) (take-append-drop (suc n) (x ∷ p));
    flows = (length-drop_pos n p (ground (arith, long)), f.1);
    ends = λ e. absurd (omega arith);
    within = length-take_le (suc n) (x ∷ p);
  })
]
recv-Receives zero ((x ∷ p) ∷ ps) h f = absurd (omega arith)

-- What a read gives of a stream: the bytes that are wanted, and the stream goes on behind them.
pub record Takes (wanted stream : Bytes) (r : Read) : Type 0 where
  pub given : r.bytes ≡ wanted
  pub goes_on : r.bytes ++ (r.inbuf ++ joined r.coming) ≡ stream
  pub flows : Flows r.coming

-- A run that ends, with the bytes that are wanted.
abbrev pub Gives : Bytes → Bytes → Option Read → Type 0
Gives wanted stream run = (r : Read) × (run ≡ some r) × Takes wanted stream r

-- A copy of the buffer keeps the stream.
pub take_read-joined :
    (count : ℕ) (s more : Bytes) → take count s ++ (drop count s ++ more) ≡ s ++ more
take_read-joined count s more =
    sym (append_assoc (take count s) (drop count s) more)
    ∙ ap (λ x. x ++ more) (take-append-drop count s)

pub pos_of_ne : (n : ℕ) → n ≢ 0 → 0 < n
pos_of_ne zero h = absurd (h refl)
pos_of_ne (suc n) h = omega arith
