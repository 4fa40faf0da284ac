-- ===== src/WebSocket/Receiving/Pieces.antt =====
-- The do-while loop around `recv` in `WebSocketClient::receivingThread` (src/WebSocketClient.cc).
use libnavajo.Base.{
  ℕ, zero, suc, ◌-◌, ◌≡◌, refl, sym, ap, ◌∙◌, inl, inr, false, List, [], ◌∷◌, ◌++◌, Option, none,
  some, ltb, if◌then◌else◌, Bytes, Bool-cases, append_assoc, arith, length, take, drop, joined,
  length-append, length-take, take-append-drop, eq_of_some, Option-cases,
}

-- The bytes that were read, and the pieces that are left.
abbrev pub Fill : Type 0
Fill = Option (Bytes × List Bytes)

abbrev pub prefixed : Bytes → Fill → Fill
prefixed p none = none
prefixed p (some (bs, ps)) = some (p ++ bs, ps)

-- `w` bytes are read, from what the coming calls of `recv` give, nothing where a call fails and the loop
-- goes on; `none` where that is used up before: the loop still asks for bytes.
unfoldable pub fill : ℕ → List Bytes → Fill
fill zero ps = some ([], ps)
fill (suc w) [] = none
fill (suc w) (p ∷ ps) =
    let rest = fill (suc w - length p) ps in
    if ltb (length p) (suc w) then prefixed p rest else some (take (suc w) p, drop (suc w) p ∷ ps)

-- The shorter of two beginnings of a text is a beginning of the longer one.
common_start :
    (p x b y : Bytes)
    → p ++ x ≡ b ++ y
    → ltb (length b) (length p) ≡ false
    → (c : Bytes) × (b ≡ p ++ c) × (x ≡ c ++ y)
common_start [] x b y e h = (b, refl, e)
common_start (i ∷ p) x [] y e h = ground (arith, h)
common_start (i ∷ p) x (j ∷ b) y e h =
    let (c, f, g) = common_start p x b y (cc) (ground (arith, h)) in (c, cc, g)

pub take_all : (bs cs : Bytes) → take (length bs) (bs ++ cs) ≡ bs
take_all [] cs = refl
take_all (b ∷ bs) cs = ap (λ xs. b ∷ xs) (take_all bs cs)

pub take_start : (k : ℕ) (bs cs : Bytes) → length bs ≡ k → take k (bs ++ cs) ≡ bs
take_start k bs cs e = ap (λ n. take n (bs ++ cs)) (sym e) ∙ take_all bs cs

pub drop_all : (bs cs : Bytes) → drop (length bs) (bs ++ cs) ≡ cs
drop_all [] cs = refl
drop_all (b ∷ bs) cs = drop_all bs cs

pub drop_start : (k : ℕ) (bs cs : Bytes) → length bs ≡ k → drop k (bs ++ cs) ≡ cs
drop_start k bs cs e = ap (λ n. drop n (bs ++ cs)) (sym e) ∙ drop_all bs cs

-- However the bytes are cut into pieces, the loop reads as many as are asked for, in order.
pub fill-enough :
    (bs rest : Bytes) (ps : List Bytes)
    → joined ps ≡ bs ++ rest
    → (qs : List Bytes) × (fill (length bs) ps ≡ some (bs, qs)) × (joined qs ≡ rest)
unfolding fill
fill-enough [] rest ps h = (ps, refl, h)
fill-enough (b ∷ bs) rest [] h = cc
fill-enough (b ∷ bs) rest (p ∷ ps) h = elim (Bool-cases (ltb (length p) (length (b ∷ bs)))) [
  | inl short ↦
      let (c, e, f) = common_start p (joined ps) (b ∷ bs) rest h (ground (arith, short)) in
      let (qs, filled, left) = fill-enough c rest ps f in
      let size : length (b ∷ bs) - length p ≡ length c =
        omega (arith, ap length e, length-append p c) in
      (qs, rw (short, size, filled, sym e) refl, left)
  | inr long ↦
      let (c, e, f) = common_start (b ∷ bs) rest p (joined ps) (sym h) long in
      (
        drop (length (b ∷ bs)) p ∷ ps,
        rw long (
            ap (λ x. some (x, drop (length (b ∷ bs)) p ∷ ps))
              (ap (take (length (b ∷ bs))) e ∙ take_all (b ∷ bs) c)),
        ap (λ x. drop (length (b ∷ bs)) x ++ joined ps) e
            ∙ ap (λ x. x ++ joined ps) (drop_all (b ∷ bs) c)
            ∙ sym f,
      )
]

-- The loop keeps the bytes: what is read and what is left are what was there.
pub fill-joined :
    (w : ℕ) (ps : List Bytes) (bs : Bytes) (qs : List Bytes)
    → fill w ps ≡ some (bs, qs)
    → (joined ps ≡ bs ++ joined qs) × (length bs ≡ w)
unfolding fill
fill-joined zero ps bs qs e =
    let f = eq_of_some e in (ap (λ x. x.0 ++ joined x.1) f, sym (ap (λ x. length x.0) f))
fill-joined (suc w) [] bs qs e = cc
fill-joined (suc w) (p ∷ ps) bs qs e = elim (Bool-cases (ltb (length p) (suc w))) [
  | inl short ↦ elim (Option-cases (fill (suc w - length p) ps)) [
    | inl ends ↦ let f = rw (short, ends, fill) at e in cc
    | inr (r, more) ↦
        let f = eq_of_some (rw (short, more, fill) at e) in
        let (joins, size) = fill-joined (suc w - length p) ps r.0 r.1 more in
        (
          ap (λ x. p ++ x) joins
              ∙ sym (append_assoc p r.0 (joined r.1))
              ∙ ap (λ x. x.0 ++ joined x.1) f,
          sym (ap (λ x. length x.0) f) ∙ ground (arith, length-append p r.0, size, short),
        )
  ]
  | inr long ↦
      let f = eq_of_some (rw (long, fill) at e) in
      (
        sym (ap (λ x. x ++ joined ps) (take-append-drop (suc w) p))
            ∙ append_assoc (take (suc w) p) (drop (suc w) p) (joined ps)
            ∙ ap (λ x. x.0 ++ joined x.1) f,
        sym (ap (λ x. length x.0) f) ∙ ground (arith, length-take (suc w) p, long),
      )
]
