-- ===== src/Address/Order.antt =====
-- The order of addresses as the order of a map (`IpAddress::operator<`, `IpAddress::operator==`,
-- include/libnavajo/IpAddress.hh).
use libnavajo.Base.{
  ℕ, ◌≡◌, refl, ap, sym, ◌∙◌, ◌↔◌, ◌⊎◌, inl, inr, true, false, not, Option, none, some, ltb, ◌==◌,
  if◌then◌else◌, KeyOrder, equiv, equiv_of_false, lt_of_equiv, false≢true, Bool-cases, arith,
}
use libnavajo.Address.{IpAddress, difference, is_same, is_less, address_eq, address_lt}
use libnavajo.Address.ByteOrder.{lt6, lt6_irrefl, lt6_trans, lt6_same, none_trans, none_sym}

pub address_lt_irrefl : (a : IpAddress) → address_lt a a ≡ false
unfolding address_lt
address_lt_irrefl a = ground (arith, lt6_irrefl 16 a.v6)

-- Of three addresses of which the first comes before the second and that before the third, the first
-- comes before the third.
pub address_lt_trans :
    (a b c : IpAddress) → address_lt a b ≡ true → address_lt b c ≡ true → address_lt a c ≡ true
unfolding address_lt
address_lt_trans a b c e f = ground (arith, lt6_trans 16 a.v6 b.v6 c.v6)

-- What two addresses have in common of which neither comes before the other.
abbrev Alike : IpAddress → IpAddress → Type 0
Alike a b =
    (a.ipversion ≡ b.ipversion)
    × (a.ipversion ≡ 4 → a.v4 ≡ b.v4)
    × (a.ipversion ≡ 6 → difference 16 a.v6 b.v6 ≡ none)

at_six : (a b : IpAddress) → a.ipversion ≡ 6 → b.ipversion ≡ 6 → address_lt a b ≡ lt6 16 a.v6 b.v6
unfolding address_lt
at_six a b p q =
    ap
      (λ v.
        if not (b.ipversion == v)
        then ltb v b.ipversion
        else (if v == 4 then ltb a.v4 b.v4 else (if not (v == 6) then false else lt6 16 a.v6 b.v6)))
      p
    ∙ ap (λ v. if not (v == 6) then ltb 6 v else lt6 16 a.v6 b.v6) q

same_version :
    (a b : IpAddress) → address_lt a b ≡ false → address_lt b a ≡ false → a.ipversion ≡ b.ipversion
unfolding address_lt
same_version a b e f = elim (Bool-cases (b.ipversion == a.ipversion)) [
  | inl same ↦ ground (arith, same)
  | inr other ↦
      let other' : (a.ipversion == b.ipversion) ≡ false = ground (arith, other) in
      let x : ltb a.ipversion b.ipversion ≡ false = rw (other, address_lt) at e in
      let y : ltb b.ipversion a.ipversion ≡ false = rw (other', address_lt) at f in
      ground (arith, x, y)
]

at_four : (a b : IpAddress) → a.ipversion ≡ 4 → b.ipversion ≡ 4 → address_lt a b ≡ ltb a.v4 b.v4
unfolding address_lt
at_four a b p q =
    ap
      (λ v.
        if not (b.ipversion == v)
        then ltb v b.ipversion
        else (if v == 4 then ltb a.v4 b.v4 else (if not (v == 6) then false else lt6 16 a.v6 b.v6)))
      p
    ∙ ap (λ v. if not (v == 4) then ltb 4 v else ltb a.v4 b.v4) q

neither-Alike : (a b : IpAddress) → address_lt a b ≡ false → address_lt b a ≡ false → Alike a b
neither-Alike a b e f =
    let v = same_version a b e f in
    (
      v,
      (λ p.
          let q = sym v ∙ p in
          let x = sym (at_four a b p q) ∙ e in
          let y = sym (at_four b a q p) ∙ f in ground (arith, x, y)),
      (λ p.
          let q = sym v ∙ p in
          lt6_same 16 a.v6 b.v6 (sym (at_six a b p q) ∙ e) (sym (at_six b a q p) ∙ f)),
    )

address_lt-Alike : (a b : IpAddress) → Alike a b → address_lt a b ≡ false
unfolding address_lt
address_lt-Alike a b k = elim (Bool-cases (a.ipversion == 4)) [
  | inl four ↦
      let p : a.ipversion ≡ 4 = ground (arith, four) in
      at_four a b p (sym k.0 ∙ p) ∙ ground (arith, k.1 p)
  | inr not_four ↦ elim (Bool-cases (a.ipversion == 6)) [
    | inl six ↦
        let p : a.ipversion ≡ 6 = ground (arith, six) in
        at_six a b p (sym k.0 ∙ p) ∙ ap is_less (k.2 p)
    | inr not_six ↦
        let same : (b.ipversion == a.ipversion) ≡ true = ground (arith, k.0) in
        rw (same, not_four, not_six, address_lt) refl
  ]
]

Alike-sym : (a b : IpAddress) → Alike a b → Alike b a
Alike-sym a b k =
    (sym k.0, (λ p. sym (k.1 (k.0 ∙ p))), (λ p. none_sym 16 a.v6 b.v6 (k.2 (k.0 ∙ p))))

Alike-trans : (a b c : IpAddress) → Alike a b → Alike b c → Alike a c
Alike-trans a b c k l = (
  k.0 ∙ l.0,
  (λ p. k.1 p ∙ l.1 (sym k.0 ∙ p)),
  (λ p. none_trans 16 a.v6 b.v6 c.v6 (k.2 p) (l.2 (sym k.0 ∙ p))),
)

pub address_incomparable_trans :
    (a b c : IpAddress)
    → address_lt a b ≡ false
    → address_lt b a ≡ false
    → address_lt b c ≡ false
    → address_lt c b ≡ false
    → (address_lt a c ≡ false) × (address_lt c a ≡ false)
address_incomparable_trans a b c p q r s =
    let k = Alike-trans a b c (neither-Alike a b p q) (neither-Alike b c r s) in
    (address_lt-Alike a c k, address_lt-Alike c a (Alike-sym a c k))

-- The order of addresses, as `std::map` asks for it.
instance abbrev pub address_order : KeyOrder IpAddress
address_order = record {
  lt = address_lt;
  lt_irrefl = address_lt_irrefl;
  lt_trans = address_lt_trans;
  incomparable_trans = address_incomparable_trans;
}

eq_at_six :
    (a b : IpAddress)
    → a.ipversion ≡ 6
    → b.ipversion ≡ 6
    → address_eq a b ≡ is_same (difference 16 b.v6 a.v6)
unfolding address_eq
eq_at_six a b p q =
    ap
      (λ v.
        if not (b.ipversion == v)
        then false
        else (if v == 4
            then a.v4 == b.v4
            else (if not (v == 6) then false else is_same (difference 16 b.v6 a.v6))))
      p
    ∙ ap (λ v. if not (v == 6) then false else is_same (difference 16 b.v6 a.v6)) q

eq_at_four : (a b : IpAddress) → a.ipversion ≡ 4 → b.ipversion ≡ 4 → address_eq a b ≡ (a.v4 == b.v4)
unfolding address_eq
eq_at_four a b p q =
    ap
      (λ v.
        if not (b.ipversion == v)
        then false
        else (if v == 4
            then a.v4 == b.v4
            else (if not (v == 6) then false else is_same (difference 16 b.v6 a.v6))))
      p
    ∙ ap (λ v. if not (v == 4) then false else a.v4 == b.v4) q

eq_version : (a b : IpAddress) → address_eq a b ≡ true → a.ipversion ≡ b.ipversion
unfolding address_eq
eq_version a b e = elim (Bool-cases (b.ipversion == a.ipversion)) [
  | inl same ↦ ground (arith, same)
  | inr other ↦ let f : false ≡ true = rw (other, address_eq) at e in absurd (false≢true f)
]

same_none : (o : Option (ℕ × ℕ)) → is_same o ≡ true → o ≡ none
same_none none e = refl
same_none (some xy) e = cc

Alike-address_eq : (a b : IpAddress) → address_eq a b ≡ true → Alike a b
Alike-address_eq a b e =
    let v = eq_version a b e in
    (
      v,
      (λ p. let x = sym (eq_at_four a b p (sym v ∙ p)) ∙ e in ground (arith, x)),
      (λ p. none_sym 16 b.v6 a.v6 (same_none _ (sym (eq_at_six a b p (sym v ∙ p)) ∙ e))),
    )

address_eq-Alike :
    (a b : IpAddress) → (a.ipversion ≡ 4) ⊎ (a.ipversion ≡ 6) → Alike a b → address_eq a b ≡ true
address_eq-Alike a b (inl p) k = eq_at_four a b p (sym k.0 ∙ p) ∙ ground (arith, k.1 p)
address_eq-Alike a b (inr p) k =
    eq_at_six a b p (sym k.0 ∙ p) ∙ ap is_same (none_sym 16 a.v6 b.v6 (k.2 p))

-- A map over addresses, kept by `operator<`, takes two for one key exactly if `operator==` holds of
-- them, where the first is of version 4 or 6.
pub equiv-address_eq :
    (a b : IpAddress)
    → (a.ipversion ≡ 4) ⊎ (a.ipversion ≡ 6)
    → (equiv a b ≡ true) ↔ (address_eq a b ≡ true)
equiv-address_eq a b v = (
  λ e. let (p, q) = lt_of_equiv a b e in address_eq-Alike a b v (neither-Alike a b p q),
  λ e.
      let k = Alike-address_eq a b e in
      equiv_of_false a b (address_lt-Alike a b k) (address_lt-Alike b a (Alike-sym a b k)),
)
