-- ===== src/Address/ByteOrder.antt =====
-- The order of the bytes of addresses of version 6 (`IpAddress::operator<`,
-- include/libnavajo/IpAddress.hh).
use libnavajo.Base.{
  ℕ, zero, suc, ◌≡◌, refl, sym, ◌∙◌, inl, inr, Bool, true, false, none, ltb, ◌==◌, if◌then◌else◌,
  Bytes, get_or, Bool-cases, arith,
}
use libnavajo.Address.{difference, is_less}

abbrev pub lt6 : ℕ → Bytes → Bytes → Bool
lt6 i a b = is_less (difference i a b)

lt6-step :
    (i : ℕ) (a b : Bytes)
    → lt6 (suc i) a b
      ≡ (if get_or a i 0 == get_or b i 0 then lt6 i a b else ltb (get_or a i 0) (get_or b i 0))
unfolding difference
lt6-step i a b = elim (Bool-cases (get_or a i 0 == get_or b i 0)) [
  | inl same ↦ rw same refl
  | inr other ↦ rw other refl
]

pub lt6_irrefl : (i : ℕ) (a : Bytes) → lt6 i a a ≡ false
unfolding difference
lt6_irrefl zero a = refl
lt6_irrefl (suc i) a = lt6-step i a a ∙ ground (arith, lt6_irrefl i a)

-- The laws at one more byte, from the laws at the bytes before.
choose : ℕ → ℕ → Bool → Bool
choose x y less = if x == y then less else ltb x y

choose_trans :
    (x y z : ℕ) (p q r : Bool)
    → (p ≡ true → q ≡ true → r ≡ true)
    → choose x y p ≡ true
    → choose y z q ≡ true
    → choose x z r ≡ true
unfolding choose
choose_trans x y z p q r h e f = ground (arith, h)

pub lt6_trans : (i : ℕ) (a b c : Bytes) → lt6 i a b ≡ true → lt6 i b c ≡ true → lt6 i a c ≡ true
unfolding difference choose
lt6_trans zero a b c e f = e
lt6_trans (suc i) a b c e f =
    lt6-step i a c
    ∙ choose_trans (get_or a i 0) (get_or b i 0) (get_or c i 0) (lt6 i a b) (lt6 i b c) (lt6 i a c)
        (lt6_trans i a b c) (sym (lt6-step i a b) ∙ e) (sym (lt6-step i b c) ∙ f)

choose_same :
    (x y : ℕ) (p q : Bool)
    → choose x y p ≡ false
    → choose y x q ≡ false
    → (x ≡ y) × (p ≡ false) × (q ≡ false)
unfolding choose
choose_same x y p q e f = ground arith

-- Two addresses of which neither comes before the other have the same bytes.
pub lt6_same :
    (i : ℕ) (a b : Bytes) → lt6 i a b ≡ false → lt6 i b a ≡ false → difference i a b ≡ none
unfolding difference choose
lt6_same zero a b e f = refl
lt6_same (suc i) a b e f =
    let (same, p, q) =
      choose_same (get_or a i 0) (get_or b i 0) (lt6 i a b) (lt6 i b a) (sym (lt6-step i a b) ∙ e)
        (sym (lt6-step i b a) ∙ f) in
    rw (same, difference) (ground (arith, lt6_same i a b p q))

same-step :
    (j : ℕ) (x y : Bytes)
    → difference (suc j) x y ≡ none
    → ((get_or x j 0 == get_or y j 0) ≡ true) × (difference j x y ≡ none)
unfolding difference
same-step j x y g = elim (Bool-cases (get_or x j 0 == get_or y j 0)) [
  | inl same ↦ (same, rw (same, difference) at g)
  | inr other ↦ let h = rw (other, difference) at g in cc
]

same_step :
    (j : ℕ) (x y : Bytes)
    → (get_or x j 0 == get_or y j 0) ≡ true
    → difference j x y ≡ none
    → difference (suc j) x y ≡ none
unfolding difference
same_step j x y h g = rw (h, difference) g

pub none_trans :
    (i : ℕ) (a b c : Bytes)
    → difference i a b ≡ none
    → difference i b c ≡ none
    → difference i a c ≡ none
unfolding difference
none_trans zero a b c e f = refl
none_trans (suc i) a b c e f =
    let (p, q) = same-step i a b e in
    let (r, s) = same-step i b c f in
    same_step i a c (ground (arith, p, r)) (none_trans i a b c q s)

pub none_sym : (i : ℕ) (a b : Bytes) → difference i a b ≡ none → difference i b a ≡ none
unfolding difference
none_sym zero a b e = refl
none_sym (suc i) a b e =
    let (p, q) = same-step i a b e in same_step i b a (ground (arith, p)) (none_sym i a b q)
