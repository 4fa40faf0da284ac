-- ===== src/Address/Networks/Swapping.antt =====
-- Words of 32 bits in the two orders of their octets (include/libnavajo/IpAddress.hh:
-- `IpNetwork::isInside` with `htonl`).
use libnavajo.Base.{ℕ, ◌+◌, ◌*◌, ◌/◌, ◌%◌, ◌^◌, ◌<◌, ◌≡◌, refl, sym, ap, ◌∙◌, arith}
use libnavajo.Address.Networks.{bits_and, htonl}
use libnavajo.Address.Networks.Octets.{
  shift_left, shift_right, bits_and-split, bits_and_comm, bits_and-above, bits_and-bound,
}

-- Both octets of a place.
abbrev octets_and : ℕ → ℕ → ℕ
octets_and x y = bits_and 8 (x % 256) (y % 256)

bits_and-octet : (x y : ℕ) → bits_and 8 x y ≡ octets_and x y
unfolding shift_left
bits_and-octet x y =
    ap (λ z. bits_and 8 z y) (parts x)
    ∙ bits_and-above 8 (x % 256) (x / 256) y
    ∙ bits_and_comm 8 (x % 256) y
    ∙ ap (λ z. bits_and 8 z (x % 256)) (parts y)
    ∙ bits_and-above 8 (y % 256) (y / 256) (x % 256)
    ∙ bits_and_comm 8 (y % 256) (x % 256)
  where
    parts : (z : ℕ) → z ≡ z % 256 + shift_left 8 (z / 256)
    parts z = omega arith

shift_right-octet : (x : ℕ) → shift_right 8 x ≡ x / 256
unfolding shift_right
shift_right-octet x = omega arith

-- The octet that comes first in the word, and the rest.
bits_and-first :
    (w x y : ℕ) → bits_and (8 + w) x y ≡ octets_and x y + 256 * bits_and w (x / 256) (y / 256)
unfolding shift_left
bits_and-first w x y = omega (
  arith,
  bits_and-split 8 w x y,
  bits_and-octet x y,
  ap (λ z. bits_and w z (shift_right 8 y)) (shift_right-octet x),
  ap (bits_and w (x / 256)) (shift_right-octet y),
)

-- The word of four octets, the lowest first.
abbrev word : ℕ → ℕ → ℕ → ℕ → ℕ
word a b c d = a + 256 * (b + 256 * (c + 256 * d))

bits_and-word :
    (x y : ℕ)
    → bits_and 32 x y
      ≡ word
          (octets_and x y)
          (octets_and (x / 256) (y / 256))
          (octets_and (x / 256 / 256) (y / 256 / 256))
          (octets_and (x / 256 / 256 / 256) (y / 256 / 256 / 256))
bits_and-word x y = omega (
  arith,
  bits_and-first 24 x y,
  bits_and-first 16 (x / 256) (y / 256),
  bits_and-first 8 (x / 256 / 256) (y / 256 / 256),
  bits_and-octet (x / 256 / 256 / 256) (y / 256 / 256 / 256),
)

htonl-word :
    (a b c d : ℕ) → a < 256 → b < 256 → c < 256 → d < 256 → htonl (word a b c d) ≡ word d c b a
htonl-word a b c d p q r s = omega (arith, p, q, r, s)

octets_and-bound : (x y : ℕ) → octets_and x y < 256
unfolding shift_left
octets_and-bound x y = omega (arith, bits_and-bound 8 (x % 256) (y % 256))

octets_and-cong :
    (x x' y y' : ℕ) → x % 256 ≡ x' % 256 → y % 256 ≡ y' % 256 → octets_and x y ≡ octets_and x' y'
octets_and-cong x x' y y' h k = ap (λ z. bits_and 8 z (y % 256)) h ∙ ap (bits_and 8 (x' % 256)) k

htonl-octet0 : (x : ℕ) → htonl x % 256 ≡ x / 256 / 256 / 256 % 256
htonl-octet0 x = omega arith

htonl-octet1 : (x : ℕ) → htonl x / 256 % 256 ≡ x / 256 / 256 % 256
htonl-octet1 x = omega arith

htonl-octet2 : (x : ℕ) → htonl x / 256 / 256 % 256 ≡ x / 256 % 256
htonl-octet2 x = omega arith

htonl-octet3 : (x : ℕ) → htonl x / 256 / 256 / 256 % 256 ≡ x % 256
htonl-octet3 x = omega arith

-- The conjunction with a mask whose octets are swapped is that of the swapped word, swapped.
pub bits_and-htonl : (x n : ℕ) → bits_and 32 x (htonl n) ≡ htonl (bits_and 32 (htonl x) n)
bits_and-htonl x n =
    let a = octets_and x (n / 256 / 256 / 256) in
    let b = octets_and (x / 256) (n / 256 / 256) in
    let c = octets_and (x / 256 / 256) (n / 256) in
    let d = octets_and (x / 256 / 256 / 256) n in
    let here : bits_and 32 x (htonl n) ≡ word a b c d = omega (
      arith,
      bits_and-word x (htonl n),
      octets_and-cong x x (htonl n) (n / 256 / 256 / 256) refl (htonl-octet0 n),
      octets_and-cong (x / 256) (x / 256) (htonl n / 256) (n / 256 / 256) refl (htonl-octet1 n),
      octets_and-cong (x / 256 / 256) (x / 256 / 256) (htonl n / 256 / 256) (n / 256) refl
          (htonl-octet2 n),
      octets_and-cong (x / 256 / 256 / 256) (x / 256 / 256 / 256) (htonl n / 256 / 256 / 256) n refl
          (htonl-octet3 n),
    ) in
    let there : bits_and 32 (htonl x) n ≡ word d c b a = omega (
      arith,
      bits_and-word (htonl x) n,
      octets_and-cong (htonl x) (x / 256 / 256 / 256) n n (htonl-octet0 x) refl,
      octets_and-cong (htonl x / 256) (x / 256 / 256) (n / 256) (n / 256) (htonl-octet1 x) refl,
      octets_and-cong (htonl x / 256 / 256) (x / 256) (n / 256 / 256) (n / 256 / 256)
          (htonl-octet2 x) refl,
      octets_and-cong (htonl x / 256 / 256 / 256) x (n / 256 / 256 / 256) (n / 256 / 256 / 256)
          (htonl-octet3 x) refl,
    ) in
    here
    ∙ sym (
        ap htonl there
        ∙ htonl-word d c b a (octets_and-bound (x / 256 / 256 / 256) n)
            (octets_and-bound (x / 256 / 256) (n / 256))
            (octets_and-bound (x / 256) (n / 256 / 256)) (octets_and-bound x (n / 256 / 256 / 256)))

pub htonl-htonl : (x : ℕ) → x < 2 ^ 32 → htonl (htonl x) ≡ x
htonl-htonl x h = omega (arith, htonl-octet0 x, htonl-octet1 x, htonl-octet2 x, htonl-octet3 x, h)

pub htonl-bound : (x : ℕ) → htonl x < 2 ^ 32
htonl-bound x = omega arith
