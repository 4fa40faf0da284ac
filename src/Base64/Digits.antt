-- ===== src/Base64/Digits.antt =====
-- The arithmetic of one group of base64, byte by byte.
use Prim.Native.Nat.{bit_and}
use libnavajo.Base.{
  ℕ, ◌+◌, ◌*◌, ◌/◌, ◌%◌, ◌<◌, ◌≡◌, refl, true, not, ◌&&◌, arith, ◌==◌, holds_from, holds_below,
  find_byte,
}
use libnavajo.Base64.{
  char_of, value_of, is_base64, quad0, quad1, quad2, quad3, triple0, triple1, triple2,
}

-- The six bits of a character come back, and the decoder goes on at it.
char_table :
    holds_from
      (λ v. value_of (char_of v) == v && (not (char_of v == b'=') && is_base64 (char_of v)))
      0
      64
    ≡ true
unfolding holds_from value_of char_of is_base64 find_byte
char_table = refl

pub value_of-char_of : (v : ℕ) → v < 64 → value_of (char_of v) ≡ v
value_of-char_of v h = ground (arith, holds_below 64 _ v char_table h)

pub char_of_accepted : (v : ℕ) → v < 64 → (not (char_of v == b'=') && is_base64 (char_of v)) ≡ true
char_of_accepted v h = ground (arith, holds_below 64 _ v char_table h)

-- Each mask of the two routines as a division and a remainder.
mask_table :
    holds_from
      (λ x.
        bit_and x 0xfc / 4 == x / 4
        && bit_and x 0x03 == x % 4
        && bit_and x 0xf0 / 16 == x / 16
        && bit_and x 0x0f == x % 16
        && bit_and x 0xc0 / 64 == x / 64
        && bit_and x 0x3f == x % 64)
      0
      256
    ≡ true
unfolding holds_from
mask_table = refl

value_mask_table :
    holds_from (λ v. bit_and v 0x30 / 16 == v / 16 && bit_and v 0x3c / 4 == v / 4) 0 64 ≡ true
unfolding holds_from
value_mask_table = refl

record Masks (x : ℕ) : Type 0 where
  and_fc : bit_and x 0xfc / 4 ≡ x / 4
  and_03 : bit_and x 0x03 ≡ x % 4
  and_f0 : bit_and x 0xf0 / 16 ≡ x / 16
  and_0f : bit_and x 0x0f ≡ x % 16
  and_c0 : bit_and x 0xc0 / 64 ≡ x / 64
  and_3f : bit_and x 0x3f ≡ x % 64

masks : (x : ℕ) → x < 256 → Masks x
masks x h = ground (arith, holds_below 256 _ x mask_table h)

value_masks : (v : ℕ) → v < 64 → (bit_and v 0x30 / 16 ≡ v / 16) × (bit_and v 0x3c / 4 ≡ v / 4)
value_masks v h = ground (arith, holds_below 64 _ v value_mask_table h)

module _ (a b c : ℕ) (ha : a < 256) (hb : b < 256) (hc : c < 256) where
  -- The four values as quotients and remainders.
  pub quad_lem :
      (quad0 a b c ≡ a / 4)
      × (quad1 a b c ≡ a % 4 * 16 + b / 16)
      × (quad2 a b c ≡ b % 16 * 4 + c / 64)
      × (quad3 a b c ≡ c % 64)
  unfolding quad0 quad1 quad2 quad3
  quad_lem = omega (arith, masks a ha, masks b hb, masks c hc)

  pub quad_bounds :
      (quad0 a b c < 64) × (quad1 a b c < 64) × (quad2 a b c < 64) × (quad3 a b c < 64)
  quad_bounds = omega (arith, quad_lem)

  -- The three bytes come back, whatever stands in the values that they do not read.
  pub triple0-quad : (v2 v3 : ℕ) → triple0 (quad0 a b c) (quad1 a b c) v2 v3 ≡ a
  unfolding triple0
  triple0-quad v2 v3 = omega (arith, quad_lem, value_masks (quad1 a b c) quad_bounds.1)

  pub triple1-quad : (v0 v3 : ℕ) → triple1 v0 (quad1 a b c) (quad2 a b c) v3 ≡ b
  unfolding triple1
  triple1-quad v0 v3 = omega (
    arith,
    quad_lem,
    value_masks (quad2 a b c) quad_bounds.2,
    masks (quad1 a b c) (omega (arith, quad_bounds)),
  )

  pub triple2-quad : (v0 v1 : ℕ) → triple2 v0 v1 (quad2 a b c) (quad3 a b c) ≡ c
  unfolding triple2
  triple2-quad v0 v1 = omega (arith, quad_lem, masks (quad2 a b c) (omega (arith, quad_bounds)))
