-- ===== src/Address/Networks/Octets.antt =====
-- The words of 32 bits that `IpNetwork::isInside` (include/libnavajo/IpAddress.hh) compares, by their
-- octets and by their leading bits.
use libnavajo.Base.{ℕ, zero, suc, ◌+◌, ◌*◌, ◌/◌, ◌<◌, ◌≡◌, refl, ap, arith}
use libnavajo.Address.Networks.{bits_and}

-- `n << k`, and `x >> k`.
unfoldable pub shift_left : ℕ → ℕ → ℕ
shift_left zero n = n
shift_left (suc k) n = 2 * shift_left k n

unfoldable pub shift_right : ℕ → ℕ → ℕ
shift_right zero x = x
shift_right (suc k) x = shift_right k (x / 2)

-- So many bits that are set.
unfoldable pub ones : ℕ → ℕ
ones zero = 0
ones (suc w) = 1 + 2 * ones w

pub shift_left_injective : (k a b : ℕ) → shift_left k a ≡ shift_left k b → a ≡ b
unfolding shift_left
shift_left_injective zero a b h = h
shift_left_injective (suc k) a b h = shift_left_injective k a b (omega (arith, h))

zero_plus : (w : ℕ) → 0 + w ≡ w
zero_plus w = omega arith

suc_plus : (k w : ℕ) → suc k + w ≡ suc (k + w)
suc_plus k w = omega arith

pub shift_right_bound : (k w x : ℕ) → x < shift_left (k + w) 1 → shift_right k x < shift_left w 1
unfolding shift_left shift_right
shift_right_bound zero w x h = rw (zero_plus w) at h
shift_right_bound (suc k) w x h =
    shift_right_bound k w (x / 2) (omega (arith, rw (suc_plus k w) at h))

-- A mask of ones with zeros below takes the bits above.
pub bits_and-shift_left :
    (k w x n : ℕ)
    → bits_and (k + w) x (shift_left k n) ≡ shift_left k (bits_and w (shift_right k x) n)
unfolding bits_and shift_left shift_right
bits_and-shift_left zero w x n = rw (zero_plus w) refl
bits_and-shift_left (suc k) w x n = rw (suc_plus k w) (
    omega (
      arith,
      ap (bits_and (k + w) (x / 2)) (half (shift_left k n)),
      bits_and-shift_left k w (x / 2) n,
    ))
  where
    half : (s : ℕ) → (2 * s) / 2 ≡ s
    half s = omega arith

pub bits_and-ones : (w x : ℕ) → x < shift_left w 1 → bits_and w x (ones w) ≡ x
unfolding bits_and shift_left ones
bits_and-ones zero x h = omega (arith, h)
bits_and-ones (suc w) x h =
    omega
      (arith, ap (bits_and w (x / 2)) (half (ones w)), bits_and-ones w (x / 2) (omega (arith, h)))
  where
    half : (s : ℕ) → (1 + 2 * s) / 2 ≡ s
    half s = omega arith

-- The parts of a word below and above a bit.
pub bits_and-split :
    (k w x y : ℕ)
    → bits_and (k + w) x y
      ≡ bits_and k x y + shift_left k (bits_and w (shift_right k x) (shift_right k y))
unfolding bits_and shift_left shift_right
bits_and-split zero w x y = rw (zero_plus w) (omega arith)
bits_and-split (suc k) w x y = rw (suc_plus k w) (omega (arith, bits_and-split k w (x / 2) (y / 2)))

pub bits_and_comm : (w x y : ℕ) → bits_and w x y ≡ bits_and w y x
unfolding bits_and
bits_and_comm zero x y = refl
bits_and_comm (suc w) x y = omega (arith, bits_and_comm w (x / 2) (y / 2))

-- What stands above the bits does not count.
pub bits_and-above : (w x u y : ℕ) → bits_and w (x + shift_left w u) y ≡ bits_and w x y
unfolding bits_and shift_left
bits_and-above zero x u y = refl
bits_and-above (suc w) x u y = omega (
  arith,
  ap (λ z. bits_and w z (y / 2)) (half (shift_left w u)),
  bits_and-above w (x / 2) u (y / 2),
)
  where
    half : (s : ℕ) → (x + 2 * s) / 2 ≡ x / 2 + s
    half s = omega arith

pub bits_and-bound : (w x y : ℕ) → bits_and w x y < shift_left w 1
unfolding bits_and shift_left
bits_and-bound zero x y = omega arith
bits_and-bound (suc w) x y = omega (arith, bits_and-bound w (x / 2) (y / 2))
