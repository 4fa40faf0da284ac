-- ===== src/WebSocket/Bits.antt =====
-- Bytes as the WebSocket frames use them: the exclusive or of two bytes, and numbers in network order
-- (`htons`, `ntohs`, and `htonll`, `ntohll` of include/libnavajo/htonll.h).
use libnavajo.Base.{
  ℕ, zero, suc, ◌+◌, ◌*◌, ◌/◌, ◌%◌, ◌<◌, ◌≡◌, refl, ap, ◌∙◌, [], ◌∷◌, ◌++◌, Bytes, AreBytes, arith,
  length, get_or,
}

-- The lowest `w` bits of `a ^ b`.
unfoldable pub xor : ℕ → ℕ → ℕ → ℕ
xor zero a b = 0
xor (suc w) a b = (a % 2 + b % 2) % 2 + 2 * xor w (a / 2) (b / 2)

unfoldable pub two_to : ℕ → ℕ
two_to zero = 1
two_to (suc w) = 2 * two_to w

-- Twice the same exclusive or is nothing.
pub xor_twice : (w a b : ℕ) → a < two_to w → xor w (xor w a b) b ≡ a
unfolding xor two_to
xor_twice zero a b h = omega arith
xor_twice (suc w) a b h = omega (
  arith,
  xor_twice w (a / 2) (b / 2) (omega (arith, h)),
  ap (λ x. xor w x (b / 2)) (half ((a % 2 + b % 2) % 2) (xor w (a / 2) (b / 2)) (omega arith)),
)
  where
    half : (x y : ℕ) → x < 2 → (x + 2 * y) / 2 ≡ y
    half x y p = omega (arith, p)

abbrev pub xor_byte : ℕ → ℕ → ℕ
xor_byte = xor 8

-- The loop that takes the mask off: `msgContentIt` counts on from `it`.
unfoldable pub unmask : Bytes → ℕ → Bytes → Bytes
unmask keys it [] = []
unmask keys it (b ∷ bs) = xor_byte b (get_or keys (it % 4) 0) ∷ unmask keys (it + 1) bs

pub length-unmask : (keys : Bytes) (it : ℕ) (bs : Bytes) → length (unmask keys it bs) ≡ length bs
unfolding unmask
length-unmask keys it [] = refl
length-unmask keys it (b ∷ bs) = omega (arith, length-unmask keys (it + 1) bs)

pub unmask_twice :
    (keys : Bytes) (it : ℕ) (bs : Bytes) → AreBytes bs → unmask keys it (unmask keys it bs) ≡ bs
unfolding unmask two_to
unmask_twice keys it [] h = refl
unmask_twice keys it (b ∷ bs) h =
    rw (xor_twice 8 b (get_or keys (it % 4) 0) h.0, unmask_twice keys (it + 1) bs h.1) refl

pub unmask-append :
    (keys : Bytes) (it : ℕ) (bs cs : Bytes)
    → unmask keys it (bs ++ cs) ≡ unmask keys it bs ++ unmask keys (it + length bs) cs
unfolding unmask
unmask-append keys it [] cs = ap (λ n. unmask keys n cs) (omega arith)
unmask-append keys it (b ∷ bs) cs =
    ap (λ x. xor_byte b (get_or keys (it % 4) 0) ∷ x)
      (unmask-append keys (it + 1) bs cs
        ∙ ap (λ n. unmask keys (it + 1) bs ++ unmask keys n cs) (omega arith))

-- The number whose bytes, the most significant first, are these.
unfoldable pub number_of : ℕ → Bytes → ℕ
number_of acc [] = acc
number_of acc (b ∷ bs) = number_of (acc * 256 + b) bs

-- `w` bytes of a number, the most significant first.
unfoldable pub network_bytes : ℕ → ℕ → Bytes
network_bytes zero n = []
network_bytes (suc w) n = network_bytes w (n / 256) ++ n % 256 ∷ []

unfoldable pub bytes_to : ℕ → ℕ
bytes_to zero = 1
bytes_to (suc w) = bytes_to w * 256

number_of-snoc :
    (acc : ℕ) (bs : Bytes) (d : ℕ) → number_of acc (bs ++ d ∷ []) ≡ number_of acc bs * 256 + d
unfolding number_of
number_of-snoc acc [] d = refl
number_of-snoc acc (b ∷ bs) d = number_of-snoc (acc * 256 + b) bs d

pub number_of-network_bytes : (w n : ℕ) → n < bytes_to w → number_of 0 (network_bytes w n) ≡ n
unfolding number_of network_bytes bytes_to
number_of-network_bytes zero n h = omega (arith, h)
number_of-network_bytes (suc w) n h = omega (
  arith,
  number_of-snoc 0 (network_bytes w (n / 256)) (n % 256),
  number_of-network_bytes w (n / 256) (omega (arith, h)),
)

pub length-network_bytes : (w n : ℕ) → length (network_bytes w n) ≡ w
unfolding network_bytes
length-network_bytes zero n = refl
length-network_bytes (suc w) n =
    length-snoc (network_bytes w (n / 256)) (n % 256) ∙ ap suc (length-network_bytes w (n / 256))
  where
    length-snoc : (bs : Bytes) (d : ℕ) → length (bs ++ d ∷ []) ≡ suc (length bs)
    length-snoc [] d = refl
    length-snoc (b ∷ bs) d = ap suc (length-snoc bs d)
