-- ===== src/Base64.antt =====
-- Base64 of credentials: `base64_encode`, `base64_decode` and `is_base64` of `WebServer`
-- (src/WebServer.cc, include/libnavajo/WebServer.hh). The counters `i` and `in_` with the arrays
-- `char_array_3` and `char_array_4` are the group that is being filled.
pub mod Digits
pub mod RoundTrip
mod Tests
use Prim.Native.Nat.{bit_and}
use libnavajo.Base.{
  ℕ, ◌+◌, ◌*◌, ◌/◌, ◌%◌, Bool, not, ◌&&◌, ◌||◌, [], ◌∷◌, ◌++◌, none, some, leb, ◌==◌, if◌then◌else◌,
  Bytes, codes, get_or, find_byte,
}

abbrev pub base64_chars : Bytes
base64_chars = codes "ABCDEFGHIJKLMNOPQRSTUVWXYZabcdefghijklmnopqrstuvwxyz0123456789+/"

-- `isalnum(c) || c == '+' || c == '/'`, in the C locale.
unfoldable pub is_base64 : ℕ → Bool
is_base64 c =
    leb b'A' c && leb c b'Z'
    || leb b'a' c && leb c b'z'
    || leb b'0' c && leb c b'9'
    || c == b'+'
    || c == b'/'

-- `base64_chars[v]`
pub char_of : ℕ → ℕ
char_of v = get_or base64_chars v 0

-- `(unsigned char) base64_chars.find(c)`; `npos` becomes 255.
pub value_of : ℕ → ℕ
value_of c = elim (find_byte c base64_chars) [ some i ↦ i % 256 | none ↦ 255 ]

-- What `char_array_4` is computed to from `char_array_3`.
module _ (b0 b1 b2 : ℕ) where
  pub quad0 : ℕ
  quad0 = bit_and b0 0xfc / 4

  pub quad1 : ℕ
  quad1 = bit_and b0 0x03 * 16 + bit_and b1 0xf0 / 16

  pub quad2 : ℕ
  quad2 = bit_and b1 0x0f * 4 + bit_and b2 0xc0 / 64

  pub quad3 : ℕ
  quad3 = bit_and b2 0x3f

-- The bytes of the group that is not yet complete (`char_array_3` up to `i`).
pub data Filled : Type 0 where
  filled0 : Filled
  filled1 : ℕ → Filled
  filled2 : ℕ → ℕ → Filled

-- The whole group.
pub encode_group : ℕ → ℕ → ℕ → Bytes
unfolding char_of quad0 quad1 quad2 quad3
encode_group a b c =
    char_of (quad0 a b c)
    ∷ char_of (quad1 a b c)
    ∷ char_of (quad2 a b c)
    ∷ char_of (quad3 a b c)
    ∷ []

-- `if (i)` behind the loop: the group is filled with zeros, `i + 1` characters and the `=` are written.
pub encode_end : Filled → Bytes
unfolding char_of quad0 quad1 quad2 quad3
encode_end filled0 = []
encode_end (filled1 a) = char_of (quad0 a 0 0) ∷ char_of (quad1 a 0 0) ∷ b'=' ∷ b'=' ∷ []
encode_end (filled2 a b) =
    char_of (quad0 a b 0) ∷ char_of (quad1 a b 0) ∷ char_of (quad2 a b 0) ∷ b'=' ∷ []

pub encode_loop : Filled → Bytes → Bytes
encode_loop f [] = encode_end f
encode_loop filled0 (x ∷ xs) = encode_loop (filled1 x) xs
encode_loop (filled1 a) (x ∷ xs) = encode_loop (filled2 a x) xs
encode_loop (filled2 a b) (x ∷ xs) = encode_group a b x ++ encode_loop filled0 xs

unfoldable pub base64_encode : Bytes → Bytes
unfolding encode_loop encode_group encode_end
base64_encode = encode_loop filled0

-- What `char_array_3` is computed to from the values in `char_array_4`, each an `unsigned char`.
module _ (v0 v1 v2 v3 : ℕ) where
  pub triple0 : ℕ
  triple0 = (v0 * 4 + bit_and v1 0x30 / 16) % 256

  pub triple1 : ℕ
  triple1 = (bit_and v1 0x0f * 16 + bit_and v2 0x3c / 4) % 256

  pub triple2 : ℕ
  triple2 = (bit_and v2 0x03 * 64 + v3) % 256

-- `char_array_4` up to `i`, still the characters of the input.
pub data Pending : Type 0 where
  pending0 : Pending
  pending1 : ℕ → Pending
  pending2 : ℕ → ℕ → Pending
  pending3 : ℕ → ℕ → ℕ → Pending

pub decode_group : ℕ → ℕ → ℕ → ℕ → Bytes
unfolding value_of triple0 triple1 triple2
decode_group a b c d =
    let v0 = value_of a in
    let v1 = value_of b in
    let v2 = value_of c in
    let v3 = value_of d in triple0 v0 v1 v2 v3 ∷ triple1 v0 v1 v2 v3 ∷ triple2 v0 v1 v2 v3 ∷ []

-- `if (i)` behind the loop: the group is filled with NUL, which is not found, and `i - 1` bytes come out.
pub decode_end : Pending → Bytes
unfolding value_of triple0 triple1 triple2
decode_end pending0 = []
decode_end (pending1 a) = []
decode_end (pending2 a b) = triple0 (value_of a) (value_of b) (value_of 0) (value_of 0) ∷ []
decode_end (pending3 a b c) =
    triple0 (value_of a) (value_of b) (value_of c) (value_of 0)
    ∷ triple1 (value_of a) (value_of b) (value_of c) (value_of 0)
    ∷ []

-- The loop stops at `=`, and at any byte outside the alphabet.
pub decode_loop : Pending → Bytes → Bytes
decode_loop p [] = decode_end p
decode_loop pending0 (x ∷ xs) =
    if not (x == b'=') && is_base64 x then decode_loop (pending1 x) xs else decode_end pending0
decode_loop (pending1 a) (x ∷ xs) =
    if not (x == b'=') && is_base64 x
    then decode_loop (pending2 a x) xs
    else decode_end (pending1 a)
decode_loop (pending2 a b) (x ∷ xs) =
    if not (x == b'=') && is_base64 x
    then decode_loop (pending3 a b x) xs
    else decode_end (pending2 a b)
decode_loop (pending3 a b c) (x ∷ xs) =
    if not (x == b'=') && is_base64 x
    then decode_group a b c x ++ decode_loop pending0 xs
    else decode_end (pending3 a b c)

unfoldable pub base64_decode : Bytes → Bytes
unfolding decode_loop decode_group decode_end is_base64
base64_decode = decode_loop pending0
