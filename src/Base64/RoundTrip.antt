-- ===== src/Base64/RoundTrip.antt =====
-- `base64_decode` after `base64_encode` (src/WebServer.cc).
use libnavajo.Base.{
  ℕ, ◌<◌, ◌≡◌, refl, arith, [], ◌∷◌, ◌++◌, Bytes, AreBytes, length, ◌∙◌, sym, append-nil, ◌+◌, ◌*◌,
  ◌/◌,
}
use libnavajo.Base64.{
  value_of, quad0, quad1, quad2, quad3, Filled, filled0, filled1, filled2, encode_group, encode_end,
  encode_loop, base64_encode, pending0, decode_group, decode_end, decode_loop, base64_decode,
}
use libnavajo.Base64.Digits.{
  value_of-char_of, char_of_accepted, quad_bounds, triple0-quad, triple1-quad, triple2-quad,
}

abbrev filled_bytes : Filled → Bytes
filled_bytes filled0 = []
filled_bytes (filled1 a) = a ∷ []
filled_bytes (filled2 a b) = a ∷ b ∷ []

abbrev IsFilled : Filled → Type 0
IsFilled filled0 = Unit
IsFilled (filled1 a) = a < 256
IsFilled (filled2 a b) = (a < 256) × (b < 256)

-- A whole group is read as the three bytes that it was made of.
decode_group-encode_group :
    (a b c : ℕ)
    → a < 256
    → b < 256
    → c < 256
    → (rest : Bytes)
    → decode_loop pending0 (encode_group a b c ++ rest) ≡ a ∷ b ∷ c ∷ decode_loop pending0 rest
unfolding decode_loop encode_group decode_group
decode_group-encode_group a b c ha hb hc rest =
    let q = quad_bounds a b c ha hb hc in
    rw (
      char_of_accepted (quad0 a b c) q.0,
      char_of_accepted (quad1 a b c) q.1,
      char_of_accepted (quad2 a b c) q.2,
      char_of_accepted (quad3 a b c) q.3,
      value_of-char_of (quad0 a b c) q.0,
      value_of-char_of (quad1 a b c) q.1,
      value_of-char_of (quad2 a b c) q.2,
      value_of-char_of (quad3 a b c) q.3,
      triple0-quad a b c ha hb hc (quad2 a b c) (quad3 a b c),
      triple1-quad a b c ha hb hc (quad0 a b c) (quad3 a b c),
      triple2-quad a b c ha hb hc (quad0 a b c) (quad1 a b c),
    )

-- The two ends of a group that is not full, each with its padding.
decode-encode_end : (f : Filled) → IsFilled f → decode_loop pending0 (encode_end f) ≡ filled_bytes f
unfolding decode_loop encode_end decode_end
decode-encode_end filled0 h = refl
decode-encode_end (filled1 a) h =
    let q = quad_bounds a 0 0 h (omega arith) (omega arith) in
    rw (
      char_of_accepted (quad0 a 0 0) q.0,
      char_of_accepted (quad1 a 0 0) q.1,
      value_of-char_of (quad0 a 0 0) q.0,
      value_of-char_of (quad1 a 0 0) q.1,
      triple0-quad a 0 0 h (omega arith) (omega arith) (value_of 0) (value_of 0),
    )
decode-encode_end (filled2 a b) h =
    let q = quad_bounds a b 0 h.0 h.1 (omega arith) in
    rw (
      char_of_accepted (quad0 a b 0) q.0,
      char_of_accepted (quad1 a b 0) q.1,
      char_of_accepted (quad2 a b 0) q.2,
      value_of-char_of (quad0 a b 0) q.0,
      value_of-char_of (quad1 a b 0) q.1,
      value_of-char_of (quad2 a b 0) q.2,
      triple0-quad a b 0 h.0 h.1 (omega arith) (quad2 a b 0) (value_of 0),
      triple1-quad a b 0 h.0 h.1 (omega arith) (quad0 a b 0) (value_of 0),
    )

decode-encode_loop :
    (f : Filled) (s : Bytes)
    → IsFilled f
    → AreBytes s
    → decode_loop pending0 (encode_loop f s) ≡ filled_bytes f ++ s
unfolding encode_loop
decode-encode_loop f [] hf hs = decode-encode_end f hf ∙ sym (append-nil (filled_bytes f))
decode-encode_loop filled0 (x ∷ xs) hf hs = decode-encode_loop (filled1 x) xs hs.0 hs.1
decode-encode_loop (filled1 a) (x ∷ xs) hf hs = decode-encode_loop (filled2 a x) xs (hf, hs.0) hs.1
decode-encode_loop (filled2 a b) (x ∷ xs) hf hs =
    decode_group-encode_group a b x hf.0 hf.1 hs.0 (encode_loop filled0 xs)
    ∙ rw (decode-encode_loop filled0 xs tt hs.1)

-- Decoding what was encoded gives back every string of bytes, whatever its length modulo three.
pub base64_decode-base64_encode : (s : Bytes) → AreBytes s → base64_decode (base64_encode s) ≡ s
unfolding base64_decode base64_encode
base64_decode-base64_encode s h = decode-encode_loop filled0 s tt h

length-encode_loop :
    (f : Filled) (s : Bytes)
    → length (encode_loop f s) ≡ (length (filled_bytes f) + length s + 2) / 3 * 4
unfolding encode_loop encode_group encode_end
length-encode_loop filled0 [] = refl
length-encode_loop (filled1 a) [] = refl
length-encode_loop (filled2 a b) [] = refl
length-encode_loop filled0 (x ∷ xs) = omega (arith, length-encode_loop (filled1 x) xs)
length-encode_loop (filled1 a) (x ∷ xs) = omega (arith, length-encode_loop (filled2 a x) xs)
length-encode_loop (filled2 a b) (x ∷ xs) = omega (arith, length-encode_loop filled0 xs)

-- The encoding of n bytes has 4 * ceil (n / 3) characters.
pub length-base64_encode : (s : Bytes) → length (base64_encode s) ≡ (length s + 2) / 3 * 4
unfolding base64_encode
length-base64_encode s = omega (arith, length-encode_loop filled0 s)
