-- ===== src/Request/Percent/Encoding.antt =====
-- The percent encoding of forms, for `HttpRequest::decodParams` (include/libnavajo/HttpRequest.hh).
use libnavajo.Base.{
  ℕ, ◌+◌, ◌/◌, ◌%◌, ◌<◌, ◌≡◌, refl, ap, sym, ◌∙◌, inl, inr, Bool, true, false, not, ◌&&◌, ◌||◌, [],
  ◌∷◌, ◌++◌, none, some, ltb, leb, ◌==◌, if◌then◌else◌, Bool-cases, Bytes, AreBytes, arith,
  holds_from, holds_below,
}
use libnavajo.Request.Percent.{digit_value, hex_value, percent_decode}

-- An upper-case hexadecimal digit.
abbrev pub hex_digit : ℕ → ℕ
hex_digit v = if ltb v 10 then 48 + v else 55 + v

-- The characters that stand for themselves.
abbrev pub is_plain : ℕ → Bool
is_plain c =
    (leb 48 c && leb c 57)
    || ((leb 65 c && leb c 90)
        || ((leb 97 c && leb c 122) || ((c == 45) || ((c == 46) || ((c == 95) || (c == 42))))))

-- `application/x-www-form-urlencoded`.
abbrev pub encode_byte : ℕ → Bytes
encode_byte c =
    if is_plain c
    then c ∷ []
    else (if c == 32 then 43 ∷ [] else 37 ∷ hex_digit (c / 16) ∷ hex_digit (c % 16) ∷ [])

abbrev pub form_encode : Bytes → Bytes
form_encode [] = []
form_encode (c ∷ s) = encode_byte c ++ form_encode s

abbrev is_read : ℕ → Bool
is_read c = elim (hex_value (hex_digit (c / 16)) (hex_digit (c % 16))) [
  | none ↦ false
  | some v ↦ v == c
]

all_read : holds_from (λ c. is_read c && not (hex_digit (c / 16) == 37)) 0 256 ≡ true
unfolding holds_from hex_value digit_value
all_read = refl

hex_value-hex_digit :
    (c : ℕ)
    → c < 256
    → (hex_value (hex_digit (c / 16)) (hex_digit (c % 16)) ≡ some c)
      × ((hex_digit (c / 16) == 37) ≡ false)
hex_value-hex_digit c h = ground (arith, holds_below 256 _ c all_read h)

plain_chars : holds_from (λ c. not (is_plain c) || (not (c == 37) && not (c == 43))) 0 256 ≡ true
unfolding holds_from
plain_chars = refl

plain_is : (c : ℕ) → c < 256 → is_plain c ≡ true → ((c == 37) ≡ false) × ((c == 43) ≡ false)
plain_is c h plain =
    parts (is_plain c) (c == 37) (c == 43) plain (holds_below 256 _ c plain_chars h)
  where
    parts :
        (p a b : Bool) → p ≡ true → (not p || (not a && not b)) ≡ true → (a ≡ false) × (b ≡ false)
    parts true true b e f = cc
    parts true false true e f = cc
    parts true false false e f = (refl, refl)
    parts false a b e f = cc

-- A plain character is passed as it is.
decode-other :
    (a : ℕ) (s : Bytes)
    → (a == 37) ≡ false
    → percent_decode (a ∷ s) ≡ (if a == 43 then 32 else a) ∷ percent_decode s
unfolding percent_decode
decode-other a [] h = refl
decode-other a (b ∷ []) h = rw h refl
decode-other a (b ∷ c ∷ s) h = rw h refl

decode-percent :
    (c : ℕ) (s : Bytes)
    → c < 256
    → percent_decode (37 ∷ hex_digit (c / 16) ∷ hex_digit (c % 16) ∷ s) ≡ c ∷ percent_decode s
unfolding percent_decode
decode-percent c s h = let (e, n) = hex_value-hex_digit c h in rw (n, e) refl

eq_of_test : (m n : ℕ) → (m == n) ≡ true → m ≡ n
eq_of_test m n h = ground (arith, h)

-- A text of bytes that a form encodes is decoded to itself.
pub percent_decode-form_encode : (s : Bytes) → AreBytes s → percent_decode (form_encode s) ≡ s
unfolding percent_decode
percent_decode-form_encode [] h = refl
percent_decode-form_encode (c ∷ s) h =
    let rest = percent_decode-form_encode s h.1 in
    elim (Bool-cases (is_plain c)) [
      | inl plain ↦
          let (not_percent, not_plus) = plain_is c h.0 plain in
          rw plain (decode-other c (form_encode s) not_percent ∙ rw (not_plus, rest) refl)
      | inr coded ↦ elim (Bool-cases (c == 32)) [
        | inl space ↦
            rw (coded, space)
              (decode-other 43 (form_encode s) refl
                ∙ rw rest (ap (λ x. x ∷ s) (sym (eq_of_test c 32 space))))
        | inr other ↦
            rw (coded, other) (decode-percent c (form_encode s) h.0 ∙ ap (λ x. c ∷ x) rest)
      ]
    ]
