-- ===== src/Request/Percent.antt =====
-- The first loop of `HttpRequest::decodParams` (include/libnavajo/HttpRequest.hh), which takes the
-- percent encoding off.
pub mod Encoding
use libnavajo.Base.{
  ℕ, zero, suc, ◌+◌, ◌-◌, ◌*◌, ◌%◌, Bool, true, false, ◌&&◌, ◌||◌, List, [], ◌∷◌, Option, none,
  some, map, ltb, leb, ◌==◌, if◌then◌else◌, Bytes, length,
}

-- The value of a hexadecimal digit.
unfoldable pub digit_value : ℕ → Option ℕ
digit_value c =
    if leb 48 c && leb c 57
    then some (c - 48)
    else (if leb 65 c && leb c 70
        then some (c - 55)
        else (if leb 97 c && leb c 102 then some (c - 87) else none))

-- `isspace` in the C locale.
abbrev pub is_space : ℕ → Bool
is_space c = (c == 32) || (leb 9 c && leb c 13)

abbrev negated : ℕ → ℕ
negated v = (256 - v) % 256

-- The first character is no digit: white space and signs may stand before one.
abbrev pub second_digit : ℕ → Option ℕ → Option ℕ
second_digit a none = none
second_digit a (some v) =
    if is_space a || (a == 43) then some v else (if a == 45 then some (negated v) else none)

-- The first character is a digit: the second may be one, but "0x" is no number.
abbrev pub two_digits : ℕ → ℕ → Option ℕ → Option ℕ
two_digits b v (some w) = some (v * 16 + w)
two_digits b v none = if (v == 0) && ((b == 120) || (b == 88)) then none else some v

-- What `ss >> std::hex` reads from two characters, as a `char`; `none` for a failure.
unfoldable pub hex_value : ℕ → ℕ → Option ℕ
unfolding digit_value
hex_value a b = elim (digit_value a) [
  | none ↦ second_digit a (digit_value b)
  | some v ↦ two_digits b v (digit_value b)
]

-- The loop; what stands before `start` is done with, and is not looked at again. `at_percent` is the
-- case of a `%` that `b` and `c` follow, where `same` is the rest after only the `%` is passed, `less`
-- the rest after `b`, and `least` the rest after `c`.
abbrev pub at_percent : ℕ → ℕ → Bytes → Bytes → Bytes → Bytes
at_percent b c same less least =
    if b == 37 then 37 ∷ less else (elim (hex_value b c) [ none ↦ 37 ∷ same | some v ↦ v ∷ least ])

abbrev pub at_other : ℕ → Bytes → Bytes
at_other a rest = (if a == 43 then 32 else a) ∷ rest

unfoldable pub percent_decode : Bytes → Bytes
unfolding hex_value
percent_decode [] = []
percent_decode (a ∷ []) = at_other a []
percent_decode (a ∷ b ∷ []) =
    let same = percent_decode (b ∷ []) in
    if a == 37 then 37 ∷ (if b == 37 then [] else same) else at_other a same
percent_decode (a ∷ b ∷ c ∷ s) =
    let least = percent_decode s in
    let less = percent_decode (c ∷ s) in
    let same = percent_decode (b ∷ c ∷ s) in
    if a == 37 then at_percent b c same less least else at_other a same
