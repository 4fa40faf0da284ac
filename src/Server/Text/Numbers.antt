-- ===== src/Server/Text/Numbers.antt =====
-- Numbers as texts (src/WebServer.cc): the stream output of a `size_t`, and `atoi`.
use libnavajo.Base.{
  ℕ, zero, suc, ◌+◌, ◌-◌, ◌*◌, ◌/◌, ◌%◌, ◌^◌, ◌<◌, ◌≤◌, min, Bool, true, false, ◌&&◌, [], ◌∷◌, ◌==◌,
  ltb, leb, if◌then◌else◌, Bytes, ◌≡◌, refl, sym, ap, ◌∙◌, inl, inr, Bool-cases, arith,
}
use libnavajo.Request.Percent.{is_space}

-- The digits of a number, on fuel, in front of those that are there already.
unfoldable pub size_digits : ℕ → ℕ → Bytes → Bytes
size_digits zero n acc = acc
size_digits (suc fuel) n acc =
    let more = size_digits fuel (n / 10) ((48 + n % 10) ∷ acc) in
    if ltb n 10 then (48 + n) ∷ acc else more

-- `ss << n`
unfoldable pub size_text : ℕ → Bytes
unfolding size_digits
size_text n = size_digits (n + 1) n []

abbrev pub is_digit : ℕ → Bool
is_digit c = leb 48 c && leb c 57

-- The value of the digits at the beginning, behind those read before.
unfoldable pub read_digits : ℕ → Bytes → ℕ
read_digits v [] = v
read_digits v (c ∷ s) = if is_digit c then read_digits (v * 10 + (c - 48)) s else v

-- The C library's `atoi`, which reads a 64-bit `long` that stays at its bounds and takes the lower
-- half of it as an `int`; as the bits of that `int`.
abbrev pub atoi_signed : Bytes → ℕ
atoi_signed [] = 0
atoi_signed (c ∷ s) =
    if c == b'-'
    then (2 ^ 64 - min (2 ^ 63) (read_digits 0 s)) % 2 ^ 32
    else (if c == b'+'
        then min (2 ^ 63 - 1) (read_digits 0 s) % 2 ^ 32
        else min (2 ^ 63 - 1) (read_digits 0 (c ∷ s)) % 2 ^ 32)

unfoldable pub atoi : Bytes → ℕ
unfolding read_digits
atoi [] = 0
atoi (c ∷ s) = if is_space c then atoi s else atoi_signed (c ∷ s)

-- An `int` as a `size_t`.
abbrev pub size_of_int : ℕ → ℕ
size_of_int i = if ltb i (2 ^ 31) then i else i + (2 ^ 64 - 2 ^ 32)

-- The digits of a number read back to it, in front of the rest.
is_digit_of : (d : ℕ) → d < 10 → is_digit (48 + d) ≡ true
is_digit_of d h = ground arith

read_digit :
    (v d : ℕ) (s : Bytes) → d < 10 → read_digits v ((48 + d) ∷ s) ≡ read_digits (v * 10 + d) s
unfolding read_digits
read_digit v d s h =
    let e : v * 10 + (48 + d - 48) ≡ v * 10 + d = omega arith in
    ap (λ b. if b then read_digits (v * 10 + (48 + d - 48)) s else v) (is_digit_of d h)
    ∙ ap (λ w. read_digits w s) e

read_digits-size_digits :
    (fuel n : ℕ) (acc : Bytes)
    → n < fuel
    → read_digits 0 (size_digits fuel n acc) ≡ read_digits n acc
unfolding size_digits
read_digits-size_digits zero n acc h = absurd (omega arith)
read_digits-size_digits (suc fuel) n acc h = elim (Bool-cases (ltb n 10)) [
  | inl small ↦
      rw small
        (read_digit 0 n acc (ground (arith, small)) ∙ ap (λ w. read_digits w acc) (omega arith))
  | inr large ↦ rw large (
      read_digits-size_digits fuel (n / 10) ((48 + n % 10) ∷ acc) (ground (arith, large))
      ∙ read_digit (n / 10) (n % 10) acc (omega arith)
      ∙ ap (λ w. read_digits w acc) (omega arith))
]

read_end : (n : ℕ) → read_digits n [] ≡ n
unfolding read_digits
read_end n = refl

-- The text of a number starts with a digit.
pub record StartsWithDigit (s : Bytes) : Type 0 where
  pub digit : ℕ
  pub others : Bytes
  pub shape : s ≡ digit ∷ others
  pub holds : (48 ≤ digit) × (digit ≤ 57)

size_digits-StartsWithDigit :
    (fuel n : ℕ) (acc : Bytes) → n < fuel → StartsWithDigit (size_digits fuel n acc)
unfolding size_digits
size_digits-StartsWithDigit zero n acc h = absurd (omega arith)
size_digits-StartsWithDigit (suc fuel) n acc h = elim (Bool-cases (ltb n 10)) [
  | inl small ↦ rw small (record {
    digit = 48 + n;
    others = acc;
    shape = refl;
    holds = (omega arith, ground (arith, small));
  })
  | inr large ↦
      rw large
        (size_digits-StartsWithDigit fuel (n / 10) ((48 + n % 10) ∷ acc) (ground (arith, large)))
]

atoi-digit :
    (c : ℕ) (s : Bytes)
    → (48 ≤ c) × (c ≤ 57)
    → atoi (c ∷ s) ≡ min (2 ^ 63 - 1) (read_digits 0 (c ∷ s)) % 2 ^ 32
unfolding atoi
atoi-digit c s h =
    let blank : is_space c ≡ false = ground arith in
    let minus : (c == b'-') ≡ false = ground arith in
    let plus : (c == b'+') ≡ false = ground arith in rw (blank, minus, plus) refl

-- The text that the server writes for a length is read back as that length, if it is an `int`.
pub atoi-size_text : (n : ℕ) → n < 2 ^ 31 → size_of_int (atoi (size_text n)) ≡ n
unfolding size_text
atoi-size_text n h =
    let first = size_digits-StartsWithDigit (n + 1) n [] (omega arith) in
    let value = read_digits-size_digits (n + 1) n [] (omega arith) in
    let reads : atoi (size_digits (n + 1) n []) ≡ min (2 ^ 63 - 1) n % 2 ^ 32 =
      ap atoi first.shape
      ∙ atoi-digit first.digit first.others first.holds
      ∙ ap (λ s. min (2 ^ 63 - 1) (read_digits 0 s) % 2 ^ 32) (sym first.shape)
      ∙ ap (λ v. min (2 ^ 63 - 1) v % 2 ^ 32) (value ∙ read_end n) in
    let same : min (2 ^ 63 - 1) n % 2 ^ 32 ≡ n = omega arith in
    let int : ltb n (2 ^ 31) ≡ true = ground arith in rw (reads, same, int) refl
