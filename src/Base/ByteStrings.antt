-- ===== src/Base/ByteStrings.antt =====
-- Byte strings (`std::string`, `char *`) as lists of numbers, and their searches.
use Prim.Native.Nat.{ℕ, zero, suc, ◌+◌, ◌-◌, ◌%◌, ◌^◌, ◌<◌, ◌≤◌, min}
use Prim.Native.Char.{code}
use Prim.Native.String.{String}
use mathlib.Core.Path.{◌≡◌, refl}
use mathlib.Core.Logic.{◌↔◌, inl, inr}
use mathlib.Core.Bool.{Bool, true, false, ◌&&◌, ◌||◌}
use mathlib.Core.Option.{Option, none, some}
use mathlib.Core.Option
use mathlib.Core.List.{List, [], ◌∷◌, ◌++◌}
use native.Mathlib.Omega.{arith}
use libnavajo.Base.Tests.{◌==◌, ltb, if◌then◌else◌, Bool-cases, Option-cases}

abbrev pub Bytes : Type 0
Bytes = List ℕ

-- The bytes of an ASCII literal.
abbrev pub codes : String → Bytes
codes String.[] = []
codes (String.◌∷◌ c s) = code c ∷ codes s

module _ {ℓ} {A : Type ℓ} where
  abbrev pub length : List A → ℕ
  length [] = 0
  length (x ∷ xs) = suc (length xs)

  abbrev pub take : ℕ → List A → List A
  take zero xs = []
  take (suc n) [] = []
  take (suc n) (x ∷ xs) = x ∷ take n xs

  abbrev pub drop : ℕ → List A → List A
  drop zero xs = xs
  drop (suc n) [] = []
  drop (suc n) (x ∷ xs) = drop n xs

  abbrev pub get_or : List A → ℕ → A → A
  get_or [] i d = d
  get_or (x ∷ xs) zero d = x
  get_or (x ∷ xs) (suc i) d = get_or xs i d

  pub length-append : (xs ys : List A) → length (xs ++ ys) ≡ length xs + length ys
  length-append [] ys = omega arith
  length-append (x ∷ xs) ys = omega (arith, length-append xs ys)

  pub take-append-drop : (n : ℕ) (xs : List A) → take n xs ++ drop n xs ≡ xs
  take-append-drop zero xs = refl
  take-append-drop (suc n) [] = refl
  take-append-drop (suc n) (x ∷ xs) = rw (take-append-drop n xs)

  pub length-take : (n : ℕ) (xs : List A) → length (take n xs) ≡ min n (length xs)
  length-take zero xs = omega arith
  length-take (suc n) [] = omega arith
  length-take (suc n) (x ∷ xs) = omega (arith, length-take n xs)

  pub length-drop : (n : ℕ) (xs : List A) → length (drop n xs) ≡ length xs - n
  length-drop zero xs = omega arith
  length-drop (suc n) [] = omega arith
  length-drop (suc n) (x ∷ xs) = omega (arith, length-drop n xs)

pub nil_of {ℓ} : {A : Type ℓ} (xs : List A) → length xs ≡ 0 → xs ≡ []
nil_of [] h = refl
nil_of (x ∷ xs) h = absurd (omega arith)

abbrev pub All {ℓ ℓ'} : {X : Type ℓ} (Holds : X → Type ℓ') → List X → Type ℓ'
All Holds [] = Unit
All Holds (a ∷ rest) = Holds a × All Holds rest

-- All of them values of an `unsigned char`.
abbrev pub AreBytes : Bytes → Type 0
AreBytes = All (λ b. b < 256)

-- `operator==` of strings.
unfoldable pub bytes_eq : Bytes → Bytes → Bool
bytes_eq [] [] = true
bytes_eq (x ∷ xs) (y ∷ ys) = x == y && bytes_eq xs ys
bytes_eq _ _ = false

pub bytes_eq_iff : (a b : Bytes) → (bytes_eq a b ≡ true) ↔ (a ≡ b)
unfolding bytes_eq
bytes_eq_iff [] [] = ground arith
bytes_eq_iff [] (y ∷ ys) = ground arith
bytes_eq_iff (x ∷ xs) [] = ground arith
bytes_eq_iff (x ∷ xs) (y ∷ ys) = ground (arith, bytes_eq_iff xs ys)

-- `operator<` of strings: lexicographic over unsigned bytes.
unfoldable pub bytes_lt : Bytes → Bytes → Bool
bytes_lt [] [] = false
bytes_lt [] (y ∷ ys) = true
bytes_lt (x ∷ xs) [] = false
bytes_lt (x ∷ xs) (y ∷ ys) = ltb x y || x == y && bytes_lt xs ys

-- Does the text stand at the beginning? (`strncmp (s, t, strlen t) == 0`)
unfoldable pub starts_with : Bytes → Bytes → Bool
starts_with [] s = true
starts_with (x ∷ xs) [] = false
starts_with (x ∷ xs) (y ∷ ys) = x == y && starts_with xs ys

-- `s.find(c)`: the first position of a byte.
unfoldable pub find_byte : ℕ → Bytes → Option ℕ
find_byte c [] = none
find_byte c (x ∷ xs) = if x == c then some 0 else Option.map suc (find_byte c xs)

-- `s.find(t)`: the first position of a text.
unfoldable pub find_text : Bytes → Bytes → Option ℕ
unfolding starts_with
find_text t [] = if starts_with t [] then some 0 else none
find_text t (x ∷ xs) = if starts_with t (x ∷ xs) then some 0 else Option.map suc (find_text t xs)

-- `s.find(c, from)`
unfoldable pub find_byte_from : ℕ → ℕ → Bytes → Option ℕ
unfolding find_byte
find_byte_from c from s = Option.map (◌+◌ from) (find_byte c (drop from s))

-- `s.substr(from, count)` where `from` is at most the length; `count` is a `size_t`.
abbrev pub substr : Bytes → ℕ → ℕ → Bytes
substr s from count = take count (drop from s)

-- `a - b` on a 64-bit `size_t`.
unfoldable pub sub_size : ℕ → ℕ → ℕ
sub_size a b = (a + 2 ^ 64 - b) % 2 ^ 64

starts_with-length : (t s : Bytes) → starts_with t s ≡ true → length t ≤ length s
unfolding starts_with
starts_with-length [] s h = omega arith
starts_with-length (x ∷ xs) [] h = cc
starts_with-length (x ∷ xs) (y ∷ ys) h = ground (arith, starts_with-length xs ys)

-- A text that is found stands within the string.
pub find_text-le : (t s : Bytes) {n : ℕ} → find_text t s ≡ some n → n + length t ≤ length s
unfolding find_text
find_text-le t [] h = ground (arith, starts_with-length t [])
find_text-le t (x ∷ xs) {n} h = elim (Bool-cases (starts_with t (x ∷ xs))) [
  | inl here ↦ ground (arith, starts_with-length t (x ∷ xs))
  | inr later ↦ elim (Option-cases (find_text t xs)) [
    | inl absent ↦ absurd (cc (rw (later, find_text, absent) at h))
    | inr (m, found) ↦ ground (arith, find_text-le t xs found)
  ]
]

starts_with-append : (t xs ys : Bytes) → starts_with t xs ≡ true → starts_with t (xs ++ ys) ≡ true
unfolding starts_with
starts_with-append [] xs ys h = refl
starts_with-append (a ∷ as') [] ys h = cc
starts_with-append (a ∷ as') (x ∷ xs) ys h = ground (arith, starts_with-append as' xs ys)

-- A text that is not in a string is in no part of it.
pub find_text-append_right :
    (t xs ys : Bytes) → find_text t (xs ++ ys) ≡ none → find_text t ys ≡ none
unfolding find_text
find_text-append_right t [] ys h = h
find_text-append_right t (x ∷ xs) ys h = elim (Bool-cases (starts_with t (x ∷ (xs ++ ys)))) [
  | inl here ↦ absurd (cc (rw (here, find_text) at h))
  | inr later ↦ elim (Option-cases (find_text t (xs ++ ys))) [
    | inl absent ↦ find_text-append_right t xs ys absent
    | inr (m, found) ↦ absurd (cc (rw (later, find_text, found) at h))
  ]
]

find_text-nil : (t ys : Bytes) → find_text t ys ≡ none → find_text t [] ≡ none
unfolding find_text
find_text-nil [] [] h = h
find_text-nil [] (y ∷ ys) h = cc
find_text-nil (a ∷ as') ys h = refl

pub find_text-append_left :
    (t xs ys : Bytes) → find_text t (xs ++ ys) ≡ none → find_text t xs ≡ none
unfolding find_text
find_text-append_left t [] ys h = find_text-nil t ys h
find_text-append_left t (x ∷ xs) ys h = elim (Bool-cases (starts_with t (x ∷ (xs ++ ys)))) [
  | inl here ↦ absurd (cc (rw (here, find_text) at h))
  | inr later ↦ elim (Option-cases (find_text t (xs ++ ys))) [
    | inl absent ↦
        ground (arith, find_text-append_left t xs ys absent, starts_with-append t (x ∷ xs) ys)
    | inr (m, found) ↦ absurd (cc (rw (later, find_text, found) at h))
  ]
]

-- The chunks of a text, joined.
abbrev pub joined : List Bytes → Bytes
joined [] = []
joined (s ∷ ss) = s ++ joined ss
