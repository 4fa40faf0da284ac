-- ===== src/Mpfd/TempFiles/Search.antt =====
-- The fuel of the search for a temporary file in `Field::AcceptSomeData` (src/MPFDParser/Field.cc).
use libnavajo.Base.{
  ℕ, zero, suc, ◌+◌, ◌*◌, ◌/◌, ◌%◌, ◌-◌, ◌<◌, ◌≤◌, ◌≡◌, ◌≢◌, refl, sym, ap, ◌∙◌, true, false, [],
  ◌∷◌, ◌++◌, none, some, ltb, if◌then◌else◌, Bytes, codes, bytes_eq, bytes_eq_iff, length, arith,
  Bool-cases, inl, inr,
}
use libnavajo.Mpfd.TempFiles.{
  decimal_digits, decimal, temp_name, temp_path, Disk, is_on_disk, first_free,
}

-- The number that digits stand for, behind the digits read already.
abbrev value_from : ℕ → Bytes → ℕ
value_from acc [] = acc
value_from acc (d ∷ ds) = value_from (acc * 10 + (d - 48)) ds

value_from-append :
    (acc : ℕ) (xs ys : Bytes) → value_from acc (xs ++ ys) ≡ value_from (value_from acc xs) ys
value_from-append acc [] ys = refl
value_from-append acc (x ∷ xs) ys = value_from-append (acc * 10 + (x - 48)) xs ys

value-decimal_digits : (f n : ℕ) → n < f → value_from 0 (decimal_digits f n) ≡ n
unfolding decimal_digits
value-decimal_digits zero n h = absurd (omega arith)
value-decimal_digits (suc f) n h = elim (Bool-cases (ltb n 10)) [
  | inl small ↦ rw (small, decimal_digits) (omega arith)
  | inr large ↦
      rw (large, decimal_digits)
        (value_from-append 0 (decimal_digits f (n / 10)) ((n % 10 + 48) ∷ [])
          ∙ ground (arith, value-decimal_digits f (n / 10)))
]

decimal-injective : (i j : ℕ) → decimal i ≡ decimal j → i ≡ j
unfolding decimal
decimal-injective i j e =
    sym (value-decimal_digits (i + 1) i (omega arith))
    ∙ ap (value_from 0) e
    ∙ value-decimal_digits (j + 1) j (omega arith)

append-injective : (xs : Bytes) {ys zs : Bytes} → xs ++ ys ≡ xs ++ zs → ys ≡ zs
append-injective [] e = e
append-injective (x ∷ xs) e = append-injective xs (cc)

temp_path-injective : (dir : Bytes) (i j : ℕ) → temp_path dir i ≡ temp_path dir j → i ≡ j
unfolding temp_path temp_name
temp_path-injective dir i j e =
    let f = append-injective dir e in
    decimal-injective i j (append-injective (codes "MPFD_Temp_") (cc))

remove_file : Bytes → Disk → Disk
remove_file path [] = []
remove_file path (p ∷ ps) = if bytes_eq path p then ps else p ∷ remove_file path ps

length-remove_file :
    (path : Bytes) (disk : Disk)
    → is_on_disk path disk ≡ true
    → length disk ≡ length (remove_file path disk) + 1
unfolding is_on_disk remove_file
length-remove_file path [] h = cc
length-remove_file path (p ∷ ps) h = ground (arith, length-remove_file path ps)

is_on_disk-remove_file :
    (path other : Bytes) (disk : Disk)
    → path ≢ other
    → is_on_disk other disk ≡ true
    → is_on_disk other (remove_file path disk) ≡ true
unfolding is_on_disk remove_file
is_on_disk-remove_file path other [] ne h = h
is_on_disk-remove_file path other (p ∷ ps) ne h =
    ground
      (arith, is_on_disk-remove_file path other ps ne, bytes_eq_iff path p, bytes_eq_iff other p)

-- The paths from the number `i` on that are all taken.
abbrev AllTaken : ℕ → Bytes → ℕ → Disk → Type 0
AllTaken zero dir i disk = Unit
AllTaken (suc k) dir i disk =
    (is_on_disk (temp_path dir i) disk ≡ true) × AllTaken k dir (i + 1) disk

AllTaken-remove_file :
    (k : ℕ) (dir : Bytes) (i j : ℕ) (disk : Disk)
    → i < j
    → AllTaken k dir j disk
    → AllTaken k dir j (remove_file (temp_path dir i) disk)
AllTaken-remove_file zero dir i j disk lt h = tt
AllTaken-remove_file (suc k) dir i j disk lt h = (
  is_on_disk-remove_file (temp_path dir i) (temp_path dir j) disk
      (λ e. absurd (omega (arith, temp_path-injective dir i j e))) h.0,
  AllTaken-remove_file k dir i (j + 1) disk (omega arith) h.1,
)

AllTaken-le : (k : ℕ) (dir : Bytes) (i : ℕ) (disk : Disk) → AllTaken k dir i disk → k ≤ length disk
AllTaken-le zero dir i disk h = omega arith
AllTaken-le (suc k) dir i disk h = omega (
  arith,
  length-remove_file (temp_path dir i) disk h.0,
  AllTaken-le k dir (i + 1) (remove_file (temp_path dir i) disk)
      (AllTaken-remove_file k dir i (i + 1) disk (omega arith) h.1),
)

first_free-AllTaken :
    (k : ℕ) (dir : Bytes) (i : ℕ) (disk : Disk)
    → first_free k dir i disk ≡ none
    → AllTaken k dir i disk
unfolding first_free
first_free-AllTaken zero dir i disk h = tt
first_free-AllTaken (suc k) dir i disk h = elim (Bool-cases (is_on_disk (temp_path dir i) disk)) [
  | inl taken ↦ (taken, first_free-AllTaken k dir (i + 1) disk (rw (taken, first_free) at h))
  | inr free ↦ absurd (cc (rw (free, first_free) at h))
]

-- The loop finds a name within one round more than there are files.
pub first_free-ne-none :
    (dir : Bytes) (i : ℕ) (disk : Disk) → first_free (length disk + 1) dir i disk ≢ none
first_free-ne-none dir i disk h =
    absurd
      (omega (arith, AllTaken-le (length disk + 1) dir i disk (first_free-AllTaken _ dir i disk h)))

pub first_free-is_on_disk :
    (k : ℕ) (dir : Bytes) (i : ℕ) (disk : Disk) {n : ℕ}
    → first_free k dir i disk ≡ some n
    → is_on_disk (temp_path dir n) disk ≡ false
unfolding first_free
first_free-is_on_disk zero dir i disk h = cc
first_free-is_on_disk (suc k) dir i disk h = elim (Bool-cases (is_on_disk (temp_path dir i) disk)) [
  | inl taken ↦ first_free-is_on_disk k dir (i + 1) disk (rw (taken, first_free) at h)
  | inr free ↦ ground (arith, rw (free, first_free) at h)
]
