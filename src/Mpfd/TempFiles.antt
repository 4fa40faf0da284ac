-- ===== src/Mpfd/TempFiles.antt =====
-- The search for a temporary file in `Field::AcceptSomeData` (src/MPFDParser/Field.cc): the first
-- `MPFD_Temp_<i>` that cannot be opened for reading.
pub mod Search
use libnavajo.Base.{
  ℕ, zero, suc, ◌+◌, ◌*◌, ◌/◌, ◌%◌, ◌-◌, ◌<◌, ◌≤◌, ◌≡◌, refl, Bool, true, false, ◌||◌, List, [],
  ◌∷◌, ◌++◌, Option, none, some, ltb, leb, ◌==◌, if◌then◌else◌, Bytes, codes, bytes_eq,
  bytes_eq_iff, length, arith, length-append,
}

-- `ss << i` for an `int` that is not negative: the decimal digits, with fuel for them.
pub decimal_digits : ℕ → ℕ → Bytes
decimal_digits zero n = []
decimal_digits (suc f) n = elim (ltb n 10) [
  | true ↦ (n + 48) ∷ []
  | false ↦ decimal_digits f (n / 10) ++ (n % 10 + 48) ∷ []
]

unfoldable pub decimal : ℕ → Bytes
unfolding decimal_digits
decimal n = decimal_digits (n + 1) n

unfoldable pub temp_name : ℕ → Bytes
unfolding decimal
temp_name i = codes "MPFD_Temp_" ++ decimal i

-- The files that there are, by their paths.
abbrev pub Disk : Type 0
Disk = List Bytes

unfoldable pub is_on_disk : Bytes → Disk → Bool
unfolding bytes_eq
is_on_disk path [] = false
is_on_disk path (p ∷ ps) = bytes_eq path p || is_on_disk path ps

-- `tempfile`
unfoldable pub temp_path : Bytes → ℕ → Bytes
unfolding temp_name
temp_path dir i = dir ++ (b'/' ∷ temp_name i)

-- The do-while loop from the value `i` on.
unfoldable pub first_free : ℕ → Bytes → ℕ → Disk → Option ℕ
unfolding is_on_disk temp_path
first_free zero dir i disk = none
first_free (suc fuel) dir i disk = elim (is_on_disk (temp_path dir i) disk) [
  | true ↦ first_free fuel dir (i + 1) disk
  | false ↦ some i
]
