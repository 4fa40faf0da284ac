-- ===== src/Server/Text.antt =====
-- The C and C++ texts of the request loop (src/WebServer.cc): C strings, `ltrim`, `rtrim`, `trim`,
-- `addExtraHeader` and the standard library's functions that they use.
pub mod Numbers
use libnavajo.Base.{
  ℕ, zero, suc, ◌+◌, ◌-◌, Bool, true, false, not, ◌&&◌, List, [], ◌∷◌, Option, none, some, ◌==◌,
  leb, if◌then◌else◌, Bytes, codes, length, take, drop, find_byte, find_text, insert, bytes_order,
}
use libnavajo.Request.Percent.{is_space}
use libnavajo.Request.Parameters.{ParametersMap}

-- The bytes before the first zero: what `strlen`, `strcpy` and the like see.
unfoldable pub c_str : Bytes → Bytes
c_str [] = []
c_str (c ∷ s) = if c == 0 then [] else c ∷ c_str s

-- `std::find_if (s.begin (), s.end (), !isspace)` and the erasure before it.
unfoldable pub ltrim : Bytes → Bytes
ltrim [] = []
ltrim (c ∷ s) = if is_space c then ltrim s else c ∷ s

abbrev pub cons_unless_blank : ℕ → Bytes → Bytes
cons_unless_blank c [] = if is_space c then [] else c ∷ []
cons_unless_blank c (d ∷ s) = c ∷ d ∷ s

-- The same from the end.
unfoldable pub rtrim : Bytes → Bytes
rtrim [] = []
rtrim (c ∷ s) = cons_unless_blank c (rtrim s)

unfoldable pub trim : Bytes → Bytes
unfolding ltrim rtrim
trim s = ltrim (rtrim s)

-- `std::getline`: what stands before the delimiter, and what stands behind it, if it is there.
unfoldable pub getline : ℕ → Bytes → Bytes × Option Bytes
getline delim [] = ([], none)
getline delim (c ∷ s) =
    let (piece, rest) = getline delim s in if c == delim then ([], some s) else (c ∷ piece, rest)

-- The second `getline` fails where nothing is left.
abbrev pub value_line : Option Bytes → Option Bytes
value_line none = none
value_line (some []) = none
value_line (some (c ∷ s)) = some (getline b'\n' (c ∷ s)).0

abbrev pub add_header : Bytes → Option Bytes → ParametersMap → ParametersMap
add_header header none m = m
add_header header (some val) m = insert (trim header) (trim val) m

-- `addExtraHeader`
unfoldable pub add_extra_header : Bytes → ParametersMap → ParametersMap
unfolding getline trim
add_extra_header l m = let (header, rest) = getline b':' l in add_header header (value_line rest) m

unfoldable pub lower : ℕ → ℕ
lower c = if leb b'A' c && leb c b'Z' then c + 32 else c

-- `strncasecmp (s, t, strlen t) == 0`
unfoldable pub starts_with_nocase : Bytes → Bytes → Bool
unfolding lower
starts_with_nocase [] s = true
starts_with_nocase (x ∷ xs) [] = false
starts_with_nocase (x ∷ xs) (y ∷ ys) = lower x == lower y && starts_with_nocase xs ys

abbrev pub is_some {ℓ} : {A : Type ℓ} → Option A → Bool
is_some none = false
is_some (some a) = true

-- `strstr (s, t) != NULL`
abbrev pub has_text : Bytes → Bytes → Bool
has_text t s = is_some (find_text t s)
