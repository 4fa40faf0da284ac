-- ===== src/Request/Cookies.antt =====
-- `HttpRequest::decodCookies` (include/libnavajo/HttpRequest.hh).
use libnavajo.Base.{
  ℕ, zero, suc, ◌+◌, ◌-◌, Bool, ◌&&◌, List, [], ◌∷◌, none, some, ltb, leb, ◌==◌, if◌then◌else◌,
  Bytes, insert, bytes_order, find_byte, take, drop, length,
}

abbrev pub CookiesMap : Type 0
CookiesMap = List (Bytes × Bytes)

-- The lines that `std::getline` gives: an empty rest is none.
unfoldable pub lines_at : ℕ → Bytes → List Bytes
lines_at sep [] = []
lines_at sep (c ∷ s) =
    let rest = lines_at sep s in
    if c == sep then [] ∷ rest else (elim rest [ [] ↦ (c ∷ []) ∷ [] | l ∷ ls ↦ (c ∷ l) ∷ ls ])

-- `std::isgraph` in the C locale.
abbrev pub is_graph : ℕ → Bool
is_graph c = leb 33 c && leb c 126

-- `firstC`: the first position below `posEq` of a character that is seen.
unfoldable pub first_graph : ℕ → Bytes → ℕ
first_graph zero s = 0
first_graph (suc n) [] = 0
first_graph (suc n) (c ∷ s) = let rest = first_graph n s in if is_graph c then 0 else suc rest

unfoldable pub add_cookie : Bytes → CookiesMap → CookiesMap
unfolding first_graph
add_cookie the_cookie m = elim (find_byte 61 the_cookie) [
  | none ↦ m
  | some pos_eq ↦
      let first_c = first_graph pos_eq the_cookie in
      if ltb first_c pos_eq && ltb (pos_eq + 1) (length the_cookie)
      then insert (take (pos_eq - first_c) (drop first_c the_cookie)) (drop (pos_eq + 1) the_cookie)
          m
      else m
]

pub add_cookies : List Bytes → CookiesMap → CookiesMap
unfolding add_cookie
add_cookies [] m = m
add_cookies (c ∷ cs) m = add_cookies cs (add_cookie c m)

unfoldable pub decod_cookies : Bytes → CookiesMap → CookiesMap
unfolding lines_at add_cookies
decod_cookies raw m = add_cookies (lines_at 59 raw) m
