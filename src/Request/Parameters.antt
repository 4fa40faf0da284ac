-- ===== src/Request/Parameters.antt =====
-- The second loop of `HttpRequest::decodParams` (include/libnavajo/HttpRequest.hh), which fills the map
-- of the parameters.
pub mod Values
pub mod Adding
use libnavajo.Base.{
  ℕ, zero, suc, ◌+◌, Bool, true, false, List, [], ◌∷◌, ◌++◌, Option, none, some, ◌==◌,
  if◌then◌else◌, Bytes, codes, lookup, insert, bytes_order, find_byte, take, drop,
}
use libnavajo.Request.Percent.{percent_decode}

abbrev pub ParametersMap : Type 0
ParametersMap = List (Bytes × Bytes)

-- The pieces between the separators; there is always one.
unfoldable pub split_at : ℕ → Bytes → Bytes × List Bytes
split_at sep [] = ([], [])
split_at sep (c ∷ s) =
    let (piece, pieces) = split_at sep s in
    if c == sep then ([], piece ∷ pieces) else (c ∷ piece, pieces)

abbrev pub array_key : Bytes → Bytes
array_key key = key ++ codes "[]"

abbrev pub joined_by : Bytes → Bytes → Bytes
joined_by old value = old ++ (124 ∷ value)

-- The value under the array's key, from what is there.
abbrev pub array_value : Option Bytes → Bytes → Bytes → Bytes
array_value (some all) old value = joined_by all value
array_value none old value = joined_by old value

-- A parameter with a value, where the key is there or not.
abbrev pub add_value : Option Bytes → Bytes → Bytes → ParametersMap → ParametersMap
add_value none key value m = insert key value m
add_value (some old) key value m =
    insert key value (insert (array_key key) (array_value (lookup (array_key key) m) old value) m)

unfoldable pub add_param : Bytes → ParametersMap → ParametersMap
add_param the_param m = elim (find_byte 61 the_param) [
  | none ↦ insert the_param [] m
  | some pos_eq ↦
      let key = take pos_eq the_param in
      add_value (lookup key m) key (drop (pos_eq + 1) the_param) m
]

pub add_params : List Bytes → ParametersMap → ParametersMap
unfolding add_param
add_params [] m = m
add_params (p ∷ ps) m = add_params ps (add_param p m)

unfoldable pub decod_params : Bytes → ParametersMap → ParametersMap
unfolding split_at add_params percent_decode
decod_params raw m =
    let (piece, pieces) = split_at 38 (percent_decode raw) in add_params (piece ∷ pieces) m
