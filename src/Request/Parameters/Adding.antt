-- ===== src/Request/Parameters/Adding.antt =====
-- How one parameter is added (include/libnavajo/HttpRequest.hh: `HttpRequest::decodParams`).
use libnavajo.Base.{
  suc, ◌+◌, ◌≡◌, ◌≢◌, refl, ap, ◌∙◌, inl, inr, false, List, [], ◌∷◌, ◌++◌, none, some, ◌==◌, Bytes,
  codes, lookup, insert, equiv, bytes_order, equiv_iff, lookup-insert, lookup-insert_self,
  find_byte, take, drop, length, length-append, arith, Bool-cases, Option-cases,
}
use libnavajo.Request.Parameters.{
  ParametersMap, add_param, add_value, array_key, array_value, joined_by,
}

abbrev pub param_text : Bytes → Bytes → Bytes
param_text key value = key ++ (61 ∷ value)

-- The last value, and all of them with bars between.
abbrev pub last_of : Bytes → List Bytes → Bytes
last_of v [] = v
last_of v (w ∷ ws) = last_of w ws

abbrev pub with_bars : Bytes → List Bytes → Bytes
with_bars all [] = all
with_bars all (w ∷ ws) = with_bars (joined_by all w) ws

pub first_equals :
    (key value : Bytes)
    → find_byte 61 key ≡ none
    → find_byte 61 (param_text key value) ≡ some (length key)
unfolding find_byte
first_equals [] value h = refl
first_equals (c ∷ key) value h = elim (Bool-cases (c == 61)) [
  | inl here ↦ let f = rw (here, find_byte) at h in cc
  | inr there ↦ elim (Option-cases (find_byte 61 key)) [
    | inl none' ↦ rw (there, find_byte, first_equals key value none') refl
    | inr (n, e) ↦ let f = rw (there, e, find_byte) at h in cc
  ]
]

pub key_part : (key value : Bytes) → take (length key) (param_text key value) ≡ key
key_part [] value = refl
key_part (c ∷ key) value = ap (λ x. c ∷ x) (key_part key value)

pub value_part : (key value : Bytes) → drop (length key + 1) (param_text key value) ≡ value
value_part key value =
    let e : length key + 1 ≡ suc (length key) = omega arith in
    ap (λ n. drop n (param_text key value)) e ∙ past key value
  where
    past : (k v : Bytes) → drop (suc (length k)) (param_text k v) ≡ v
    past [] v = refl
    past (c ∷ k) v = past k v

pub add_param-text :
    (key value : Bytes) (m : ParametersMap)
    → find_byte 61 key ≡ none
    → add_param (param_text key value) m ≡ add_value (lookup key m) key value m
unfolding add_param
add_param-text key value m h =
    rw (first_equals key value h, add_param, key_part key value, value_part key value) refl

equiv-array_key : (key : Bytes) → equiv key (array_key key) ≡ false
equiv-array_key key = elim (Bool-cases (equiv key (array_key key))) [
  | inl same ↦ absurd (longer (ap length ((equiv_iff key (array_key key)).0 same)))
  | inr other ↦ other
]
  where
    longer : length key ≢ length (array_key key)
    longer e = omega (arith, e, length-append key (codes "[]"))

pub array_key-equiv : (key : Bytes) → equiv (array_key key) key ≡ false
array_key-equiv key = elim (Bool-cases (equiv (array_key key) key)) [
  | inl same ↦ absurd (longer (ap length ((equiv_iff (array_key key) key).0 same)))
  | inr other ↦ other
]
  where
    longer : length (array_key key) ≢ length key
    longer e = omega (arith, e, length-append key (codes "[]"))

-- Another value for a key that is there.
pub record Holds (key : Bytes) (m : ParametersMap) (old all : Bytes) : Type 0 where
  pub value : lookup key m ≡ some old
  pub array : lookup (array_key key) m ≡ some all

pub add_value-Holds :
    (key v old all : Bytes) (m : ParametersMap)
    → lookup key m ≡ some old
    → array_value (lookup (array_key key) m) old v ≡ all
    → Holds key (add_value (lookup key m) key v m) v all
add_value-Holds key v old all m h e =
    rw (h, e)
      (record {
        value = lookup-insert_self key v (insert (array_key key) all m);
        array =
            lookup-insert key (array_key key) v (insert (array_key key) all m)
            ∙ rw (array_key-equiv key) (lookup-insert_self (array_key key) all m);
      })
