-- ===== src/Request/Parameters/Values.antt =====
-- What `HttpRequest::decodParams` (include/libnavajo/HttpRequest.hh) makes of a key that comes several
-- times.
use libnavajo.Base.{
  Option, sym, true, false≢true, subst, if◌then◌else◌, ◌≡◌, ◌≢◌, refl, ap, ◌∙◌, inl, inr, false,
  List, [], ◌∷◌, ◌++◌, none, some, Bytes, codes, lookup, insert, equiv, bytes_order, equiv_iff,
  lookup-insert, lookup-insert_self, find_byte, length, length-append, arith, Bool-cases,
}
use libnavajo.Request.Parameters.{
  ParametersMap, add_param, add_params, add_value, array_key, array_value, joined_by,
}
use libnavajo.Request.Parameters.Adding.{
  param_text, last_of, with_bars, add_param-text, array_key-equiv, add_value-Holds,
}

-- A parameter: a key and a value.
abbrev pub texts_of : List (Bytes × Bytes) → List Bytes
texts_of [] = []
texts_of ((k, v) ∷ ps) = param_text k v ∷ texts_of ps

-- The values that come with a key, in their order.
abbrev pub values_of : Bytes → List (Bytes × Bytes) → List Bytes
values_of key [] = []
values_of key ((k, v) ∷ ps) = if equiv k key then v ∷ values_of key ps else values_of key ps

-- No key has an equals sign, none is this key with "[]", and none becomes this key with "[]".
abbrev pub AreApart : Bytes → List (Bytes × Bytes) → Type 0
AreApart key [] = Unit
AreApart key ((k, v) ∷ ps) =
    (find_byte 61 k ≡ none) × (k ≢ array_key key) × (array_key k ≢ key) × AreApart key ps

differ : (a b : Bytes) → a ≢ b → equiv a b ≡ false
differ a b n = elim (Bool-cases (equiv a b)) [
  | inl same ↦ absurd (n ((equiv_iff a b).0 same))
  | inr other ↦ other
]

differ_sym : (a b : Bytes) → equiv a b ≡ false → equiv b a ≡ false
differ_sym a b h = differ b a (λ e. false≢true (sym h ∙ (equiv_iff a b).1 (sym e)))

append_cancel : (a b c : Bytes) → a ++ c ≡ b ++ c → a ≡ b
append_cancel [] [] c e = refl
append_cancel [] (y ∷ b) c e = absurd (ground (arith, ap length e, length-append (y ∷ b) c))
append_cancel (x ∷ a) [] c e = absurd (ground (arith, ap length e, length-append (x ∷ a) c))
append_cancel (x ∷ a) (y ∷ b) c e = let f : a ≡ b = append_cancel a b c (cc) in cc

arrays_differ : (k key : Bytes) → equiv k key ≡ false → equiv (array_key key) (array_key k) ≡ false
arrays_differ k key h =
    differ (array_key key) (array_key k)
      (λ e. false≢true (sym h ∙ (equiv_iff k key).1 (append_cancel k key (codes "[]") (sym e))))

-- A parameter of another key leaves what is there of this one.
other_lookup :
    (k v x : Bytes) (m : ParametersMap) (o : Option Bytes)
    → equiv x k ≡ false
    → equiv x (array_key k) ≡ false
    → lookup x (add_value o k v m) ≡ lookup x m
other_lookup k v x m none a b = lookup-insert k x v m ∙ rw a refl
other_lookup k v x m (some old) a b =
    let all = array_value (lookup (array_key k) m) old v in
    lookup-insert k x v (insert (array_key k) all m)
    ∙ rw a (lookup-insert (array_key k) x all m ∙ rw b refl)

-- What is under the key, and under the key with "[]".
abbrev Under : Bytes → ParametersMap → Option Bytes → Option Bytes → Type 0
Under key m value all = (lookup key m ≡ value) × (lookup (array_key key) m ≡ all)

other_param :
    (key k v : Bytes) (m : ParametersMap) {value all : Option Bytes}
    → find_byte 61 k ≡ none
    → k ≢ array_key key
    → array_key k ≢ key
    → equiv k key ≡ false
    → Under key m value all
    → Under key (add_param (param_text k v) m) value all
other_param key k v m no_sign a b n (h, g) = rw (add_param-text k v m no_sign) (
  other_lookup k v key m (lookup k m) (differ_sym k key n)
        (differ key (array_key k) (λ e. b (sym e)))
      ∙ h,
  other_lookup k v (array_key key) m (lookup k m) (differ (array_key key) k (λ e. a (sym e)))
        (arrays_differ k key n)
      ∙ g,
)

same_key : (k key v : Bytes) → equiv k key ≡ true → param_text k v ≡ param_text key v
same_key k key v e = ap (λ x. param_text x v) ((equiv_iff k key).0 e)

-- The sign of a key that is this one.
sign_of : (k key : Bytes) → equiv k key ≡ true → find_byte 61 k ≡ none → find_byte 61 key ≡ none
sign_of k key e h = subst (λ x. find_byte 61 x ≡ none) ((equiv_iff k key).0 e) h

first_param :
    (key v : Bytes) (m : ParametersMap)
    → find_byte 61 key ≡ none
    → Under key m none none
    → Under key (add_param (param_text key v) m) (some v) none
first_param key v m h (absent, no_array) =
    rw (add_param-text key v m h, absent)
      (
        lookup-insert_self key v m,
        lookup-insert key (array_key key) v m ∙ rw (array_key-equiv key) no_array,
      )

next_param :
    (key v old all : Bytes) (m : ParametersMap) (before : Option Bytes)
    → find_byte 61 key ≡ none
    → array_value before old v ≡ all
    → Under key m (some old) before
    → Under key (add_param (param_text key v) m) (some v) (some all)
next_param key v old all m before h e (there, array) =
    let k = add_value-Holds key v old all m there (ap (λ o. array_value o old v) array ∙ e) in
    rw (add_param-text key v m h) (k.value, k.array)

-- From two values on.
later_params :
    (key old all : Bytes) (ps : List (Bytes × Bytes)) (m : ParametersMap)
    → AreApart key ps
    → Under key m (some old) (some all)
    → Under key
        (add_params (texts_of ps) m)
        (some (last_of old (values_of key ps)))
        (some (with_bars all (values_of key ps)))
unfolding add_params
later_params key old all [] m apart h = h
later_params key old all ((k, v) ∷ ps) m apart h = elim (Bool-cases (equiv k key)) [
  | inl same ↦
      rw (same, same_key k key v same)
        (later_params key v (joined_by all v) ps (add_param (param_text key v) m) apart.3
          (next_param key v old (joined_by all v) m (some all) (sign_of k key same apart.0) refl h))
  | inr other ↦ rw other (
      later_params key old all ps (add_param (param_text k v) m) apart.3
        (other_param key k v m apart.0 apart.1 apart.2 other h))
]

-- From one value on.
second_params :
    (key old w : Bytes) (ws : List Bytes) (ps : List (Bytes × Bytes)) (m : ParametersMap)
    → AreApart key ps
    → values_of key ps ≡ w ∷ ws
    → Under key m (some old) none
    → Under key
        (add_params (texts_of ps) m)
        (some (last_of w ws))
        (some (with_bars (joined_by old w) ws))
unfolding add_params
second_params key old w ws [] m apart e h = cc
second_params key old w ws ((k, v) ∷ ps) m apart e h = elim (Bool-cases (equiv k key)) [
  | inl same ↦
      let f : v ∷ values_of key ps ≡ w ∷ ws = rw same at e in
      let is_w : v ≡ w = cc in
      let is_ws : values_of key ps ≡ ws = cc in
      rw (same_key k key v same, is_w, ← is_ws)
        (later_params key w (joined_by old w) ps (add_param (param_text key w) m) apart.3
          (next_param key w old (joined_by old w) m none (sign_of k key same apart.0) refl h))
  | inr other ↦
      second_params key old w ws ps (add_param (param_text k v) m) apart.3 (rw other at e)
        (other_param key k v m apart.0 apart.1 apart.2 other h)
]

-- Any parameters with equals signs, of which more than one has a key that was not there before, nor with
-- "[]", and no other key is this key with "[]" or becomes it: under the key is the last of its values, and
-- under the key with "[]" all of them in their order with "|" between, wherever they come among the others.
pub add_params-values :
    (key v w : Bytes) (ws : List Bytes) (ps : List (Bytes × Bytes)) (m : ParametersMap)
    → AreApart key ps
    → values_of key ps ≡ v ∷ w ∷ ws
    → lookup key m ≡ none
    → lookup (array_key key) m ≡ none
    → (lookup key (add_params (texts_of ps) m) ≡ some (last_of w ws))
      × (lookup (array_key key) (add_params (texts_of ps) m) ≡ some (with_bars v (w ∷ ws)))
unfolding add_params
add_params-values key v w ws [] m apart e absent no_array = cc
add_params-values key v w ws ((k, x) ∷ ps) m apart e absent no_array =
    elim (Bool-cases (equiv k key)) [
      | inl same ↦
          let f : x ∷ values_of key ps ≡ v ∷ w ∷ ws = rw same at e in
          let is_v : x ≡ v = cc in
          let is_rest : values_of key ps ≡ w ∷ ws = cc in
          rw (same_key k key x same, is_v)
            (second_params key v w ws ps (add_param (param_text key v) m) apart.3 is_rest
              (first_param key v m (sign_of k key same apart.0) (absent, no_array)))
      | inr other ↦
          let h = other_param key k x m apart.0 apart.1 apart.2 other (absent, no_array) in
          add_params-values key v w ws ps (add_param (param_text k x) m) apart.3 (rw other at e) h.0
            h.1
    ]
