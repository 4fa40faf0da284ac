-- ===== src/Request/Pairs.antt =====
-- A cookie as a browser writes it (`HttpRequest::decodCookies`, include/libnavajo/HttpRequest.hh).
use libnavajo.Base.{
  ℕ, zero, suc, ◌+◌, ◌-◌, ◌<◌, ◌≡◌, refl, ap, ◌∙◌, true, [], ◌∷◌, ◌++◌, none, ltb, Bytes, insert,
  bytes_order, find_byte, take, drop, length, length-append, arith, append_assoc,
}
use libnavajo.Request.Cookies.{CookiesMap, is_graph, first_graph, add_cookie}
use libnavajo.Request.Parameters.Adding.{param_text, first_equals, key_part, value_part}

abbrev pub blanks : ℕ → Bytes
blanks zero = []
blanks (suc n) = 32 ∷ blanks n

-- Blanks, the name, `=` and the value.
abbrev pub cookie_text : ℕ → Bytes → Bytes → Bytes
cookie_text n name value = param_text (blanks n ++ name) value

no_equals :
    (n : ℕ) (name : Bytes) → find_byte 61 name ≡ none → find_byte 61 (blanks n ++ name) ≡ none
unfolding find_byte
no_equals zero name h = h
no_equals (suc n) name h = rw (no_equals n name h) refl

first_graph-blanks :
    (n c k : ℕ) (name tail : Bytes)
    → is_graph c ≡ true
    → n < k
    → first_graph k (blanks n ++ (c ∷ name) ++ tail) ≡ n
unfolding first_graph
first_graph-blanks n c zero name tail g l = absurd (omega (arith, l))
first_graph-blanks zero c (suc k) name tail g l = rw g refl
first_graph-blanks (suc n) c (suc k) name tail g l =
    ap suc (first_graph-blanks n c k name tail g (omega (arith, l)))

length-blanks : (n : ℕ) → length (blanks n) ≡ n
length-blanks zero = refl
length-blanks (suc n) = ap suc (length-blanks n)

drop-blanks : (n : ℕ) (s : Bytes) → drop n (blanks n ++ s) ≡ s
drop-blanks zero s = refl
drop-blanks (suc n) s = drop-blanks n s

-- A cookie whose name begins with a character that is seen and has no `=`, after any blanks and with a
-- value that is not empty, is kept under its name with its value.
pub add_cookie-text :
    (n c : ℕ) (name value : Bytes) (m : CookiesMap)
    → is_graph c ≡ true
    → find_byte 61 (c ∷ name) ≡ none
    → 0 < length value
    → add_cookie (cookie_text n (c ∷ name) value) m ≡ insert (c ∷ name) value m
unfolding add_cookie
add_cookie-text n c name value m g h some' =
    let key = blanks n ++ (c ∷ name) in
    let size : length key ≡ n + suc (length name) =
      length-append (blanks n) (c ∷ name) ∙ ap (λ k. k + suc (length name)) (length-blanks n) in
    let whole : length (param_text key value) ≡ length key + suc (length value) =
      length-append key (61 ∷ value) in
    let at : first_graph (length key) (param_text key value) ≡ n =
      first_graph-blanks n c (length key) name (61 ∷ value) g (omega (arith, size)) in
    let low : ltb n (length key) ≡ true = ground (arith, size) in
    let high : ltb (length key + 1) (length (param_text key value)) ≡ true =
      ground (arith, whole, some') in
    let named : take (length key - n) (drop n (param_text key value)) ≡ c ∷ name =
      ap (λ s. take (length key - n) (drop n s)) (append_assoc (blanks n) (c ∷ name) (61 ∷ value))
      ∙ ap (take (length key - n)) (drop-blanks n ((c ∷ name) ++ (61 ∷ value)))
      ∙ ap (λ k. take k ((c ∷ name) ++ (61 ∷ value))) (left (length key) size)
      ∙ key_part (c ∷ name) value in
    rw
      (
        first_equals key value (no_equals n (c ∷ name) h),
        add_cookie,
        at,
        low,
        high,
        named,
        value_part key value,
      )
      refl
  where
    left : (k : ℕ) → k ≡ n + suc (length name) → k - n ≡ suc (length name)
    left k e = omega (arith, e)
