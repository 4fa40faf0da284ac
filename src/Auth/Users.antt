-- ===== src/Auth/Users.antt =====
-- The answers of `WebServer::isUserAllowed` (src/WebServer.cc) and its history of users.
use libnavajo.Base.{
  ℕ, suc, ◌+◌, ◌≡◌, refl, ap, sym, subst, ◌∙◌, inl, inr, Bool, true, false, ◌&&◌, ◌||◌, List, [],
  ◌∷◌, ◌++◌, Option, none, some, ◌==◌, if_intro, Bool-cases, Option-cases, eq_of_some, Bytes,
  bytes_eq, bytes_order, lookup, insert, equiv, equiv_iff, lookup-insert, find_byte, take, drop,
  arith,
}
use libnavajo.Base64.{base64_decode}
use libnavajo.Auth.{History, is_new, is_listed, remember, check_user, is_user_allowed}

-- Does the text have a colon?
abbrev pub has_colon : Bytes → Bool
has_colon s = elim (find_byte 58 s) [ none ↦ false | some n ↦ true ]

abbrev pub is_in : Bytes → List Bytes → Bool
is_in s [] = false
is_in s (x ∷ xs) = bytes_eq s x || is_in s xs

-- The credentials are good: decoded, they are in the list, with a colon.
abbrev pub are_good : List Bytes → Bytes → Bool
are_good logins pwdb64 = has_colon (base64_decode pwdb64) && is_in (base64_decode pwdb64) logins

-- The history knows good credentials only.
abbrev pub IsTrusted : List Bytes → History Bytes → Type 0
IsTrusted logins h = (p : Bytes) (t : ℕ) → lookup p h ≡ some t → are_good logins p ≡ true

parted : (s : Bytes) (n : ℕ) → find_byte 58 s ≡ some n → take n s ++ (58 ∷ drop (n + 1) s) ≡ s
unfolding find_byte
parted [] n e = cc
parted (c ∷ s) n e = elim (Bool-cases (c == 58)) [
  | inl here ↦
      let f : 0 ≡ n = eq_of_some (rw (here, find_byte) at e) in
      let colon : c ≡ 58 = ground (arith, here) in
      subst (λ m. take m (c ∷ s) ++ (58 ∷ drop (m + 1) (c ∷ s)) ≡ c ∷ s) f
        (ap (λ x. x ∷ s) (sym colon))
  | inr there ↦ elim (Option-cases (find_byte 58 s)) [
    | inl none' ↦ let f = rw (there, none', find_byte) at e in cc
    | inr (m, g) ↦
        let f : suc m ≡ n = eq_of_some (rw (there, g, find_byte) at e) in
        let next : suc m + 1 ≡ suc (m + 1) = omega arith in
        subst (λ k. take k (c ∷ s) ++ (58 ∷ drop (k + 1) (c ∷ s)) ≡ c ∷ s) f
          (ap (λ k. (c ∷ take m s) ++ (58 ∷ drop k (c ∷ s))) next ∙ ap (λ x. c ∷ x) (parted s m g))
  ]
]

is_listed-is_in :
    (logins : List Bytes) (s : Bytes) (ok : Bool) → is_listed logins s ok ≡ (ok || is_in s logins)
unfolding is_listed
is_listed-is_in [] s true = refl
is_listed-is_in [] s false = refl
is_listed-is_in (x ∷ xs) s true = is_listed-is_in xs s true
is_listed-is_in (x ∷ xs) s false = is_listed-is_in xs s (bytes_eq s x)

-- Good credentials may be put into the history.
insert-IsTrusted :
    (logins : List Bytes) (p : Bytes) (t : ℕ) (h : History Bytes)
    → are_good logins p ≡ true
    → IsTrusted logins h
    → IsTrusted logins (insert p t h)
insert-IsTrusted logins p t h good trust q u e = elim (Bool-cases (equiv q p)) [
  | inl same ↦ subst (λ x. are_good logins x ≡ true) (sym ((equiv_iff q p).0 same)) good
  | inr other ↦ trust q u (rw (lookup-insert p q t h, other) at e)
]

no_colon :
    (logins : List Bytes) (p : Bytes)
    → find_byte 58 (base64_decode p) ≡ none
    → are_good logins p ≡ false
no_colon logins p e =
    ap (λ o. (elim o [ none ↦ false | some n ↦ true ]) && is_in (base64_decode p) logins) e

auth_ok-are_good :
    (logins : List Bytes) (p : Bytes) (n : ℕ)
    → find_byte 58 (base64_decode p) ≡ some n
    → let s = base64_decode p in
      is_listed logins (take n s ++ (58 ∷ drop (n + 1) s)) false ≡ are_good logins p
auth_ok-are_good logins p n e =
    ap (λ x. is_listed logins x false) (parted (base64_decode p) n e)
    ∙ is_listed-is_in logins (base64_decode p) false
    ∙ sym (ap (λ o. (elim o [ none ↦ false | some n ↦ true ]) && is_in (base64_decode p) logins) e)

check_user-allowed :
    (logins : List Bytes) (t : ℕ) (p : Bytes) (seen : Option ℕ) (h : History Bytes)
    → (check_user logins t p seen h).allowed ≡ are_good logins p
unfolding check_user
check_user-allowed logins t p seen h = elim (Option-cases (find_byte 58 (base64_decode p))) [
  | inl none' ↦ rw (no_colon logins p none') (rw (none', check_user) refl)
  | inr (n, e) ↦ sym (sym (auth_ok-are_good logins p n e) ∙ sym (rw (e, check_user) refl))
]

remember-IsTrusted :
    (logins : List Bytes) (t : ℕ) (p : Bytes) (seen : Option ℕ) (h : History Bytes)
    → are_good logins p ≡ true
    → IsTrusted logins h
    → IsTrusted logins (remember seen t p h)
remember-IsTrusted logins t p none h good trust = insert-IsTrusted logins p t h good trust
remember-IsTrusted logins t p (some u) h good trust = trust

check_user-IsTrusted :
    (logins : List Bytes) (t : ℕ) (p : Bytes) (seen : Option ℕ) (h : History Bytes)
    → IsTrusted logins h
    → IsTrusted logins (check_user logins t p seen h).history
unfolding check_user
check_user-IsTrusted logins t p seen h trust =
    elim (Option-cases (find_byte 58 (base64_decode p))) [
      | inl none' ↦ rw (none', check_user) trust
      | inr (n, e) ↦
          let s = base64_decode p in
          let ok = is_listed logins (take n s ++ (58 ∷ drop (n + 1) s)) false in
          rw (e, check_user)
            (if_intro (IsTrusted logins) ok
              (λ y.
                remember-IsTrusted logins t p seen h (sym (auth_ok-are_good logins p n e) ∙ y)
                  trust)
              (λ _. trust))
    ]

-- With a history that knows good credentials only, a user is let in exactly if the credentials,
-- decoded, have a colon and are in the list, whatever the time and whether or not they were seen
-- before; and the history still knows good credentials only.
pub is_user_allowed-are_good :
    (logins : List Bytes) (t : ℕ) (p : Bytes) (h : History Bytes)
    → IsTrusted logins h
    → ((is_user_allowed logins t p h).allowed ≡ are_good logins p)
      × IsTrusted logins (is_user_allowed logins t p h).history
unfolding is_user_allowed
is_user_allowed-are_good logins t p h trust = elim (Option-cases (lookup p h)) [
  | inl none' ↦
      rw (none', is_user_allowed)
        (check_user-allowed logins t p none h, check_user-IsTrusted logins t p none h trust)
  | inr (u, e) ↦
      let good = trust p u e in
      let again = insert-IsTrusted logins p t h good trust in
      elim (Bool-cases (is_new t (some u))) [
        | inl old ↦
            rw (e, old, is_user_allowed)
              (
                check_user-allowed logins t p (some u) (insert p t h),
                check_user-IsTrusted logins t p (some u) (insert p t h) again,
              )
        | inr recent ↦ rw (e, recent, is_user_allowed) (sym good, again)
      ]
]
