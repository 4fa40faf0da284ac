-- ===== src/Auth/Tokens.antt =====
-- The answers of `WebServer::isTokenAllowed` (src/WebServer.cc) and its history of tokens.
use libnavajo.Base.{
  ℕ, ◌≡◌, refl, sym, subst, inl, inr, Bool, true, false, not, ◌&&◌, Option, none, some, ltb, ◌==◌,
  if◌then◌else◌, if_intro, Bool-cases, Option-cases, eq_of_some, Bytes, bytes_order, lookup, insert,
  erase, equiv, equiv_iff, lookup-insert, lookup-erase,
}
use libnavajo.Auth.{scope_fails, History, TokenCallbacks, check_token, is_token_allowed}

-- The token decodes, has an expiration, and is not past it.
abbrev pub is_in_time : TokenCallbacks → ℕ → Option Bytes → Bool
is_in_time c t none = false
is_in_time c t (some d) = not (c.expiration_of d == 0) && not (ltb (c.expiration_of d) t)

-- The callback for scopes is not set, or returns 0 for the token and the resource.
abbrev pub returns_zero : Option (Bytes → Bytes → ℕ) → Bytes → Bytes → Bool
returns_zero none d url = true
returns_zero (some callback) d url = callback d url == 0

scope_fails_lem :
    (o : Option (Bytes → Bytes → ℕ)) (d url : Bytes)
    → scope_fails o d url ≡ not (returns_zero o d url)
scope_fails_lem none d url = refl
scope_fails_lem (some callback) d url = refl

abbrev pub is_in_scope : TokenCallbacks → Bytes → Option Bytes → Bool
is_in_scope c url none = false
is_in_scope c url (some d) = returns_zero c.scopes_check d url

-- What the history tells of a token is what the token tells.
abbrev pub Tells : TokenCallbacks → Option Bytes → ℕ → Type 0
Tells c none expiration = ⊥
Tells c (some d) expiration = (c.expiration_of d ≡ expiration) × ((expiration == 0) ≡ false)

abbrev pub IsKnown : TokenCallbacks → History Bytes → Type 0
IsKnown c h = (p : Bytes) (e : ℕ) → lookup p h ≡ some e → Tells c (c.decodes p) e

abbrev pub is_cached : Option ℕ → Bool
is_cached none = false
is_cached (some e) = true

in_time :
    (c : TokenCallbacks) (t e : ℕ) (o : Option Bytes)
    → Tells c o e
    → is_in_time c t o ≡ not (ltb e t)
in_time c t e none k = absurd k
in_time c t e (some d) k = rw (k.0, k.1) refl

check_token-allowed :
    (c : TokenCallbacks) (t : ℕ) (p url : Bytes) (h : History Bytes)
    → (check_token c t p url h).0 ≡ is_in_time c t (c.decodes p) && is_in_scope c url (c.decodes p)
unfolding check_token
check_token-allowed c t p url h = elim (Option-cases (c.decodes p)) [
  | inl none' ↦ rw (none', check_token) refl
  | inr (d, e) ↦
      rw (e, check_token)
        (elim (Bool-cases (c.expiration_of d == 0)) [
          | inl never ↦ rw never refl
          | inr some' ↦ elim (Bool-cases (ltb (c.expiration_of d) t)) [
            | inl past ↦ rw (some', past) refl
            | inr good ↦ elim (Bool-cases (returns_zero c.scopes_check d url)) [
              | inl yes' ↦ rw (some', good, scope_fails_lem c.scopes_check d url, yes') refl
              | inr no' ↦ rw (some', good, scope_fails_lem c.scopes_check d url, no') refl
            ]
          ]
        ])
]

insert-IsKnown :
    (c : TokenCallbacks) (p : Bytes) (e : ℕ) (h : History Bytes)
    → Tells c (c.decodes p) e
    → IsKnown c h
    → IsKnown c (insert p e h)
insert-IsKnown c p e h k known q f g = elim (Bool-cases (equiv q p)) [
  | inl same ↦
      let is_e : e ≡ f = eq_of_some (rw (lookup-insert p q e h, same) at g) in
      subst (λ x. Tells c (c.decodes x) f) (sym ((equiv_iff q p).0 same))
        (subst (Tells c (c.decodes p)) is_e k)
  | inr other ↦ known q f (rw (lookup-insert p q e h, other) at g)
]

erase-IsKnown :
    (c : TokenCallbacks) (p : Bytes) (h : History Bytes) → IsKnown c h → IsKnown c (erase p h)
erase-IsKnown c p h known q f g = elim (Bool-cases (equiv q p)) [
  | inl same ↦ let n = rw (lookup-erase p q h, same) at g in cc
  | inr other ↦ known q f (rw (lookup-erase p q h, other) at g)
]

abbrev Keeps : TokenCallbacks → Bool × History Bytes → Type 0
Keeps c r = IsKnown c r.1

check_token-IsKnown :
    (c : TokenCallbacks) (t : ℕ) (p url : Bytes) (h : History Bytes)
    → IsKnown c h
    → IsKnown c (check_token c t p url h).1
unfolding check_token
check_token-IsKnown c t p url h known = elim (Option-cases (c.decodes p)) [
  | inl none' ↦ rw (none', check_token) known
  | inr (d, e) ↦
      rw (e, check_token)
        (if_intro (Keeps c) (c.expiration_of d == 0) (λ _. known)
          (λ some'.
            if_intro (Keeps c) (ltb (c.expiration_of d) t) (λ _. known)
              (λ _.
                if_intro (Keeps c) (scope_fails c.scopes_check d url) (λ _. known)
                  (λ _.
                    insert-IsKnown c p (c.expiration_of d) h
                      (subst (λ o. Tells c o (c.expiration_of d)) (sym e) (refl, some')) known))))
]

-- With a history that tells what the tokens tell, a token is let in exactly if it decodes, has an
-- expiration that is not past, and either is in the history or the callback for scopes is not set or
-- returns 0 for it and the resource; and the history still tells what the tokens tell. In particular,
-- the scope of a token in the history is not looked at.
pub is_token_allowed-IsKnown :
    (c : TokenCallbacks) (t : ℕ) (p url : Bytes) (h : History Bytes)
    → IsKnown c h
    → ((is_token_allowed c t p url h).0
        ≡ is_in_time c t (c.decodes p)
          && (if is_cached (lookup p h) then true else is_in_scope c url (c.decodes p)))
      × IsKnown c (is_token_allowed c t p url h).1
unfolding is_token_allowed
is_token_allowed-IsKnown c t p url h known = elim (Option-cases (lookup p h)) [
  | inl none' ↦
      rw (none', is_token_allowed)
        (check_token-allowed c t p url h, check_token-IsKnown c t p url h known)
  | inr (e, f) ↦ elim (Bool-cases (ltb e t)) [
    | inl past ↦
        rw (f, past, is_token_allowed, in_time c t e (c.decodes p) (known p e f))
          (rw past refl, erase-IsKnown c p h known)
    | inr good ↦
        rw (f, good, is_token_allowed, in_time c t e (c.decodes p) (known p e f))
          (rw good refl, known)
  ]
]
