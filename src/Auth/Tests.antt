-- ===== src/Auth/Tests.antt =====
-- Runs of the authentication code, and the theorems at inputs.
use libnavajo.Base.{
  ℕ, ◌+◌, ◌≡◌, refl, Bool, true, false, not, ◌&&◌, List, [], ◌∷◌, ◌++◌, Option, none, some, Bytes,
  codes, bytes_order, lookup, insert, erase, ltb, ◌==◌, false≢true, if◌then◌else◌,
}
use libnavajo.Auth.{TokenCallbacks, is_user_allowed, is_token_allowed, update_peer_history}
use libnavajo.Auth.Users.{IsTrusted, are_good, is_user_allowed-are_good}
use libnavajo.Auth.Tokens.{IsKnown, is_in_time, is_in_scope, is_cached, is_token_allowed-IsKnown}

-- "admin:pw"
abbrev admin : Bytes
admin = codes "YWRtaW46cHc="

abbrev logins : List Bytes
logins = codes "admin:pw" ∷ []

let_in : (is_user_allowed logins 7 admin []).login ≡ some (codes "admin")
unfolding is_user_allowed lookup libnavajo.Base.find_byte libnavajo.Base64.base64_decode
let_in = refl

-- The second time the history vouches for the user, and no login is written.
again : (is_user_allowed logins 8 admin (is_user_allowed logins 7 admin []).history).login ≡ none
unfolding is_user_allowed lookup libnavajo.Base.find_byte libnavajo.Base64.base64_decode
    libnavajo.Base.bytes_eq insert libnavajo.Base.equiv libnavajo.Base.bytes_lt
again = refl

abbrev tokens : TokenCallbacks
tokens = record {
  decodes = λ p. some p;
  expiration_of = λ d. 100;
  scopes_check = some (λ d url. lookup_fails url);
}
  where
    lookup_fails : Bytes → ℕ
    lookup_fails [] = 0
    lookup_fails (x ∷ xs) = 1

-- A token that is good for one resource is then taken for any.
other_scope :
    (is_token_allowed tokens 7
      (codes "t")
      (codes "/x")
      (is_token_allowed tokens 7 (codes "t") [] []).1).0
    ≡ true
unfolding is_token_allowed lookup insert libnavajo.Base.equiv libnavajo.Base.bytes_lt
other_scope = refl

refused : (is_token_allowed tokens 7 (codes "t") (codes "/x") []).0 ≡ false
unfolding is_token_allowed lookup
refused = refl

new_peer :
    update_peer_history 700 (codes "peer") ((codes "peer", 99) ∷ [])
    ≡ (true, (codes "peer", 700) ∷ [])
unfolding lookup insert libnavajo.Base.equiv libnavajo.Base.bytes_lt
new_peer = refl

empty-IsTrusted : IsTrusted logins []
unfolding lookup
empty-IsTrusted p t e = cc

is_user_allowed-are_good_example :
    ((is_user_allowed logins 7 admin []).allowed ≡ are_good logins admin)
    × IsTrusted logins (is_user_allowed logins 7 admin []).history
is_user_allowed-are_good_example = is_user_allowed-are_good logins 7 admin [] empty-IsTrusted

empty-IsKnown : IsKnown tokens []
unfolding lookup
empty-IsKnown p e f = let g : false ≡ true = cc in absurd (false≢true g)

is_token_allowed-IsKnown_example :
    ((is_token_allowed tokens 7 (codes "t") [] []).0
      ≡ is_in_time tokens 7 (some (codes "t"))
        && (if is_cached none then true else is_in_scope tokens [] (some (codes "t"))))
    × IsKnown tokens (is_token_allowed tokens 7 (codes "t") [] []).1
unfolding lookup
is_token_allowed-IsKnown_example = is_token_allowed-IsKnown tokens 7 (codes "t") [] [] empty-IsKnown
