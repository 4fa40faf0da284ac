-- ===== src/Auth.antt =====
-- Who is let in (src/WebServer.cc): `isUserAllowed`, `isTokenAllowed`, `isAuthorizedDN` and the
-- histories that they and the log keep. `t` is what `time` gives. Log lines are left out.
pub mod Users
pub mod Tokens
mod Tests
use libnavajo.Base.{
  ℕ, ◌+◌, ◌-◌, Bool, true, false, not, ◌&&◌, ◌||◌, List, [], ◌∷◌, ◌++◌, Option, none, some, ltb,
  ◌==◌, if◌then◌else◌, Bytes, codes, bytes_eq, lookup, insert, erase, bytes_order, KeyOrder,
  find_byte, take, drop,
}
use libnavajo.Base64.{base64_decode}

-- A history tells when a key was last seen, or until when it is good.
abbrev pub History : Type 0 → Type 0
History K = List (K × ℕ)

-- `LOGHIST_EXPIRATION_DELAY`.
abbrev pub loghist_expiration_delay : ℕ
loghist_expiration_delay = 600

-- Was the key not seen for so long that it counts as new?
abbrev pub is_new : ℕ → Option ℕ → Bool
is_new t none = true
is_new t (some last) = ltb loghist_expiration_delay (t - last)

-- `updatePeerIpHistory` and `updatePeerDnHistory`: the peer is logged (`true`) if it is new.
abbrev pub update_peer_history :
    {K : Type 0} ⦃o : KeyOrder K⦄ → ℕ → K → History K → Bool × History K
update_peer_history t peer h = (is_new t (lookup peer h), insert peer t h)

-- `isAuthorizedDN`
pub is_authorized_dn : List Bytes → Bytes → Bool
is_authorized_dn [] str = false
is_authorized_dn (dn ∷ dns) str =
    let later = is_authorized_dn dns str in if bytes_eq dn str then true else later

-- The loop over the list of logins and passwords.
pub is_listed : List Bytes → Bytes → Bool → Bool
is_listed [] log_pass auth_ok = auth_ok
is_listed (x ∷ xs) log_pass auth_ok = is_listed xs log_pass (auth_ok || bytes_eq log_pass x)

-- `usersAuthHistory[pwdb64] = t` where the entry was missing.
abbrev pub remember : Option ℕ → ℕ → Bytes → History Bytes → History Bytes
remember none t pwdb64 h = insert pwdb64 t h
remember (some last) t pwdb64 h = h

abbrev pub touch : Option ℕ → ℕ → Bytes → History Bytes → History Bytes
touch none t pwdb64 h = h
touch (some last) t pwdb64 h = insert pwdb64 t h

-- What the call comes to: the answer, the login that is written (`none` where it is left as it was),
-- and the history.
pub record Allowed : Type 0 where
  pub allowed : Bool
  pub login : Option Bytes
  pub history : History Bytes

-- A user that the history does not vouch for: `seen` is the entry, if there was one.
unfoldable pub check_user : List Bytes → ℕ → Bytes → Option ℕ → History Bytes → Allowed
unfolding is_listed
check_user auth_login_pwd_list t pwdb64 seen h =
    let login_pwd = base64_decode pwdb64 in
    elim (find_byte 58 login_pwd) [
      | none ↦ record { allowed = false; login = none; history = h }
      | some sep ↦
          let login = take sep login_pwd in
          let pwd = drop (sep + 1) login_pwd in
          let auth_ok = is_listed auth_login_pwd_list (login ++ (58 ∷ pwd)) false in
          record {
            allowed = auth_ok;
            login = some login;
            history = if auth_ok then remember seen t pwdb64 h else h;
          }
    ]

unfoldable pub is_user_allowed : List Bytes → ℕ → Bytes → History Bytes → Allowed
unfolding check_user
is_user_allowed auth_login_pwd_list t pwdb64 h =
    let seen = lookup pwdb64 h in
    let h' = touch seen t pwdb64 h in
    if not (is_new t seen)
    then record { allowed = true; login = none; history = h' }
    else check_user auth_login_pwd_list t pwdb64 seen h'

-- The callbacks of the application: `decodes` is `tokDecodeCallback` with the secret (`none` where it
-- reports a failure), `expiration_of` tells until when a token is good (0 for never), and
-- `scopes_check` is the callback for a token and a resource, if one is set, with the number it returns.
pub record TokenCallbacks : Type 0 where
  pub decodes : Bytes → Option Bytes
  pub expiration_of : Bytes → ℕ
  pub scopes_check : Option (Bytes → Bytes → ℕ)

-- `if (authBearTokDecScopesCb(tokDecoded, resourceUrl, errDescr))`: any number but 0 refuses the token.
abbrev pub scope_fails : Option (Bytes → Bytes → ℕ) → Bytes → Bytes → Bool
scope_fails none tok_decoded resource_url = false
scope_fails (some callback) tok_decoded resource_url = not (callback tok_decoded resource_url == 0)

-- A token that is not in the history.
unfoldable pub check_token :
    TokenCallbacks → ℕ → Bytes → Bytes → History Bytes → Bool × History Bytes
check_token c t tokb64 resource_url h = elim (c.decodes tokb64) [
  | none ↦ (false, h)
  | some tok_decoded ↦
      let expiration = c.expiration_of tok_decoded in
      if expiration == 0
      then (false, h)
      else (if ltb expiration t
          then (false, h)
          else (if scope_fails c.scopes_check tok_decoded resource_url
              then (false, h)
              else (true, insert tokb64 expiration h)))
]

unfoldable pub is_token_allowed :
    TokenCallbacks → ℕ → Bytes → Bytes → History Bytes → Bool × History Bytes
unfolding check_token
is_token_allowed c t tokb64 resource_url h = elim (lookup tokb64 h) [
  | none ↦ check_token c t tokb64 resource_url h
  | some expiration ↦ if ltb expiration t then (false, erase tokb64 h) else (true, h)
]
