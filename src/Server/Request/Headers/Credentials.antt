-- ===== src/Server/Request/Headers/Credentials.antt =====
-- The credentials in the lines of a header (src/WebServer.cc).
use libnavajo.Base.{
  ℕ, ◌≡◌, refl, sym, ap, ◌∙◌, subst, inl, inr, Bool, true, false, ◌&&◌, ◌||◌, List, [], ◌∷◌,
  if◌then◌else◌, Bytes, codes, drop, arith, Bool-cases, starts_with,
}
use libnavajo.Auth.{is_user_allowed}
use libnavajo.Auth.Users.{are_good, IsTrusted, is_user_allowed-are_good}
use libnavajo.Server.Text.{ltrim, c_str, add_extra_header}
use libnavajo.Server.Request.Url.{is_unknown, method_of, read_request_line}
use libnavajo.Server.Request.Line.{
  AuthSettings, Reading, LineEnd, reads, throws, until_eol, or_kept, read_basic, read_bearer,
  read_connection, read_content_type, then_bearer, bearer_str, put_request_line, read_other,
  read_header, cut_line, read_line,
}

-- What a line that is no credentials leaves alone.
record KeepsAuth (r r' : Reading) : Type 0 where
  same_ok : r'.auth_ok ≡ r.auth_ok
  same_users : r'.users_auth_history ≡ r.users_auth_history

abbrev EndKeeps : Reading → LineEnd → Type 0
EndKeeps r (reads r') = KeepsAuth r r'
EndKeeps r throws = Unit

EndKeeps-if :
    (r : Reading) (b : Bool) (x y : LineEnd)
    → EndKeeps r x
    → EndKeeps r y
    → EndKeeps r (if b then x else y)
EndKeeps-if r true x y h k = h
EndKeeps-if r false x y h k = k

KeepsAuth-if :
    (r : Reading) (b : Bool) (x y : Reading)
    → KeepsAuth r x
    → KeepsAuth r y
    → KeepsAuth r (if b then x else y)
KeepsAuth-if r true x y h k = h
KeepsAuth-if r false x y h k = k

kept : (r : Reading) → KeepsAuth r r
kept r = record { same_ok = refl; same_users = refl }

read_connection-KeepsAuth : (l : Bytes) (r : Reading) → KeepsAuth r (read_connection l r)
unfolding read_connection
read_connection-KeepsAuth l r = ground arith

read_content_type-KeepsAuth : (l : Bytes) (r : Reading) → KeepsAuth r (read_content_type l r)
unfolding read_content_type
read_content_type-KeepsAuth l r = ground arith

then_bearer-EndKeeps :
    (a : AuthSettings) (t : ℕ) (l : Bytes) (r r' : Reading)
    → a.auth_bearer_enabled ≡ false
    → KeepsAuth r r'
    → EndKeeps r (then_bearer a t l r')
unfolding read_bearer
then_bearer-EndKeeps a t l r r' h k =
    let off : EndKeeps r (read_bearer a t (drop 22 l) r') = rw (read_bearer, h) k in
    EndKeeps-if r (starts_with bearer_str l) (read_bearer a t (drop 22 l) r') (reads r') off k

read_other-EndKeeps :
    (a : AuthSettings) (t : ℕ) (l : Bytes) (r : Reading)
    → a.auth_bearer_enabled ≡ false
    → EndKeeps r (read_other a t l r)
unfolding read_other
read_other-EndKeeps a t l r h =
    let (method, passed) = method_of l in
    let line = read_request_line r.urlencoded_form (drop passed l) in
    let r' = record r {
      request_extra_headers = add_extra_header (c_str l) r.request_extra_headers;
    } in
    EndKeeps-if r (is_unknown method) (then_bearer a t l r')
      (then_bearer a t line.rest (put_request_line method line r'))
      (then_bearer-EndKeeps a t l r r' h (record { same_ok = refl; same_users = refl }))
      (then_bearer-EndKeeps a t line.rest r (put_request_line method line r') h
        (record { same_ok = refl; same_users = refl }))

-- Every header but the credentials.
abbrev basic_str : Bytes
basic_str = codes "Authorization: Basic "

read_header-EndKeeps :
    (a : AuthSettings) (t : ℕ) (l : Bytes) (r : Reading)
    → a.auth_bearer_enabled ≡ false
    → starts_with basic_str l ≡ false
    → EndKeeps r (read_header a t l r)
unfolding read_header
read_header-EndKeeps a t l r h other = ground (
  arith,
  read_connection-KeepsAuth (c_str (drop 12 l)) r,
  read_content_type-KeepsAuth (c_str (drop 14 l)) r,
  read_other-EndKeeps a t l r h,
)

-- The line brings credentials that are in the list.
abbrev pub brings_good : List Bytes → Bytes → Bool
brings_good logins line =
    let l = ltrim (cut_line line) in
    starts_with basic_str l && are_good logins (until_eol (drop 21 l))

abbrev pub any_good : List Bytes → List (ℕ × Bytes) → Bool
any_good logins [] = false
any_good logins ((t, line) ∷ lines) = brings_good logins line || any_good logins lines

-- The lines of a header one after another, each with the time at which it is read.
abbrev pub then_lines : LineEnd → (Reading → LineEnd) → LineEnd
then_lines (reads r) f = f r
then_lines throws f = throws

unfoldable pub read_lines : AuthSettings → List (ℕ × Bytes) → Reading → LineEnd
read_lines a [] r = reads r
read_lines a ((t, line) ∷ lines) r = then_lines (read_line a t line r) (read_lines a lines)

-- How the authorisation stands after lines.
abbrev pub Authorised : List Bytes → Bool → LineEnd → Type 0
Authorised logins ok (reads r) = (r.auth_ok ≡ ok) × IsTrusted logins r.users_auth_history
Authorised logins ok throws = Unit

Authorised-kept :
    (logins : List Bytes) (r : Reading) (e : LineEnd)
    → IsTrusted logins r.users_auth_history
    → EndKeeps r e
    → Authorised logins r.auth_ok e
Authorised-kept logins r (reads r') trust k =
    (k.same_ok, subst (IsTrusted logins) (sym k.same_users) trust)
Authorised-kept logins r throws trust k = tt

pub no_more : (b : Bool) → b ≡ b || false
no_more true = refl
no_more false = refl

pub or_assoc : (b c d : Bool) → (b || c) || d ≡ b || (c || d)
or_assoc true c d = refl
or_assoc false c d = refl

-- The rule for one line before others.
then_lines-Authorised :
    (logins : List Bytes) (lines : List (ℕ × Bytes)) (before good : Bool) (e : LineEnd)
    (rest : Reading → LineEnd)
    → Authorised logins (before || good) e
    → ((r : Reading)
        → IsTrusted logins r.users_auth_history
        → Authorised logins (r.auth_ok || any_good logins lines) (rest r))
    → Authorised logins (before || (good || any_good logins lines)) (then_lines e rest)
then_lines-Authorised logins lines before good (reads r) rest h k =
    let e : r.auth_ok || any_good logins lines ≡ before || (good || any_good logins lines) =
      ap (λ b. b || any_good logins lines) h.0 ∙ or_assoc before good (any_good logins lines) in
    subst (λ b. Authorised logins b (rest r)) e (k r h.1)
then_lines-Authorised logins lines before good throws rest h k = tt

-- The credentials are looked at only where nobody is let in yet.
choose-Authorised :
    (logins : List Bytes) (r r' : Reading) (good b : Bool)
    → r.auth_ok ≡ b
    → IsTrusted logins r.users_auth_history
    → r'.auth_ok ≡ good
    → IsTrusted logins r'.users_auth_history
    → Authorised logins (b || good) (reads (if b then r else r'))
choose-Authorised logins r r' good true e trust e' trust' = (e, trust)
choose-Authorised logins r r' good false e trust e' trust' = (e', trust')

read_basic-Authorised :
    (a : AuthSettings) (t : ℕ) (l : Bytes) (r : Reading)
    → IsTrusted a.auth_login_pwd_list r.users_auth_history
    → Authorised a.auth_login_pwd_list
        (r.auth_ok || are_good a.auth_login_pwd_list (until_eol l))
        (reads (read_basic a t l r))
unfolding read_basic
read_basic-Authorised a t l r trust =
    let p = until_eol l in
    let answer = is_user_allowed a.auth_login_pwd_list t p r.users_auth_history in
    let (ok, known) =
      is_user_allowed-are_good a.auth_login_pwd_list t p r.users_auth_history trust in
    choose-Authorised a.auth_login_pwd_list r
      (record r {
        auth_ok = answer.allowed;
        username = or_kept answer.login r.username;
        users_auth_history = answer.history;
      })
      (are_good a.auth_login_pwd_list p) r.auth_ok refl trust ok known

pub read_line-Authorised :
    (a : AuthSettings) (t : ℕ) (line : Bytes) (r : Reading)
    → a.auth_bearer_enabled ≡ false
    → IsTrusted a.auth_login_pwd_list r.users_auth_history
    → Authorised a.auth_login_pwd_list
        (r.auth_ok || brings_good a.auth_login_pwd_list line)
        (read_line a t line r)
unfolding read_line read_header
read_line-Authorised a t line r h trust =
    let logins = a.auth_login_pwd_list in
    let l = ltrim (cut_line line) in
    elim (Bool-cases (starts_with basic_str l)) [
      | inl basic ↦ rw (basic, read_header) (read_basic-Authorised a t (drop 21 l) r trust)
      | inr other ↦
          (subst (λ ok. Authorised logins ok (read_header a t l r))
            (no_more r.auth_ok
              ∙ ap (λ b. r.auth_ok || (b && are_good logins (until_eol (drop 21 l)))) (sym other))
            (Authorised-kept logins r (read_header a t l r) trust
              (read_header-EndKeeps a t l r h other)))
    ]

-- With logins and passwords and no tokens, and a history that knows good credentials only, the
-- connection is authorised after any lines of a header exactly if it was before or one of the lines
-- is Authorization: Basic with credentials that are in the list; and the history still knows good
-- credentials only.
pub read_lines-Authorised :
    (a : AuthSettings) (lines : List (ℕ × Bytes)) (r : Reading)
    → a.auth_bearer_enabled ≡ false
    → IsTrusted a.auth_login_pwd_list r.users_auth_history
    → Authorised a.auth_login_pwd_list
        (r.auth_ok || any_good a.auth_login_pwd_list lines)
        (read_lines a lines r)
unfolding read_lines
read_lines-Authorised a [] r h trust = (no_more r.auth_ok, trust)
read_lines-Authorised a ((t, line) ∷ lines) r h trust =
    let logins = a.auth_login_pwd_list in
    then_lines-Authorised logins lines r.auth_ok (brings_good logins line) (read_line a t line r)
      (read_lines a lines) (read_line-Authorised a t line r h trust)
      (λ r' trust'. read_lines-Authorised a lines r' h trust')
