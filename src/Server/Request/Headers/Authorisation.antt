-- ===== src/Server/Request/Headers/Authorisation.antt =====
-- Who is let in by a header that is read from a socket (src/WebServer.cc).
use libnavajo.Base.{
  ℕ, zero, suc, ◌+◌, ◌-◌, ◌<◌, ◌≡◌, ◌≢◌, refl, sym, ap, ◌∙◌, subst, inl, inr, Bool, true, false,
  ◌||◌, List, [], ◌∷◌, Option, some, ◌==◌, leb, if◌then◌else◌, Bytes, length, drop, arith,
  Bool-cases, eq_of_some, false≢true,
}
use libnavajo.Auth.Users.{IsTrusted}
use libnavajo.Server.Stream.Pieces.{Flows}
use libnavajo.Server.Stream.Lines.{first_line}
use libnavajo.Server.Stream.Reads.{Connection, stream_of}
use libnavajo.Server.Request.Url.{buf_size}
use libnavajo.Server.Request.Line.{AuthSettings, Reading, LineEnd, reads, throws, read_line}
use libnavajo.Server.Request.Headers.{
  HeaderEnd, complete, closed, uncaught, Moment, RoundEnd, ends, goes_on, is_empty_line, line_ended,
  header_round, read_headers, parse_headers,
}
use libnavajo.Server.Request.Headers.Streams.{RoundEnd-cases, read_headers-parse_headers}
use libnavajo.Server.Request.Headers.Credentials.{
  any_good, Authorised, or_assoc, no_more, read_line-Authorised, brings_good,
}

-- The lines of the header at the beginning of a stream, up to the empty line.
unfoldable pub lines_of : ℕ → (ℕ → Moment) → ℕ → Bytes → List (ℕ × Bytes)
lines_of zero moments k s = []
lines_of (suc fuel) moments k s =
    let l = first_line (buf_size - 2) s in
    let later = lines_of fuel moments (k + 1) (drop (length l) s) in
    if length l == 0
    then []
    else (if leb (length l) 2
        then (if is_empty_line l then [] else later)
        else ((moments k).now, l) ∷ later)

-- What a round has seen where it completes the header, and where it goes on.
record Completed (l : Bytes) (r r' : Reading) : Type 0 where
  some_line : (length l == 0) ≡ false
  short : leb (length l) 2 ≡ true
  empty : is_empty_line l ≡ true
  same : r ≡ r'

is_complete : RoundEnd → Bool
is_complete (ends (complete r)) = true
is_complete (ends closed) = false
is_complete (ends uncaught) = false
is_complete (goes_on r) = false

line_ended-complete : (e : LineEnd) (r : Reading) → line_ended e ≢ ends (complete r)
unfolding is_complete
line_ended-complete (reads r') r h = false≢true (ap is_complete h)
line_ended-complete throws r h = false≢true (ap is_complete h)

complete-Completed :
    (a : AuthSettings) (m : Moment) (l : Bytes) (r r' : Reading)
    → header_round a m l r ≡ ends (complete r')
    → Completed l r r'
unfolding header_round
complete-Completed a m l r r' h = ground (arith, line_ended-complete (read_line a m.now l r) r')

-- A round that goes on has read a line, or passed a short one.
record GoesOn (a : AuthSettings) (m : Moment) (l : Bytes) (r r' : Reading) : Type 0 where
  some_line : (length l == 0) ≡ false
  not_empty : leb (length l) 2 ≡ true → (is_empty_line l ≡ false) × (r ≡ r')
  is_read : leb (length l) 2 ≡ false → read_line a m.now l r ≡ reads r'

line_ended-goes_on : (e : LineEnd) (r : Reading) → line_ended e ≡ goes_on r → e ≡ reads r
line_ended-goes_on (reads r') r h = cc
line_ended-goes_on throws r h = cc

goes_on-GoesOn :
    (a : AuthSettings) (m : Moment) (l : Bytes) (r r' : Reading)
    → header_round a m l r ≡ goes_on r'
    → GoesOn a m l r r'
unfolding header_round
goes_on-GoesOn a m l r r' h = record {
  some_line = ground arith;
  not_empty = λ e. ground arith;
  is_read = λ e. line_ended-goes_on (read_line a m.now l r) r' (ground arith);
}

first_of :
    (e : HeaderEnd) (r : Reading) (s t : Bytes)
    → ◌≡◌ {A = Option (HeaderEnd × Bytes)} (some (e, s)) (some (complete r, t))
    → e ≡ complete r
first_of e r s t h = ap (λ p. p.0) (eq_of_some h)

-- The lines behind one that is not empty.
lines_of-short :
    (fuel : ℕ) (moments : ℕ → Moment) (k : ℕ) (s : Bytes)
    → (length (first_line (buf_size - 2) s) == 0) ≡ false
    → leb (length (first_line (buf_size - 2) s)) 2 ≡ true
    → is_empty_line (first_line (buf_size - 2) s) ≡ false
    → lines_of (suc fuel) moments k s
      ≡ lines_of fuel moments (k + 1) (drop (length (first_line (buf_size - 2) s)) s)
unfolding lines_of
lines_of-short fuel moments k s p q e = rw (p, q, e) refl

lines_of-long :
    (fuel : ℕ) (moments : ℕ → Moment) (k : ℕ) (s : Bytes)
    → (length (first_line (buf_size - 2) s) == 0) ≡ false
    → leb (length (first_line (buf_size - 2) s)) 2 ≡ false
    → lines_of (suc fuel) moments k s
      ≡ ((moments k).now, first_line (buf_size - 2) s)
        ∷ lines_of fuel moments (k + 1) (drop (length (first_line (buf_size - 2) s)) s)
unfolding lines_of
lines_of-long fuel moments k s p q = rw (p, q) refl

lines_of-end :
    (fuel : ℕ) (moments : ℕ → Moment) (k : ℕ) (s : Bytes)
    → (length (first_line (buf_size - 2) s) == 0) ≡ false
    → leb (length (first_line (buf_size - 2) s)) 2 ≡ true
    → is_empty_line (first_line (buf_size - 2) s) ≡ true
    → lines_of (suc fuel) moments k s ≡ []
unfolding lines_of
lines_of-end fuel moments k s p q e = rw (p, q, e) refl

parse_headers-Authorised :
    (fuel : ℕ) (a : AuthSettings) (moments : ℕ → Moment) (k : ℕ) (r : Reading) (s : Bytes)
    (r' : Reading) (t : Bytes)
    → a.auth_bearer_enabled ≡ false
    → IsTrusted a.auth_login_pwd_list r.users_auth_history
    → parse_headers fuel a moments k r s ≡ some (complete r', t)
    → Authorised a.auth_login_pwd_list
        (r.auth_ok || any_good a.auth_login_pwd_list (lines_of fuel moments k s))
        (reads r')
unfolding parse_headers
parse_headers-Authorised zero a moments k r s r' t off trust h = cc
parse_headers-Authorised (suc fuel) a moments k r s r' t off trust h =
    let logins = a.auth_login_pwd_list in
    let l = first_line (buf_size - 2) s in
    let rest = drop (length l) s in
    let later = any_good logins (lines_of fuel moments (k + 1) rest) in
    elim (RoundEnd-cases (header_round a (moments k) l r)) [
      | inl (e, ended) ↦
          let now = first_of e r' rest t (rw (ended, parse_headers) at h) in
          let got = complete-Completed a (moments k) l r r' (ended ∙ ap ends now) in
          let none_left : lines_of (suc fuel) moments k s ≡ [] =
            lines_of-end fuel moments k s got.some_line got.short got.empty in
          subst
            (λ x.
              Authorised logins (r.auth_ok || any_good logins (lines_of (suc fuel) moments k s))
                (reads x))
            got.same
            (no_more r.auth_ok ∙ ap (λ x. r.auth_ok || any_good logins x) (sym none_left), trust)
      | inr (r1, more) ↦
          let got = goes_on-GoesOn a (moments k) l r r1 more in
          let behind = rw (more, parse_headers) at h in
          elim (Bool-cases (leb (length l) 2)) [
            | inl short ↦
                let (open', same) = got.not_empty short in
                let skips = lines_of-short fuel moments k s got.some_line short open' in
                subst (λ x. Authorised logins (r.auth_ok || any_good logins x) (reads r'))
                  (sym skips)
                  (parse_headers-Authorised fuel a moments (k + 1) r rest r' t off trust
                    (ap (λ x. parse_headers fuel a moments (k + 1) x rest) same ∙ behind))
            | inr long ↦
                let step : Authorised logins (r.auth_ok || brings_good logins l) (reads r1) =
                  subst (λ x. Authorised logins (r.auth_ok || brings_good logins l) x)
                    (got.is_read long) (read_line-Authorised a (moments k).now l r off trust) in
                let adds = lines_of-long fuel moments k s got.some_line long in
                let ih =
                  parse_headers-Authorised fuel a moments (k + 1) r1 rest r' t off step.1 behind in
                let ok : r1.auth_ok || later
                    ≡ r.auth_ok || any_good logins (lines_of (suc fuel) moments k s) =
                  ap (λ b. b || later) step.0
                  ∙ or_assoc r.auth_ok (brings_good logins l) later
                  ∙ ap (λ x. r.auth_ok || any_good logins x) (sym adds) in
                subst (λ b. Authorised logins b (reads r')) ok ih
          ]
    ]

-- A header that is read to its empty line from a socket, whatever pieces it comes in and with no call
-- of recv that fails before the end of the stream: with logins and passwords and no tokens, and a
-- history that knows good credentials only, the connection is authorised behind it exactly if it was
-- before, or one of the header's lines in the stream is Authorization: Basic with credentials that
-- are in the list; and the history still knows good credentials only.
pub read_headers-Authorised :
    (fuel client : ℕ) (a : AuthSettings) (moments : ℕ → Moment) (k : ℕ) (r : Reading)
    (c : Connection) (r' : Reading) (c' : Connection)
    → Flows c.coming
    → length (stream_of client c) < fuel
    → a.auth_bearer_enabled ≡ false
    → IsTrusted a.auth_login_pwd_list r.users_auth_history
    → read_headers fuel client a moments k r c ≡ some (complete r', c')
    → (r'.auth_ok
        ≡ r.auth_ok
          || any_good a.auth_login_pwd_list (lines_of fuel moments k (stream_of client c)))
      × IsTrusted a.auth_login_pwd_list r'.users_auth_history
read_headers-Authorised fuel client a moments k r c r' c' flows enough off trust h =
    let both = read_headers-parse_headers fuel client a moments k r c flows enough in
    let same : both.end ≡ complete r' = ap (λ p. p.0) (eq_of_some (sym both.runs ∙ h)) in
    parse_headers-Authorised fuel a moments k r (stream_of client c) r'
      (stream_of client both.after) off trust
      (both.parses ∙ ap (λ e. some (e, stream_of client both.after)) same)
