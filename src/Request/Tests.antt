-- ===== src/Request/Tests.antt =====
-- Runs of the request code, and the theorems at inputs.
use libnavajo.Base.{
  bytes_eq, bytes_eq_iff, ◌≢◌, false≢true, sym, ◌∙◌, ℕ, ◌≡◌, refl, Bool, true, false, not, ◌&&◌,
  List, [], ◌∷◌, ◌++◌, some, none, Bytes, codes, arith, lookup, insert, length, ◌==◌, if◌then◌else◌,
  bytes_order,
}
use libnavajo.Session.{Sessions, initial, has_session}
use libnavajo.Request.Client.{get_method}
use libnavajo.Request.{HttpRequest, get_session}
use libnavajo.Request.Percent.{percent_decode}
use libnavajo.Request.Percent.Encoding.{form_encode, percent_decode-form_encode}
use libnavajo.Request.Parameters.{decod_params, add_params, array_key}
use libnavajo.Request.Parameters.Values.{texts_of, AreApart, add_params-values}
use libnavajo.Request.Parameters.Adding.{last_of, with_bars}
use libnavajo.Request.Cookies.{decod_cookies}

two_params :
    decod_params (codes "b=1+2&a=%41") [] ≡ (codes "a", codes "A") ∷ (codes "b", codes "1 2") ∷ []
unfolding decod_params libnavajo.Base.find_byte lookup insert libnavajo.Base.equiv
    libnavajo.Base.bytes_lt
two_params = refl

-- The encoding is taken off before the parameters are parted: a `&` in a value parts it.
coded_ampersand : decod_params (codes "a=1%262") [] ≡ (codes "2", []) ∷ (codes "a", codes "1") ∷ []
unfolding decod_params libnavajo.Base.find_byte insert lookup libnavajo.Base.bytes_lt
coded_ampersand = refl

-- What `std::hex` takes for a number is more than two digits.
loose_hex : percent_decode (codes "%4g%-1") ≡ 4 ∷ 255 ∷ []
unfolding percent_decode
loose_hex = refl

two_cookies :
    decod_cookies (codes "SID=x; b=2;") [] ≡ (codes "SID", codes "x") ∷ (codes "b", codes "2") ∷ []
unfolding decod_cookies libnavajo.Base.find_byte insert libnavajo.Base.bytes_lt
two_cookies = refl

percent_decode-form_encode_example : percent_decode (form_encode (codes "a &b")) ≡ codes "a &b"
percent_decode-form_encode_example =
    percent_decode-form_encode (codes "a &b")
      (omega arith, (omega arith, (omega arith, (omega arith, tt))))

-- k=1&a=x&k=2
abbrev three_params : List (Bytes × Bytes)
three_params = (codes "k", codes "1") ∷ (codes "a", codes "x") ∷ (codes "k", codes "2") ∷ []

unlike : (a b : Bytes) → (bytes_eq a b) ≡ false → a ≢ b
unlike a b h e = false≢true (sym h ∙ (bytes_eq_iff a b).1 e)

are_apart : AreApart (codes "k") three_params
unfolding libnavajo.Base.find_byte bytes_eq
are_apart = (
  refl,
  unlike (codes "k") (codes "k[]") refl,
  unlike (codes "k[]") (codes "k") refl,
  (
    refl,
    unlike (codes "a") (codes "k[]") refl,
    unlike (codes "a[]") (codes "k") refl,
    (refl, unlike (codes "k") (codes "k[]") refl, unlike (codes "k[]") (codes "k") refl, tt),
  ),
)

add_params-values_example :
    (lookup (codes "k") (add_params (texts_of three_params) []) ≡ some (last_of (codes "2") []))
    × (lookup (array_key (codes "k")) (add_params (texts_of three_params) [])
        ≡ some (with_bars (codes "1") (codes "2" ∷ [])))
unfolding lookup libnavajo.Base.equiv libnavajo.Base.bytes_lt
add_params-values_example =
    add_params-values (codes "k") (codes "1") (codes "2") [] three_params [] are_apart refl refl
      refl

abbrev request : HttpRequest
request = record {
  url = some (codes "a");
  origin = none;
  client_sock_data = none;
  http_auth_username = [];
  http_method = get_method;
  mutipart_content_parser = none;
  mime_type = none;
  payload = none;
  cookies = (codes "SID", codes "s") ∷ [];
  parameters = [];
  extra_headers = [];
  session_id = [];
}

abbrev store : Sessions
store = record initial { sessions = (codes "s", []) ∷ [] }

session_found : (get_session 5 store request).1.session_id ≡ codes "s"
unfolding get_session lookup libnavajo.Base.equiv libnavajo.Base.bytes_lt libnavajo.Session.find
    has_session
session_found = refl
