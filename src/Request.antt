-- ===== src/Request.antt =====
-- The request object `HttpRequest` (include/libnavajo/HttpRequest.hh): parameters, cookies and the
-- session of a request.
pub mod Client
pub mod Fields
pub mod Percent
pub mod Parameters
pub mod Cookies
pub mod Sid
pub mod Pairs
mod Tests
use libnavajo.Base.{
  ℕ, Bool, true, false, not, ◌&&◌, List, [], Option, none, some, ◌==◌, if◌then◌else◌, Bytes, codes,
  lookup, bytes_order, keys, length,
}
use libnavajo.Session.{
  Sessions, create, find, remove, set_attribute, set_object_attribute, get_attribute,
  get_object_attribute, get_attribute_names, remove_attribute,
}
use libnavajo.Mpfd.Headers.{Parser}
use Client.{HttpRequestMethod, ClientSockData}
use Parameters.{ParametersMap, decod_params}
use Cookies.{CookiesMap, decod_cookies}

-- A request; `none` stands for a null pointer.
pub record HttpRequest : Type 0 where
  pub url : Option Bytes
  pub origin : Option Bytes
  pub client_sock_data : Option ClientSockData
  pub http_auth_username : Bytes
  pub http_method : HttpRequestMethod
  pub cookies : CookiesMap
  pub parameters : ParametersMap
  pub extra_headers : ParametersMap
  pub session_id : Bytes
  pub mutipart_content_parser : Option Parser
  pub mime_type : Option Bytes
  pub payload : Option Bytes

-- `getCookie`, `getExtraHeader` and `getParameter`: the value, if it is there.
abbrev pub get_cookie : Bytes → HttpRequest → Option Bytes
get_cookie name r = lookup name r.cookies

abbrev pub get_extra_header : Bytes → HttpRequest → Option Bytes
get_extra_header name r = lookup name r.extra_headers

abbrev pub get_parameter : Bytes → HttpRequest → Option Bytes
get_parameter name r = lookup name r.parameters

-- The same with an empty text for a value that is missing.
abbrev pub or_empty : Option Bytes → Bytes
or_empty none = []
or_empty (some v) = v

abbrev pub has_parameter : Bytes → HttpRequest → Bool
has_parameter name r = elim (get_parameter name r) [ none ↦ false | some v ↦ true ]

abbrev pub get_cookies_names : HttpRequest → List Bytes
get_cookies_names r = keys r.cookies

abbrev pub get_parameter_names : HttpRequest → List Bytes
get_parameter_names r = keys r.parameters

-- `setParams`: the parameters that are decoded come to those that are there.
unfoldable pub set_params : Option Bytes → HttpRequest → HttpRequest
unfolding decod_params
set_params none r = r
set_params (some params) r =
    if length params == 0 then r else record r { parameters = decod_params params r.parameters }

-- `initSessionId`
abbrev pub init_session_id : HttpRequest → HttpRequest
init_session_id r = record r { session_id = [] }

-- The session of the SID cookie, where there is one; it lives on.
unfoldable pub get_session : ℕ → Sessions → HttpRequest → Sessions × HttpRequest
get_session now s r =
    let sid = or_empty (get_cookie (codes "SID") r) in
    let (found, s') = find now sid s in
    if not (length sid == 0)
    then (if found then (s', record r { session_id = sid }) else (s', init_session_id r))
    else (s, init_session_id r)

abbrev pub is_session_valid : HttpRequest → Bool
is_session_valid r = not (length r.session_id == 0)

abbrev pub remove_session : Sessions → HttpRequest → Sessions
remove_session s r = if length r.session_id == 0 then s else remove r.session_id s

abbrev pub get_session_attribute : Bytes → Sessions → HttpRequest → ℕ
get_session_attribute name s r =
    if length r.session_id == 0 then 0 else get_attribute r.session_id name s

abbrev pub get_session_object_attribute : Bytes → Sessions → HttpRequest → ℕ
get_session_object_attribute name s r =
    if length r.session_id == 0 then 0 else get_object_attribute r.session_id name s

abbrev pub get_session_attribute_names : Sessions → HttpRequest → List Bytes
get_session_attribute_names s r =
    if length r.session_id == 0 then [] else get_attribute_names r.session_id s

abbrev pub get_session_remove_attribute : Bytes → Sessions → HttpRequest → Sessions
get_session_remove_attribute name s r =
    if length r.session_id == 0 then s else remove_attribute r.session_id name s

-- What the constructor is given, with the raw texts of the parameters and the cookies.
pub record RequestSource : Type 0 where
  pub type : HttpRequestMethod
  pub url : Option Bytes
  pub params : Option Bytes
  pub raw_cookies : Option Bytes
  pub headers : ParametersMap
  pub origin : Option Bytes
  pub username : Bytes
  pub client : Option ClientSockData
  pub mime_type : Option Bytes
  pub payload : Option Bytes
  pub parser : Option Parser

abbrev pub start_cookies : Option Bytes → CookiesMap
start_cookies none = []
start_cookies (some c) = if length c == 0 then [] else decod_cookies c []

-- The constructor.
unfoldable pub new_request : ℕ → RequestSource → Sessions → Sessions × HttpRequest
unfolding get_session set_params
new_request now f s =
    let r = set_params f.params (record {
      url = f.url;
      origin = f.origin;
      client_sock_data = f.client;
      http_auth_username = f.username;
      http_method = f.type;
      cookies = [];
      parameters = [];
      extra_headers = f.headers;
      session_id = [];
      mutipart_content_parser = f.parser;
      mime_type = f.mime_type;
      payload = f.payload;
    }) in
    get_session now s (record r { cookies = start_cookies f.raw_cookies })

-- `createSession`, with the values of `rand`; `none` where they end.
unfoldable pub create_session :
    ℕ → List (List ℕ) → Sessions → HttpRequest → Option (Sessions × HttpRequest)
create_session now draws s r = elim (create now draws s) [
  | none ↦ none
  | some (sid, s') ↦ some (s', record r { session_id = sid })
]

unfoldable pub with_session :
    ℕ → List (List ℕ) → Sessions → HttpRequest → Option (Sessions × HttpRequest)
unfolding create_session
with_session now draws s r =
    if length r.session_id == 0 then create_session now draws s r else some (s, r)

unfoldable pub set_session_attribute :
    ℕ → List (List ℕ) → Bytes → ℕ → Sessions → HttpRequest → Option (Sessions × HttpRequest)
unfolding with_session
set_session_attribute now draws name value s r = elim (with_session now draws s r) [
  | none ↦ none
  | some (s', r') ↦ some (set_attribute r'.session_id name value s', r')
]

unfoldable pub set_session_object_attribute :
    ℕ → List (List ℕ) → Bytes → ℕ → Sessions → HttpRequest → Option (Sessions × HttpRequest)
unfolding with_session
set_session_object_attribute now draws name value s r = elim (with_session now draws s r) [
  | none ↦ none
  | some (s', r') ↦ some (set_object_attribute r'.session_id name value s', r')
]
