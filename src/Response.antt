-- ===== src/Response.antt =====
-- The response object `HttpResponse` (include/libnavajo/HttpResponse.hh).
pub mod Status
pub mod ReturnCodes
pub mod Headers
pub mod MimeTypes
pub mod Pages
mod Tests
use libnavajo.Base.{
  ℕ, Bool, true, false, not, ◌&&◌, List, [], ◌∷◌, ◌++◌, Option, none, some, ◌==◌, if◌then◌else◌,
  Bytes, codes, bytes_eq, length,
}
use libnavajo.Server.Text.Numbers.{size_text}
use ReturnCodes.{message_of}

-- `content` is none for the null pointer.
pub record HttpResponse : Type 0 where
  pub response_content : Option Bytes
  pub response_content_length : ℕ
  pub response_cookies : List Bytes
  pub zipped_file : Bool
  pub mime_type : Bytes
  pub forward_to_url : Bytes
  pub cors : Bool
  pub cors_cred : Bool
  pub cors_domain : Bytes
  pub http_return_code : ℕ
  pub http_return_code_message : Bytes
  pub http_specific_headers : Bytes

-- `unsetHttpReturnCodeMessage`
abbrev pub unset_code : ℕ
unset_code = 0

-- The constructor.
unfoldable pub new_response : Bytes → HttpResponse
new_response mime = record {
  response_content = none;
  response_content_length = 0;
  response_cookies = [];
  zipped_file = false;
  mime_type = mime;
  forward_to_url = [];
  cors = false;
  cors_cred = false;
  cors_domain = [];
  http_return_code = unset_code;
  http_return_code_message = codes "Unspecified";
  http_specific_headers = [];
}

-- `setHttpReturnCode` with a message, and without one.
abbrev pub set_code_and_message : ℕ → Bytes → HttpResponse → HttpResponse
set_code_and_message value message r = record r {
  http_return_code = value;
  http_return_code_message = message;
}

unfoldable pub set_http_return_code : ℕ → HttpResponse → HttpResponse
unfolding message_of
set_http_return_code value r = record r {
  http_return_code = value;
  http_return_code_message = message_of value;
}

unfoldable pub set_content : Option Bytes → ℕ → HttpResponse → HttpResponse
unfolding set_http_return_code
set_content content length' r =
    let r' = record r { response_content = content; response_content_length = length' } in
    if r.http_return_code == unset_code
    then (if not (length' == 0) then set_http_return_code 200 r' else set_http_return_code 204 r')
    else r'

-- `getContent`
abbrev pub get_content : HttpResponse → Option Bytes × ℕ × Bool
get_content r = (r.response_content, r.response_content_length, r.zipped_file)

abbrev pub set_is_zipped : Bool → HttpResponse → HttpResponse
set_is_zipped b r = record r { zipped_file = b }

abbrev pub set_mime_type : Bytes → HttpResponse → HttpResponse
set_mime_type mime r = record r { mime_type = mime }

abbrev pub forward_to : Bytes → HttpResponse → HttpResponse
forward_to url r = record r { forward_to_url = url }

abbrev pub set_cors : Bool → Bool → Bytes → HttpResponse → HttpResponse
set_cors cors cred domain r = record r { cors = cors; cors_cred = cred; cors_domain = domain }

abbrev pub add_specific_header : Bytes → HttpResponse → HttpResponse
add_specific_header header r = record r {
  http_specific_headers = (r.http_specific_headers ++ header) ++ codes "\r\n";
}

-- What a cookie is given beside its name and value; `none` is 0 for a time.
pub record CookieSettings : Type 0 where
  pub max_age : ℕ
  pub expires_time : ℕ
  pub path : Bytes
  pub domain : Bytes
  pub secure : Bool
  pub http_only : Bool

abbrev pub optional : Bool → Bytes → Bytes
optional b s = if b then s else []

-- The entry of a cookie. `http_date` is the text that `strftime` gives for a time.
unfoldable pub cookie_entry : (ℕ → Bytes) → Bytes → Bytes → CookieSettings → Bytes
cookie_entry http_date name value k =
    (((((((name ++ codes "=") ++ value)
              ++ optional (not (k.max_age == 0)) (codes "; Max-Age=" ++ size_text k.max_age))
            ++ optional (not (k.expires_time == 0))
                (codes "; expires=" ++ http_date k.expires_time))
          ++ optional (not (length k.domain == 0)) (codes "; domain=" ++ k.domain))
        ++ optional (not (bytes_eq k.path (codes "/")) && not (length k.path == 0))
            (codes "; path=" ++ k.path))
      ++ optional k.secure (codes "; secure"))
    ++ optional k.http_only (codes "; HttpOnly")

abbrev pub add_cookie : (ℕ → Bytes) → Bytes → Bytes → CookieSettings → HttpResponse → HttpResponse
add_cookie http_date name value k r = record r {
  response_cookies = r.response_cookies ++ (cookie_entry http_date name value k ∷ []);
}

-- `addSessionCookie`, with the life time of the sessions.
abbrev pub add_session_cookie : (ℕ → Bytes) → ℕ → Bytes → HttpResponse → HttpResponse
add_session_cookie http_date life_time sid r =
    add_cookie http_date (codes "SID") sid
      (record {
        max_age = life_time;
        expires_time = 0;
        path = [];
        domain = [];
        secure = false;
        http_only = true;
      })
      r

-- `getHttpReturnCodeStr`, which sets the code where it is not set.
abbrev pub with_code : HttpResponse → HttpResponse
with_code r = if r.http_return_code == unset_code then set_http_return_code 204 r else r

unfoldable pub get_http_return_code_str : HttpResponse → Bytes × HttpResponse
unfolding set_http_return_code
get_http_return_code_str r =
    let r' = with_code r in
    ((size_text r'.http_return_code ++ codes " ") ++ r'.http_return_code_message, r')
