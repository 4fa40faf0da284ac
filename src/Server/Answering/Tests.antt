-- ===== src/Server/Answering/Tests.antt =====
-- Tests and witnesses for the choice of an answer (src/WebServer.cc: `accept_request`).
use libnavajo.Base.{
  Bytes, min, ◌∙◌, ℕ, ◌-◌, ◌^◌, ◌≤◌, ◌<◌, subst, drop, eq_of_some, lookup, bytes_order, ◌≡◌, refl,
  sym, true, false, false≢true, [], ◌∷◌, none, some, codes, length, arith,
}
use libnavajo.Auth.Users.{IsTrusted}
use libnavajo.Server.Stream.Reads.{Connection}
use libnavajo.Server.Request.Headers.{Moment}
use libnavajo.Server.Answering.Releases.{
  free_file, free, page_block, zlib_block, response_releases, response_releases-expected,
}
use libnavajo.Server.Request.Line.{AuthSettings, Reading}
use libnavajo.Server.Answering.Handling.{
  Settings, handle_request, IsKeptOut, handle_request-IsKeptOut,
}
use libnavajo.Response.{HttpResponse, new_response, set_content, set_is_zipped, forward_to}
use libnavajo.Response.Headers.{Surroundings}
use libnavajo.Server.Text.{c_str}
use libnavajo.Request.Client.{get_method}
use libnavajo.Server.Answering.Looking.{
  Repository, stands_still, search, Lowers, EndsRight, search-EndsRight,
}
use libnavajo.Server.Answering.Encodings.{AnswersWith, answer_page-AnswersWith}
use libnavajo.Server.Answering.Connections.Counts.{SearchesEnd}
use libnavajo.Server.Answering.Connections.Ends.{EndsWithin, accept_request-EndsWithin}
use libnavajo.Server.Answering.Connections.{Course, accept_request}
use libnavajo.Server.Answering.{
  KeepAlive, Compression, page_of, answer_page, Site, goes_on, count_query, keepalive_max_nb_query,
}

-- Pages whose name is one letter, which leave the response as it is, and forwards to one of them.
abbrev short_names : Repository
short_names [] r = (true, r)
short_names (c ∷ []) r = (true, r)
short_names (c ∷ d ∷ name) r = (true, forward_to (codes "p") r)

abbrev capped_length : Bytes → ℕ
capped_length url = min (length url) 2

short_names-Lowers : Lowers capped_length (some short_names)
unfolding c_str
short_names-Lowers [] r here =
    (λ _ forwards. absurd (false≢true (sym forwards ∙ here)), λ e. absurd (false≢true (sym e)))
short_names-Lowers (c ∷ []) r here =
    (λ _ forwards. absurd (false≢true (sym forwards ∙ here)), λ e. absurd (false≢true (sym e)))
short_names-Lowers (c ∷ d ∷ name) r here = (λ _ _. omega arith, λ e. absurd (false≢true (sym e)))

search-EndsRight_example :
    EndsRight
      (some short_names ∷ [])
      (codes "old")
      (new_response [])
      (search 4 (some short_names ∷ []) (codes "old") (new_response []))
unfolding new_response
search-EndsRight_example =
    search-EndsRight capped_length 4 (some short_names ∷ []) (codes "old") (new_response [])
      (short_names-Lowers, tt) refl (omega arith)

-- A null pointer among the repositories stops the search for good.
null_repository : search 4 (none ∷ []) (codes "a") (new_response []) ≡ some stands_still
unfolding search
null_repository = refl

abbrev no_compression : Compression
no_compression = record { gzip = some; gunzip = some }

abbrev surroundings : Surroundings
surroundings = record { date = codes "Date: d"; web_server_name = codes "Server: s" }

abbrev first_query : KeepAlive
first_query = record { keep_alive = true; closing = false; nb_file_keep_alive = 25 }

answer_page-AnswersWith_example :
    AnswersWith no_compression surroundings true first_query
      (set_content (some (codes "hi")) 2 (new_response []))
      (page_of
        (set_content (some (codes "hi")) 2 (new_response [])).response_content
        (set_content (some (codes "hi")) 2 (new_response [])).response_content_length)
      (answer_page no_compression surroundings true first_query
        (set_content (some (codes "hi")) 2 (new_response [])))
answer_page-AnswersWith_example =
    answer_page-AnswersWith no_compression surroundings true first_query
      (set_content (some (codes "hi")) 2 (new_response [])) (λ page small e. sym e)

last_query_closes : goes_on (count_query (record first_query { nb_file_keep_alive = 1 })) ≡ false
unfolding count_query
last_query_closes = refl

abbrev site : Site
site = record {
  compression = no_compression;
  surroundings = surroundings;
  sha1 = λ s. s;
  web_socket_end_points = [];
  web_repositories = λ r content. some short_names ∷ [];
}

abbrev outside : Reading
outside = record {
  request_method = get_method;
  url_buffer = some (codes "p");
  request_params = none;
  request_cookies = none;
  request_origin = none;
  request_extra_headers = [];
  mime_type = [];
  request_content_length = 0;
  urlencoded_form = false;
  multipart_content = none;
  web_socket_client_key = none;
  websocket = false;
  web_socket_version = 2 ^ 32 - 1;
  username = [];
  keep_alive = true;
  closing = false;
  gzip = false;
  auth_ok = false;
  users_auth_history = [];
  tokens_auth_history = [];
}

-- A zlib whose texts have one byte more, and a page that comes zipped.
abbrev one_byte_more : Compression
one_byte_more = record { gzip = λ s. some (31 ∷ s); gunzip = λ s. some (drop 1 s) }

abbrev zipped_page : HttpResponse
zipped_page = set_is_zipped true (set_content (some (codes "hi")) 2 (new_response []))

response_releases-expected_example :
    response_releases one_byte_more false zipped_page ≡ free zlib_block ∷ free_file page_block ∷ []
unfolding set_content new_response
response_releases-expected_example =
    response_releases-expected one_byte_more false zipped_page
      (λ page small e. subst (λ s. 0 < length s) (eq_of_some e) (omega arith))

abbrev one_login : AuthSettings
one_login = record {
  auth_login_pwd_list = codes "a:b" ∷ [];
  auth_bearer_enabled = false;
  callbacks = record { decodes = λ t. none; expiration_of = λ t. 0; scopes_check = none };
}

abbrev settings : Settings
settings = record {
  auth = one_login;
  mutipart_temp_dir = [];
  mutipart_max_collected_data_length = 100;
  disk = [];
  can_create = λ p. true;
  fits = λ n. true;
  site = site;
  auth_resp_header = [];
}

abbrev moments : ℕ → Moment
moments k = record { now = 7; exiting = false }

-- A request with other credentials than those in the list.
abbrev stranger : Connection
stranger = record {
  buffers = λ c. [];
  coming = codes "GET / HTTP/1.1\r\nAuthorization: Basic YTpj\r\n\r\n" ∷ [];
}

no_history : IsTrusted (codes "a:b" ∷ []) []
unfolding lookup
no_history p t f = cc

handle_request-IsKeptOut_example :
    IsKeptOut settings (handle_request 60 60 3 4 settings moments 25 outside stranger)
unfolding libnavajo.Server.Request.Headers.Authorisation.lines_of libnavajo.Base.starts_with
    libnavajo.Server.Text.ltrim libnavajo.Base.find_byte libnavajo.Base64.base64_decode
    libnavajo.Server.Request.Line.until_eol libnavajo.Base.bytes_eq
handle_request-IsKeptOut_example =
    handle_request-IsKeptOut 60 60 3 4 settings moments 25 outside stranger (omega arith, tt)
      (omega arith) refl no_history refl refl

abbrev course : Course
course = record { sent = λ left. true; moments = λ left. moments }

searches_end : SearchesEnd site 4
searches_end = record {
  rank = capped_length;
  lowers = λ r b. (short_names-Lowers, tt);
  enough = λ url. omega arith;
}

accept_request-EndsWithin_example :
    EndsWithin keepalive_max_nb_query (accept_request 60 60 3 4 settings course outside stranger)
accept_request-EndsWithin_example =
    accept_request-EndsWithin 60 60 3 4 settings course outside stranger searches_end
