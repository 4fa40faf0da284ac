-- ===== src/Response/Headers/Messages.antt =====
-- The error messages of the server (src/WebServer.cc).
use libnavajo.Base.{false, ◌++◌, none, Bytes, codes, length}
use libnavajo.Response.Headers.{Surroundings, get_http_header}

-- `getNoContentErrorMsg`
unfoldable pub get_no_content_error_msg : Surroundings → Bytes
unfolding get_http_header
get_no_content_error_msg e = get_http_header e (codes "204 No Content") 0 false none false none

-- A page with its header.
abbrev pub with_page : Surroundings → Bytes → Bytes → Bytes
with_page e message_type page =
    get_http_header e message_type (length page) false none false none ++ page

abbrev pub bad_request_page : Bytes
bad_request_page =
    codes "<HTML><HEAD>\n<TITLE>400 Bad Request</TITLE>\n</HEAD><body>\n<h1>Bad Requ"
    ++ (codes "est</h1>\n                 <p>Your browser sent a request that this ser"
        ++ (codes "ver could not understand.<br />\n</p>\n</body></HTML>\n"))

-- `getBadRequestErrorMsg`
unfoldable pub get_bad_request_error_msg : Surroundings → Bytes
unfolding get_http_header
get_bad_request_error_msg e = with_page e (codes "400 Bad Request") bad_request_page

abbrev pub not_found_page : Bytes
not_found_page =
    codes "<HTML><HEAD><TITLE>Object not found!</TITLE><body><h1>Object not found"
    ++ (codes "!</h1>\n<p>\n\n\nThe requested URL was not found on this server.\n\n\n\n    If"
        ++ (codes " you entered the URL manually please check your spelling and try again"
            ++ (codes ".\n\n\n</p>\n<h2>Error 404</h2></body></HTML>\n")))

-- `getNotFoundErrorMsg`
unfoldable pub get_not_found_error_msg : Surroundings → Bytes
unfolding get_http_header
get_not_found_error_msg e = with_page e (codes "404 Not Found") not_found_page

abbrev pub internal_server_page : Bytes
internal_server_page =
    codes "<HTML><HEAD><TITLE>Internal Server Error!</TITLE><body><h1>Internal Se"
    ++ (codes "rver Error!</h1>\n<p>\n\n\nSomething happens.\n\n\n\n    If you entered the UR"
        ++ (codes "L manually please check your spelling and try again.\n\n\n</p>\n<h2>Error "
            ++ (codes "500</h2></body></HTML>\n")))

-- `getInternalServerErrorMsg`
unfoldable pub get_internal_server_error_msg : Surroundings → Bytes
unfolding get_http_header
get_internal_server_error_msg e =
    with_page e (codes "500 Internal Server Error") internal_server_page

abbrev pub not_implemented_page : Bytes
not_implemented_page =
    codes "<HTML><HEAD><TITLE>Cannot process request!</TITLE><body><h1>Cannot pro"
    ++ (codes "cess request!</h1>\n<p>\n\n\n   The server does not support the action req"
        ++ (codes "uested by the browser.\n\n\n\nIf you entered the URL manually please check"
            ++ (codes
                " your spelling and try again.\n\n\n</p>\n<h2>Error 501</h2></body></HTML>\n")))

-- `getNotImplementedErrorMsg`
unfoldable pub get_not_implemented_error_msg : Surroundings → Bytes
unfolding get_http_header
get_not_implemented_error_msg e =
    with_page e (codes "501 Method Not Implemented") not_implemented_page
