-- ===== src/Request/Fields.antt =====
-- The methods of `HttpRequest` (include/libnavajo/HttpRequest.hh) that read a field or put a new one.
use libnavajo.Base.{Bool, true, false, [], Option, none, some, Bytes}
use libnavajo.Address.{IpAddress}
use libnavajo.Request.{HttpRequest}
use libnavajo.Request.Client.{HttpRequestMethod, CompressionMode, ClientSockData}

abbrev pub is_there {ℓ} : {A : Type ℓ} → Option A → Bool
is_there none = false
is_there (some _) = true

abbrev pub is_multipart_content : HttpRequest → Bool
is_multipart_content r = is_there r.mutipart_content_parser

abbrev pub has_payload : HttpRequest → Bool
has_payload r = is_there r.payload

-- Where `getPayload` and `getX509PeerDN` find a null pointer, they give a static empty value.
abbrev pub or_no_bytes : Option Bytes → Bytes
or_no_bytes none = []
or_no_bytes (some bytes) = bytes

abbrev pub get_payload : HttpRequest → Bytes
get_payload r = or_no_bytes r.payload

abbrev pub set_url : Bytes → HttpRequest → HttpRequest
set_url new_url r = record r { url = some new_url }

abbrev pub set_request_type : HttpRequestMethod → HttpRequest → HttpRequest
set_request_type new_method r = record r { http_method = new_method }

-- `getPeerIpAddress` and `getCompressionMode` read the client without a look at the pointer: `none` is a
-- null pointer that is followed.
abbrev pub ip_of : Option ClientSockData → Option IpAddress
ip_of none = none
ip_of (some client) = some client.ip

abbrev pub get_peer_ip_address : HttpRequest → Option IpAddress
get_peer_ip_address r = ip_of r.client_sock_data

abbrev pub compression_of : Option ClientSockData → Option CompressionMode
compression_of none = none
compression_of (some client) = some client.compression

abbrev pub get_compression_mode : HttpRequest → Option CompressionMode
get_compression_mode r = compression_of r.client_sock_data

-- The name in the certificate, where there is a client and it has one.
abbrev pub dn_of : Option ClientSockData → Option Bytes
dn_of none = none
dn_of (some client) = client.peer_dn

abbrev pub get_x509_peer_dn : HttpRequest → Bytes
get_x509_peer_dn r = or_no_bytes (dn_of r.client_sock_data)

abbrev pub is_x509auth : HttpRequest → Bool
is_x509auth r = is_there (dn_of r.client_sock_data)
