-- ===== src/Request/Client.antt =====
-- The method of a request and the connection it came on (include/libnavajo/HttpRequest.hh).
use libnavajo.Base.{ℕ, Option, Bytes}
use libnavajo.Address.{IpAddress}

-- `HttpRequestMethod`
pub data HttpRequestMethod : Type 0 where
  unknown_method get_method post_method put_method delete_method update_method patch_method
        options_method :
      HttpRequestMethod

-- `CompressionMode`
pub data CompressionMode : Type 0 where
  gzip zlib no_compression : CompressionMode

-- A socket, the address of its peer, the compression that was agreed on, and the name in the peer's
-- certificate, `none` where the pointer is null. The pointers of OpenSSL are left out.
pub record ClientSockData : Type 0 where
  pub socket_id : ℕ
  pub ip : IpAddress
  pub compression : CompressionMode
  pub peer_dn : Option Bytes
