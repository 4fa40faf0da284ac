-- ===== src/Server/Request.antt =====
-- The reading of a request in `WebServer::accept_request` (src/WebServer.cc), where the connection is
-- not encrypted.
pub mod Url
pub mod Line
pub mod Headers
pub mod Body
