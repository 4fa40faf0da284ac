-- ===== src/Server.antt =====
-- The web server (src/WebServer.cc, include/libnavajo/WebServer.hh): what it reads from a client,
-- how it reads a request, and what it sends back.
pub mod Stream
pub mod Text
pub mod Sending
pub mod Request
pub mod Answering
pub mod Queue
mod Tests
