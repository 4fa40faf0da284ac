-- ===== src/WebSocket.antt =====
-- The WebSocket side of the server (src/WebSocketClient.cc, include/libnavajo/WebSocketClient.hh,
-- include/libnavajo/WebSocket.hh, include/libnavajo/htonll.h).
pub mod Bits
pub mod Receiving
pub mod Sending
pub mod Closing
pub mod Clients
mod Tests
mod ClientTests
