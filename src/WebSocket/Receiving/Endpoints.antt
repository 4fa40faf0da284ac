-- ===== src/WebSocket/Receiving/Endpoints.antt =====
-- What surrounds `WebSocketClient::receivingThread` (src/WebSocketClient.cc): memory, zlib, and the
-- handlers of the `WebSocket` (include/libnavajo/WebSocket.hh) that applications override.
use libnavajo.Base.{ℕ, Bool, List, Option, Bytes}

-- `allocates` tells for which sizes `malloc` succeeds; `inflate` what zlib makes of a message, given
-- the messages before it; `replies_close` and `replies_ping` what the handlers return.
pub record Endpoint : Type 0 where
  pub allocates : ℕ → Bool
  pub uses_zlib : Bool
  pub inflate : List Bytes → Bytes → Option Bytes
  pub replies_close : Bytes → Bool
  pub replies_ping : Bytes → Bool

-- The calls the thread makes.
pub data Event : Type 0 where
  on_text_message on_binary_message : Bytes → Event
  on_close_ctrl_frame on_ping_ctrl_frame on_pong_ctrl_frame : Bytes → Event
  send_close_ctrl_frame send_pong_ctrl_frame : Bytes → Event
  close_recv : Event
