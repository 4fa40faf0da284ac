-- ===== src/Server/Sending.antt =====
-- The sending of an answer: `WebServer::httpSend` and `WebServer::httpSend2` (src/WebServer.cc), on a
-- connection that is not encrypted.
pub mod Answers
use libnavajo.Base.{
  ℕ, zero, suc, ◌+◌, Bool, true, false, List, [], ◌∷◌, ◌++◌, Option, none, some, ◌==◌,
  if◌then◌else◌, Bytes, length, take, drop,
}

-- What a call of `send` comes to: it takes some bytes, is interrupted, is refused, or would block. In
-- the last case `select` is called, which may fail, and then `send` again, which may fail.
pub data SendCall : Type 0 where
  sends : ℕ → SendCall
  interrupted refused : SendCall
  blocked : Option (Option ℕ) → SendCall

-- What the function returns, the bytes that were taken, and the calls that are still to come.
pub record Sent : Type 0 where
  pub result : Bool
  pub bytes : Bytes
  pub coming : List SendCall

abbrev pub after_sent : Bytes → Option Sent → Option Sent
after_sent p none = none
after_sent p (some r) = some (record r { bytes = p ++ r.bytes })

abbrev pub stops : Bool → List SendCall → Option Sent
stops ok calls = some (record { result = ok; bytes = []; coming = calls })

-- The bytes that a call took, and what follows for the rest of the buffer.
abbrev pub sent_part : ℕ → Bytes → List SendCall → Option Sent → Option Sent
sent_part k left calls more =
    if length (drop k left) == 0
    then some (record { result = true; bytes = take k left; coming = calls })
    else after_sent (take k left) more

-- The loop over the calls, with the bytes that are left; `none` where it goes on beyond them. After an
-- interruption the condition of the loop ends it.
unfoldable pub send_loop : List SendCall → Bytes → Option Sent
send_loop [] left = none
send_loop (sends k ∷ calls) left = sent_part k left calls (send_loop calls (drop k left))
send_loop (interrupted ∷ calls) left = stops (length left == 0) calls
send_loop (refused ∷ calls) left = stops false calls
send_loop (blocked none ∷ calls) left = stops false calls
send_loop (blocked (some none) ∷ calls) left = stops false calls
send_loop (blocked (some (some k)) ∷ calls) left =
    sent_part k left calls (send_loop calls (drop k left))

unfoldable pub http_send : ℕ → List SendCall → Bytes → Option Sent
unfolding send_loop
http_send socket_id calls buf =
    let sent = send_loop calls buf in if socket_id == 0 then stops false calls else sent

abbrev pub and_then : Option Sent → (List SendCall → Option Sent) → Option Sent
and_then none next = none
and_then (some r) next = if r.result then after_sent r.bytes (next r.coming) else some r

-- `httpSend2`
unfoldable pub http_send2 : ℕ → List SendCall → Bytes → Bytes → Option Sent
unfolding http_send
http_send2 socket_id calls buf1 buf2 =
    and_then (http_send socket_id calls buf1) (λ later. http_send socket_id later buf2)
