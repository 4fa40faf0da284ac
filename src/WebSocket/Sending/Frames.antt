-- ===== src/WebSocket/Sending/Frames.antt =====
-- What `WebSocketClient::sendMessage` (src/WebSocketClient.cc) sends, and a reader of RFC 6455 for it.
use libnavajo.Base.{
  length-append, ℕ, ◌/◌, ◌%◌, ◌<◌, ◌≡◌, refl, ap, ◌∙◌, inl, inr, Bool, true, false, [], ◌∷◌, ◌++◌,
  Option, none, some, ltb, leb, ◌==◌, eq_is_true, eq_is_false, ltb_is_less, if◌then◌else◌, Bytes,
  Bool-cases, arith, length, take, drop,
}
use libnavajo.WebSocket.Bits.{
  network_bytes, number_of, number_of-network_bytes, length-network_bytes, bytes_to,
}
use libnavajo.WebSocket.Receiving.Pieces.{take_all, drop_all, take_start, drop_start}
use libnavajo.WebSocket.Sending.{MessageContent, first_header, length_header, header}

-- A frame without a mask, as its reader sees it, and the bytes after it.
pub record Read : Type 0 where
  pub is_final : Bool
  pub compressed : Bool
  pub code : ℕ
  pub content : Bytes
  pub after : Bytes

-- The content, of `n` bytes, and what follows, where they are there.
abbrev pub read_content : ℕ → ℕ → Bytes → Option Read
read_content b n bs =
    if leb n (length bs)
    then some (record {
      is_final = leb 128 b;
      compressed = b / 64 % 2 == 1;
      code = b % 16;
      content = take n bs;
      after = drop n bs;
    })
    else none

-- RFC 6455, 5.2, without extension data and masks.
abbrev pub read_length : ℕ → Bytes → Option Read
read_length b [] = none
read_length b (n ∷ bs) =
    if n == 126
    then read_content b (number_of 0 (take 2 bs)) (drop 2 bs)
    else (if n == 127
        then read_content b (number_of 0 (take 8 bs)) (drop 8 bs)
        else read_content b n bs)

abbrev pub read_frame : Bytes → Option Read
read_frame [] = none
read_frame (b ∷ bs) = read_length b bs

read_content-all :
    (b : ℕ) (msg rest : Bytes)
    → read_content b (length msg) (msg ++ rest)
      ≡ some (record {
        is_final = leb 128 b;
        compressed = b / 64 % 2 == 1;
        code = b % 16;
        content = msg;
        after = rest;
      })
read_content-all b msg rest = rw (fits msg, take_all msg rest, drop_all msg rest) refl
  where
    fits : (m : Bytes) → leb (length m) (length (m ++ rest)) ≡ true
    fits m = ground (arith, length-append m rest)

-- A length in `k` bytes is read back.
read_content-long :
    (k b : ℕ) (msg rest : Bytes)
    → length msg < bytes_to k
    → let bs = network_bytes k (length msg) ++ (msg ++ rest) in
      read_content b (number_of 0 (take k bs)) (drop k bs)
      ≡ read_content b (length msg) (msg ++ rest)
read_content-long k b msg rest h =
    let ns = network_bytes k (length msg) in
    let tail = msg ++ rest in
    ap (λ n. read_content b n (drop k (ns ++ tail)))
      (ap (number_of 0) (take_start k ns tail (length-network_bytes k (length msg)))
        ∙ number_of-network_bytes k (length msg) h)
    ∙ ap (read_content b (length msg)) (drop_start k ns tail (length-network_bytes k (length msg)))

read_length-header :
    (b : ℕ) (msg rest : Bytes)
    → length msg < bytes_to 8
    → read_length b (length_header (length msg) ++ (msg ++ rest))
      ≡ read_content b (length msg) (msg ++ rest)
unfolding bytes_to
read_length-header b msg rest h = elim (Bool-cases (ltb (length msg) 126)) [
  | inl one ↦
      let small = ltb_is_less (length msg) 126 one in
      rw
        (
          one,
          eq_is_false (length msg) 126 (λ z. omega (arith, z, small)),
          eq_is_false (length msg) 127 (λ z. omega (arith, z, small)),
        )
        refl
  | inr more ↦ elim (Bool-cases (ltb 65535 (length msg))) [
    | inr two ↦ rw (more, two) (read_content-long 2 b msg rest (ground (arith, two)))
    | inl eight ↦ rw (more, eight) (read_content-long 8 b msg rest h)
  ]
]

first_header-bits :
    (fin zlib : Bool) (opcode : ℕ)
    → opcode < 16
    → (leb 128 (first_header fin zlib opcode) ≡ fin)
      × ((first_header fin zlib opcode / 64 % 2 == 1) ≡ zlib)
      × (first_header fin zlib opcode % 16 ≡ opcode)
first_header-bits true true opcode h =
    (ground (arith, h), eq_is_true _ 1 (omega (arith, h)), omega (arith, h))
first_header-bits true false opcode h =
    (ground (arith, h), eq_is_false _ 1 (λ z. omega (arith, h, z)), omega (arith, h))
first_header-bits false true opcode h =
    (ground (arith, h), eq_is_true _ 1 (omega (arith, h)), omega (arith, h))
first_header-bits false false opcode h =
    (ground (arith, h), eq_is_false _ 1 (λ z. omega (arith, h, z)), omega (arith, h))

-- The header that is sent for a message, with the content after it, is read as one frame without a
-- mask: final as the message says, compressed if the connection is, of the message's code and with the
-- content, whatever its length below 2 ^ 64; what follows is left.
pub read_frame-header :
    (zlib : Bool) (m : MessageContent) (msg rest : Bytes)
    → m.opcode < 16
    → length msg < bytes_to 8
    → read_frame (header zlib m msg ++ (msg ++ rest))
      ≡ some (record {
        is_final = m.fin;
        compressed = zlib;
        code = m.opcode;
        content = msg;
        after = rest;
      })
read_frame-header zlib m msg rest h fits =
    let (b1, b2, b3) = first_header-bits m.fin zlib m.opcode h in
    read_length-header (first_header m.fin zlib m.opcode) msg rest fits
    ∙ read_content-all (first_header m.fin zlib m.opcode) msg rest
    ∙ rw (b1, b2, b3) refl
