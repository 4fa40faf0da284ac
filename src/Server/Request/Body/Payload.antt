-- ===== src/Server/Request/Body/Payload.antt =====
-- The content of a request that is no form (src/WebServer.cc).
use libnavajo.Base.{
  ℕ, zero, suc, ◌-◌, ◌≤◌, ◌<◌, ◌≡◌, refl, ap, ◌∙◌, false, [], ◌∷◌, ◌++◌, Option, some, ltb,
  if◌then◌else◌, Bytes, length, take, drop, append_assoc, append-nil, length-take, length-drop,
  arith,
}
use libnavajo.Server.Stream.Pieces.{Flows}
use libnavajo.Server.Stream.Reads.{Connection, stream_of}
use libnavajo.Server.Request.Body.{Content, ContentEnd, finished, cut_off, requested_length}

-- The first bytes of a text, taken in two parts.
pub take-take-drop :
    (k n : ℕ) (s : Bytes)
    → length (take k s) ≤ n
    → take k s ++ take (n - length (take k s)) (drop (length (take k s)) s) ≡ take n s
take-take-drop zero n s h = let e : n - 0 ≡ n = omega arith in rw e refl
take-take-drop (suc k) n [] h = let e : n - 0 ≡ n = omega arith in rw e refl
take-take-drop (suc k) zero (x ∷ s) h = absurd (omega arith)
take-take-drop (suc k) (suc n) (x ∷ s) h =
    let e : suc n - suc (length (take k s)) ≡ n - length (take k s) = omega arith in
    rw e (ap (λ l. x ∷ l) (take-take-drop k n s (omega arith)))

pub drop_nil : (k : ℕ) → drop {A = ℕ} k [] ≡ []
drop_nil zero = refl
drop_nil (suc k) = refl

pub drop-drop : (m n : ℕ) (s : Bytes) → m ≤ n → drop (n - m) (drop m s) ≡ drop n s
drop-drop zero n s h = let e : n - 0 ≡ n = omega arith in rw e refl
drop-drop (suc m) zero s h = absurd (omega arith)
drop-drop (suc m) (suc n) [] h = drop_nil (suc n - suc m)
drop-drop (suc m) (suc n) (x ∷ s) h =
    let e : suc n - suc m ≡ n - m = omega arith in rw e (drop-drop m n s (omega arith))

pub requested_length_bounds :
    (content_length datalen : ℕ)
    → datalen < content_length
    → (0 < requested_length content_length datalen)
      × (requested_length content_length datalen ≤ content_length - datalen)
requested_length_bounds content_length datalen h = ground arith

-- How the reading ends behind the first buffer: `need` bytes are missing.
abbrev pub rest_end : Content → Bytes → ℕ → Bytes → ContentEnd
rest_end b acc need s =
    if ltb (length s) need then cut_off else finished (record b { payload = acc ++ take need s })

pub rest_end-none :
    (b : Content) (acc s : Bytes) → rest_end b acc 0 s ≡ finished (record b { payload = acc })
rest_end-none b acc s =
    let room : ltb (length s) 0 ≡ false = ground arith in
    rw room (ap (λ x. finished (record b { payload = x })) (append-nil acc))

-- A buffer that is read makes up for a part of what is missing.
pub rest_end-more :
    (b : Content) (acc : Bytes) (n need : ℕ) (s : Bytes)
    → length (take n s) ≤ need
    → rest_end b (acc ++ take n s) (need - length (take n s)) (drop (length (take n s)) s)
      ≡ rest_end b acc need s
rest_end-more b acc n need s within =
    let m = length (take n s) in
    let text : (acc ++ take n s) ++ take (need - m) (drop m s) ≡ acc ++ take need s =
      append_assoc acc (take n s) (take (need - m) (drop m s))
      ∙ ap (λ x. acc ++ x) (take-take-drop n need s within) in
    let test : ltb (length (drop m s)) (need - m) ≡ ltb (length s) need =
      ground (arith, length-drop m s, length-take n s) in
    ap
      (λ x.
        if ltb (length (drop m s)) (need - m) then cut_off else finished (record b { payload = x }))
      text
    ∙ ap (λ t. if t then cut_off else finished (record b { payload = acc ++ take need s })) test

pub record GivesContent (client : ℕ) (end : ContentEnd) (rest : Bytes)
    (run : Option (ContentEnd × Connection)) : Type 0 where
  pub after : Connection
  pub runs : run ≡ some (end, after)
  pub left : stream_of client after ≡ rest
  pub flows : Flows after.coming
