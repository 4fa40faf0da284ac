-- ===== src/Server/Request/Url/Bounds.antt =====
-- The bytes that are written for the URL and the bytes that were asked for (src/WebServer.cc).
use libnavajo.Base.{
  ℕ, ◌+◌, ◌-◌, ◌≤◌, ◌<◌, ◌≡◌, refl, ap, Bool, true, false, ◌||◌, [], ◌∷◌, ◌++◌, ◌==◌, Bytes, length,
  All, arith,
}
use libnavajo.Request.Percent.{is_space}
use libnavajo.Server.Text.{c_str}
use libnavajo.Server.Request.Url.{buf_size, copy_url, url_allocated, url_written}

-- A byte at which the URL ends.
abbrev pub ends_url : ℕ → Bool
ends_url c = is_space c || c == b'?'

-- A byte of a URL.
abbrev pub IsUrlByte : ℕ → Type 0
IsUrlByte c = ((c == 0) ≡ false) × (ends_url c ≡ false)

length-c_str_prefix : (t rest : Bytes) → All IsUrlByte t → length t ≤ length (c_str (t ++ rest))
unfolding c_str
length-c_str_prefix [] rest h = omega arith
length-c_str_prefix (c ∷ t) rest h = rw (h.0.0) (omega (arith, length-c_str_prefix t rest h.1))

c_str-zero : (t rest : Bytes) → All IsUrlByte t → c_str (t ++ (0 ∷ rest)) ≡ t
unfolding c_str
c_str-zero [] rest h = refl
c_str-zero (c ∷ t) rest h = rw (h.0.0) (ap (λ s. c ∷ s) (c_str-zero t rest h.1))

copy_url_within :
    (i x : ℕ) (t rest : Bytes)
    → ends_url x ≡ true
    → length (copy_url i (t ++ (x ∷ rest))).0 ≤ length t
unfolding copy_url
copy_url_within i x [] rest h = ground arith
copy_url_within i x (c ∷ t) rest h =
    ground (arith, copy_url_within i x t rest h, copy_url_within (i + 1) x t rest h)

copy_url_beyond :
    (i : ℕ) (t rest : Bytes)
    → All IsUrlByte t
    → i + length t < buf_size - 1
    → 0 < i
    → length t < length (copy_url i (t ++ (0 ∷ rest))).0
unfolding copy_url
copy_url_beyond i [] rest h room started = ground arith
copy_url_beyond i (c ∷ t) rest h room started =
    ground (arith, copy_url_beyond (i + 1) t rest h.1, h.0)

first_beyond :
    (c : ℕ) (t rest : Bytes)
    → All IsUrlByte (c ∷ t)
    → (c == b'/') ≡ false
    → length (c ∷ t) < buf_size - 1
    → length (c ∷ t) < length (copy_url 0 ((c ∷ t) ++ (0 ∷ rest))).0
unfolding copy_url
first_beyond c t rest h slash room = ground (arith, copy_url_beyond 1 t rest h.1, h.0, slash)

-- Where a blank or a question mark ends the URL before the first zero byte of the line, the bytes that are
-- written for it, with the zero behind them, are no more than those that were asked for: whatever the URL
-- begins with, and however long it is.
pub url_written_within :
    (x : ℕ) (t rest : Bytes)
    → ends_url x ≡ true
    → All IsUrlByte t
    → url_written (t ++ (x ∷ rest)) ≤ url_allocated (t ++ (x ∷ rest))
url_written_within x t rest stop h =
    omega (arith, copy_url_within 0 x t rest stop, length-c_str_prefix t (x ∷ rest) h)

-- Where a zero byte ends the URL, as the one does that the server writes over the end of a line without a
-- version, and the URL is not empty, starts with no slash and is shorter than the buffer, more bytes are
-- written than were asked for.
pub url_written_beyond :
    (c : ℕ) (t rest : Bytes)
    → All IsUrlByte (c ∷ t)
    → (c == b'/') ≡ false
    → length (c ∷ t) < buf_size - 1
    → url_allocated ((c ∷ t) ++ (0 ∷ rest)) < url_written ((c ∷ t) ++ (0 ∷ rest))
url_written_beyond c t rest h slash room =
    let size : length (c_str ((c ∷ t) ++ (0 ∷ rest))) ≡ length (c ∷ t) =
      ap length (c_str-zero (c ∷ t) rest h) in
    omega (arith, size, first_beyond c t rest h slash room)
