-- ===== src/Server/Request/Body/Expected.antt =====
-- What the reading of a request's content is to give (src/WebServer.cc: the loop over
-- `requestContentLength` in `accept_request`).
use libnavajo.Base.{
  ℕ, ◌≡◌, refl, sym, subst, Bool, true, false, not, ◌||◌, [], ltb, ◌==◌, if◌then◌else◌, Bytes,
  length, take, drop,
}
use libnavajo.Server.Request.Body.{
  Content, ContentEnd, finished, given_up, cut_off, length_error, max_vector_size, requested_length,
}
use libnavajo.Server.Request.Body.Payload.{drop_nil, rest_end}

module _ (fits : ℕ → Bool) (content_length : ℕ) where
  -- How the reading of a content ends, by the stream that is there.
  abbrev pub content_end : Content → Bytes → ContentEnd
  content_end b s =
      if content_length == 0
      then finished b
      else (if length s == 0
          then cut_off
          else (if ltb max_vector_size content_length
              then length_error
              else (if fits content_length then rest_end b [] content_length s else given_up b)))

  -- What it leaves of the stream, after one call or all.
  abbrev pub read_rest_of : Bytes → Bool → Bytes
  read_rest_of s once =
      if once
      then drop (length (take (requested_length content_length 0) s)) s
      else drop content_length s

  abbrev pub content_rest : Bytes → Bytes
  content_rest s = read_rest_of s (ltb max_vector_size content_length || not (fits content_length))

  abbrev pub content_later : Content → Bytes → ContentEnd
  content_later b s =
      if length s == 0
      then cut_off
      else (if ltb max_vector_size content_length
          then length_error
          else (if fits content_length then rest_end b [] content_length s else given_up b))

  pub ended_end :
      (b : Content) (s : Bytes)
      → (content_length == 0) ≡ false
      → (length s == 0) ≡ true
      → content_end b s ≡ cut_off
  ended_end b s p q = rw (p, q) refl

  pub big_end :
      (b : Content) (s : Bytes)
      → (content_length == 0) ≡ false
      → (length s == 0) ≡ false
      → ltb max_vector_size content_length ≡ true
      → content_end b s ≡ length_error
  big_end b s p q r = rw (p, q, r) refl

  pub unfit_end :
      (b : Content) (s : Bytes)
      → (content_length == 0) ≡ false
      → (length s == 0) ≡ false
      → ltb max_vector_size content_length ≡ false
      → fits content_length ≡ false
      → content_end b s ≡ given_up b
  unfit_end b s p q r t = rw (p, q, r, t) refl

  pub fit_end :
      (b : Content) (s : Bytes)
      → (content_length == 0) ≡ false
      → (length s == 0) ≡ false
      → ltb max_vector_size content_length ≡ false
      → fits content_length ≡ true
      → content_end b s ≡ rest_end b [] content_length s
  fit_end b s p q r t = rw (p, q, r, t) refl

  -- The stream has ended, or nothing is asked for.
  pub nothing_left : (s : Bytes) → s ≡ [] → content_rest s ≡ s
  nothing_left s e =
      subst (λ x. content_rest x ≡ x) (sym e)
        (both_nil (ltb max_vector_size content_length || not (fits content_length)))
    where
      both_nil :
          (t : Bool)
          → ◌≡◌ {A = Bytes}
              (if t
                then drop (length (take {A = ℕ} (requested_length content_length 0) [])) []
                else drop content_length [])
              []
      both_nil true = drop_nil (length (take {A = ℕ} (requested_length content_length 0) []))
      both_nil false = drop_nil content_length

  pub unread : (s : Bytes) → content_length ≡ 0 → content_rest s ≡ s
  unread s e =
      subst
        (λ n.
          (if ltb max_vector_size n || not (fits n)
            then drop (length (take (requested_length n 0) s)) s
            else drop n s)
          ≡ s)
        (sym e) (same (ltb max_vector_size 0 || not (fits 0)))
    where
      same : (t : Bool) → (if t then s else s) ≡ s
      same true = refl
      same false = refl
