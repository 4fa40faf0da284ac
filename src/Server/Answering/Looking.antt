-- ===== src/Server/Answering/Looking.antt =====
-- The search for a page in the repositories, in `WebServer::accept_request` (src/WebServer.cc).
use libnavajo.Base.{
  ℕ, zero, suc, ◌+◌, ◌<◌, ◌≡◌, refl, ap, subst, inl, inr, Bool, true, false, List, [], ◌∷◌, Option,
  none, some, ◌==◌, if◌then◌else◌, Bool-cases, Bytes, length, All, arith,
}
use libnavajo.Response.{HttpResponse, forward_to}
use libnavajo.Server.Text.{c_str}

-- `getFile` of a repository, for a request with that URL.
abbrev pub Repository : Type 0
Repository = Bytes → HttpResponse → Bool × HttpResponse

-- Where the loop over the repositories stops: at a page, at a forward to another URL, at their end, or
-- at a null pointer, which `continue` never passes.
pub data Looked : Type 0 where
  found_in : ℕ → HttpResponse → Looked
  forwarded : Bytes → HttpResponse → Looked
  nowhere halted : Looked

abbrev pub with_found : ℕ → HttpResponse → Looked
with_found i r =
    if length r.forward_to_url == 0
    then found_in i r
    else forwarded (c_str r.forward_to_url) (forward_to [] r)

unfoldable pub look_through : List (Option Repository) → ℕ → Bytes → HttpResponse → Looked
unfolding c_str
look_through [] i url r = nowhere
look_through (none ∷ repos) i url r = halted
look_through (some get_file ∷ repos) i url r =
    let (file_found, r') = get_file url r in
    let later = look_through repos (suc i) url r' in if file_found then with_found i r' else later

-- How the search ends: with a repository and a response, without, or standing still.
pub data Search : Type 0 where
  found : ℕ → HttpResponse → Search
  not_found stands_still : Search

-- A forward starts the loop again, for the other URL.
abbrev pub after_look : (Bytes → HttpResponse → Option Search) → Looked → Option Search
after_look again (found_in i r) = some (found i r)
after_look again (forwarded other r) = again other r
after_look again nowhere = some not_found
after_look again halted = some stands_still

-- The loop, on fuel for the forwards.
unfoldable pub search : ℕ → List (Option Repository) → Bytes → HttpResponse → Option Search
unfolding look_through
search zero repos url r = none
search (suc fuel) repos url r =
    after_look (λ other r'. search fuel repos other r') (look_through repos 0 url r)

-- The repository at a place is the first one that answers for a URL, with that response; those before it
-- may change the response, too, and are no null pointers.
abbrev pub AnswersAt : List (Option Repository) → ℕ → Bytes → HttpResponse → HttpResponse → Type 0
AnswersAt [] i url r last = ⊥
AnswersAt (none ∷ repos) i url r last = ⊥
AnswersAt (some get_file ∷ repos) zero url r last =
    ((get_file url r).0 ≡ true) × ((get_file url r).1 ≡ last)
AnswersAt (some get_file ∷ repos) (suc i) url r last =
    ((get_file url r).0 ≡ false) × AnswersAt repos i url (get_file url r).1 last

-- No repository answers for a URL.
abbrev pub NoneAnswers : List (Option Repository) → Bytes → HttpResponse → Type 0
NoneAnswers [] url r = Unit
NoneAnswers (none ∷ repos) url r = ⊥
NoneAnswers (some get_file ∷ repos) url r =
    ((get_file url r).0 ≡ false) × NoneAnswers repos url (get_file url r).1

-- Does a response forward nowhere?
abbrev pub stays : HttpResponse → Bool
stays r = length r.forward_to_url == 0

-- How a request for a URL is answered: by the first repository that answers, if its response forwards
-- nowhere; or not, if none answers; or as one for the URL that the response forwards to, with that
-- response, its forward taken off.
pub data Answered (repos : List (Option Repository)) : Bytes → HttpResponse → Search → Type 0 where
  by_page :
      (i : ℕ) (url : Bytes) (r last : HttpResponse)
      → AnswersAt repos i url r last
      → stays last ≡ true
      → Answered repos url r (found i last)
  by_none :
      (url : Bytes) (r : HttpResponse) → NoneAnswers repos url r → Answered repos url r not_found
  by_forward :
      (i : ℕ) (url : Bytes) (r last : HttpResponse) (s : Search)
      → AnswersAt repos i url r last
      → stays last ≡ false
      → Answered repos (c_str last.forward_to_url) (record last { forward_to_url = [] }) s
      → Answered repos url r s

-- A repository that is no null pointer, and that, of a response that forwards nowhere, makes a forward
-- only where it answers, and only to a URL of lower rank.
abbrev pub Lowers : (Bytes → ℕ) → Option Repository → Type 0
Lowers rank none = ⊥
Lowers rank (some get_file) =
    (url : Bytes) (r : HttpResponse)
    → stays r ≡ true
    → ((get_file url r).0 ≡ true
        → stays (get_file url r).1 ≡ false
        → rank (c_str (get_file url r).1.forward_to_url) < rank url)
      × ((get_file url r).0 ≡ false → stays (get_file url r).1 ≡ true)

-- The response with which the loop starts again.
record Restarts (rank : Bytes → ℕ) (repos : List (Option Repository)) (url : Bytes)
    (r : HttpResponse) (other : Bytes) (r' : HttpResponse) : Type 0 where
  place : ℕ
  last : HttpResponse
  answers : AnswersAt repos place url r last
  moves : stays last ≡ false
  is_other : other ≡ c_str last.forward_to_url
  is_reset : r' ≡ record last { forward_to_url = [] }
  lower : rank other < rank url

abbrev LooksRight :
    (Bytes → ℕ) → List (Option Repository) → ℕ → Bytes → HttpResponse → Looked → Type 0
LooksRight rank repos i url r (found_in j last) =
    (k : ℕ) × (j ≡ i + k) × AnswersAt repos k url r last × (stays last ≡ true)
LooksRight rank repos i url r (forwarded other r') = Restarts rank repos url r other r'
LooksRight rank repos i url r nowhere = NoneAnswers repos url r
LooksRight rank repos i url r halted = ⊥

with_found-LooksRight :
    (rank : Bytes → ℕ) (get_file : Repository) (repos : List (Option Repository)) (i : ℕ)
    (url : Bytes) (r : HttpResponse)
    → Lowers rank (some get_file)
    → stays r ≡ true
    → (get_file url r).0 ≡ true
    → LooksRight rank (some get_file ∷ repos) i url r (with_found i (get_file url r).1)
with_found-LooksRight rank get_file repos i url r h here e =
    elim (Bool-cases (stays (get_file url r).1)) [
      | inl plain ↦ rw plain (0, omega arith, (e, refl), plain)
      | inr other ↦ rw other (record {
        place = 0;
        last = (get_file url r).1;
        answers = (e, refl);
        moves = other;
        is_other = refl;
        is_reset = refl;
        lower = (h url r here).0 e other;
      })
    ]

later-LooksRight :
    (rank : Bytes → ℕ) (get_file : Repository) (repos : List (Option Repository)) (i : ℕ)
    (url : Bytes) (r : HttpResponse) (looked : Looked)
    → (get_file url r).0 ≡ false
    → LooksRight rank repos (suc i) url (get_file url r).1 looked
    → LooksRight rank (some get_file ∷ repos) i url r looked
later-LooksRight rank get_file repos i url r (found_in j last) e (k, at_j, h, plain) =
    (suc k, omega arith, (e, h), plain)
later-LooksRight rank get_file repos i url r (forwarded other r') e h = record {
  place = suc h.place;
  last = h.last;
  answers = (e, h.answers);
  moves = h.moves;
  is_other = h.is_other;
  is_reset = h.is_reset;
  lower = h.lower;
}
later-LooksRight rank get_file repos i url r nowhere e h = (e, h)
later-LooksRight rank get_file repos i url r halted e h = elim h [ ]

look_through-LooksRight :
    (rank : Bytes → ℕ) (repos : List (Option Repository)) (i : ℕ) (url : Bytes) (r : HttpResponse)
    → All (Lowers rank) repos
    → stays r ≡ true
    → LooksRight rank repos i url r (look_through repos i url r)
unfolding look_through
look_through-LooksRight rank [] i url r h here = tt
look_through-LooksRight rank (none ∷ repos) i url r h here = elim h.0 [ ]
look_through-LooksRight rank (some get_file ∷ repos) i url r h here =
    elim (Bool-cases (get_file url r).0) [
      | inl e ↦ rw e (with_found-LooksRight rank get_file repos i url r h.0 here e)
      | inr e ↦
          let later =
            look_through-LooksRight rank repos (suc i) url (get_file url r).1 h.1
              ((h.0 url r here).1 e) in
          rw e (
            later-LooksRight rank get_file repos i url r
              (look_through repos (suc i) url (get_file url r).1) e later)
    ]

-- A search that has ended as it should.
abbrev pub EndsRight : List (Option Repository) → Bytes → HttpResponse → Option Search → Type 0
EndsRight repos url r none = ⊥
EndsRight repos url r (some s) = Answered repos url r s

forward-EndsRight :
    (rank : Bytes → ℕ) (repos : List (Option Repository)) (url : Bytes) (r : HttpResponse)
    (other : Bytes) (r' : HttpResponse) (o : Option Search)
    → Restarts rank repos url r other r'
    → EndsRight repos other r' o
    → EndsRight repos url r o
forward-EndsRight rank repos url r other r' none h ends = ends
forward-EndsRight rank repos url r other r' (some s) h ends =
    by_forward h.place url r h.last s h.answers h.moves (
      subst (λ u. Answered repos u (record h.last { forward_to_url = [] }) s) h.is_other
        (subst (λ x. Answered repos other x s) h.is_reset ends))

after_look-EndsRight :
    (rank : Bytes → ℕ) (repos : List (Option Repository)) (url : Bytes) (r : HttpResponse)
    (again : Bytes → HttpResponse → Option Search) (looked : Looked)
    → ((other : Bytes) (r' : HttpResponse)
        → stays r' ≡ true
        → rank other < rank url
        → EndsRight repos other r' (again other r'))
    → LooksRight rank repos 0 url r looked
    → EndsRight repos url r (after_look again looked)
after_look-EndsRight rank repos url r again (found_in i last) answers (k, at_i, right, plain) =
    by_page i url r last (subst (λ j. AnswersAt repos j url r last) (omega arith) right) plain
after_look-EndsRight rank repos url r again (forwarded other r') answers h =
    forward-EndsRight rank repos url r other r' (again other r') h
      (answers other r' (ap stays h.is_reset) h.lower)
after_look-EndsRight rank repos url r again nowhere answers none_answers =
    by_none url r none_answers
after_look-EndsRight rank repos url r again halted answers impossible = elim impossible [ ]

-- For a response that forwards nowhere, repositories that are no null pointers, make a forward only where
-- they answer and lower the rank of the URL with it: on fuel above the rank of the URL the search ends,
-- with the response of the first repository that answers for the URL if it forwards nowhere, with none if
-- none answers, and otherwise as the search for the URL that this response forwards to, with the forward
-- taken off it.
pub search-EndsRight :
    (rank : Bytes → ℕ) (fuel : ℕ) (repos : List (Option Repository)) (url : Bytes)
    (r : HttpResponse)
    → All (Lowers rank) repos
    → stays r ≡ true
    → rank url < fuel
    → EndsRight repos url r (search fuel repos url r)
unfolding search
search-EndsRight rank zero repos url r h here enough = absurd (omega arith)
search-EndsRight rank (suc fuel) repos url r h here enough =
    after_look-EndsRight rank repos url r (λ other r'. search fuel repos other r')
      (look_through repos 0 url r)
      (λ other r' reset lower. search-EndsRight rank fuel repos other r' h reset (omega arith))
      (look_through-LooksRight rank repos 0 url r h here)
