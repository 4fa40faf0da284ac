-- ===== src/Session.antt =====
-- The session manager `HttpSession` (include/libnavajo/HttpSession.hh). The static members are one
-- state; `now` is what `time(NULL)` gives during a call. A call is one step: it holds
-- `sessions_mutex`, or, as `create` does, takes it for each part in turn.
pub mod Release
pub mod Calls
pub mod Touching
pub mod WellFormed
pub mod Ownership
pub mod Expiry
pub mod Lookup
pub mod Runs
mod Tests
use libnavajo.Base.{
  ℕ, zero, suc, ◌+◌, ◌%◌, ◌≡◌, Bool, true, false, not, ◌&&◌, ◌||◌, List, [], ◌∷◌, ◌++◌, Option,
  none, some, map, ltb, ◌==◌, if◌then◌else◌, Bytes, codes, get_or, lookup, insert, erase,
  bytes_order, keys,
}
use Release.{
  Kind, basic, object, is_object, SessionAttribute, Attributes, Released, release, release_all,
}

abbrev pub SessionMap : Type 0
SessionMap = List (Bytes × Attributes)

-- `cells` is what the addresses hold, read as a `time_t`; `next_cell` is what `malloc` returns next;
-- `released` lists what was freed or deleted, the latest first.
pub record Sessions : Type 0 where
  pub sessions : SessionMap
  pub last_expiration_search_time : ℕ
  pub session_life_time : ℕ
  pub cells : ℕ → ℕ
  pub next_cell : ℕ
  pub released : Released

-- The static members at the start: twenty minutes to live.
abbrev pub initial : Sessions
initial = record {
  sessions = [];
  last_expiration_search_time = 0;
  session_life_time = 1200;
  cells = λ p. 0;
  next_cell = 1;
  released = [];
}

abbrev pub set_session_life_time : ℕ → Sessions → Sessions
set_session_life_time sec s = record s { session_life_time = sec }

-- `*p = v`
abbrev pub write_cell : (ℕ → ℕ) → ℕ → ℕ → ℕ → ℕ
write_cell cells p v q = if q == p then v else cells q

-- What `find` on the map gives, with the test on the attribute's type.
pub of_kind : Kind → Option SessionAttribute → ℕ
of_kind k none = 0
of_kind basic (some a) = if is_object a.kind then 0 else a.ptr
of_kind object (some a) = if is_object a.kind then a.ptr else 0

pub attribute_of : Kind → Bytes → Option Attributes → ℕ
unfolding of_kind
attribute_of k name none = 0
attribute_of k name (some m) = of_kind k (lookup name m)

-- A null pointer where the session or the attribute is missing, or of the other type.
unfoldable pub get_attribute : Bytes → Bytes → Sessions → ℕ
unfolding attribute_of
get_attribute sid name s = attribute_of basic name (lookup sid s.sessions)

unfoldable pub get_object_attribute : Bytes → Bytes → Sessions → ℕ
unfolding attribute_of
get_object_attribute sid name s = attribute_of object name (lookup sid s.sessions)

-- The attribute that was there is released and erased; then the new one is inserted.
pub put : Bytes → Bytes → SessionAttribute → Attributes → Sessions → Sessions
put sid name a m s = record s {
  sessions = insert sid (insert name a (erase name m)) s.sessions;
  released = release (lookup name m) s.released;
}

pub put_if : Bytes → Bytes → SessionAttribute → Option Attributes → Sessions → Sessions
unfolding put
put_if sid name a none s = s
put_if sid name a (some m) s = put sid name a m s

unfoldable pub set_attribute : Bytes → Bytes → ℕ → Sessions → Sessions
unfolding put_if
set_attribute sid name value s =
    put_if sid name (record { kind = basic; ptr = value }) (lookup sid s.sessions) s

unfoldable pub set_object_attribute : Bytes → Bytes → ℕ → Sessions → Sessions
unfolding put_if
set_object_attribute sid name value s =
    put_if sid name (record { kind = object; ptr = value }) (lookup sid s.sessions) s

abbrev pub session_expiration : Bytes
session_expiration = codes "session_expiration"

unfoldable pub update_expiration : ℕ → Bytes → Sessions → Sessions
update_expiration now sid s =
    let p = get_attribute sid session_expiration s in
    if p == 0 then s else record s { cells = write_cell s.cells p (now + s.session_life_time) }

unfoldable pub no_expiration : Bytes → Sessions → Sessions
no_expiration sid s =
    let p = get_attribute sid session_expiration s in
    if p == 0 then s else record s { cells = write_cell s.cells p 0 }

pub is_session : Option Attributes → Bool
is_session none = false
is_session (some m) = true

unfoldable pub has_session : Bytes → Sessions → Bool
unfolding is_session
has_session sid s = is_session (lookup sid s.sessions)

-- `find`: a session that is found lives on.
unfoldable pub find : ℕ → Bytes → Sessions → Bool × Sessions
find now sid s = if has_session sid s then (true, update_expiration now sid s) else (false, s)

-- The test of `removeExpiredSession` on one session: its expiration is there, not zero, and later than now.
unfoldable pub is_live : (ℕ → ℕ) → ℕ → Attributes → Bool
unfolding of_kind
is_live cells now m = elim (lookup session_expiration m) [
  | none ↦ false
  | some a ↦ not (a.ptr == 0) && (not (cells a.ptr == 0) && ltb now (cells a.ptr))
]

pub live_sessions : (ℕ → ℕ) → ℕ → SessionMap → SessionMap
live_sessions cells now [] = []
live_sessions cells now ((sid, m) ∷ rest) =
    if is_live cells now m
    then (sid, m) ∷ live_sessions cells now rest
    else live_sessions cells now rest

pub released_sessions : (ℕ → ℕ) → ℕ → SessionMap → Released → Released
released_sessions cells now [] r = r
released_sessions cells now ((sid, m) ∷ rest) r =
    released_sessions cells now rest (if is_live cells now m then r else release_all m r)

unfoldable pub remove_expired_session : ℕ → Sessions → Sessions
unfolding live_sessions released_sessions
remove_expired_session now s = record s {
  sessions = live_sessions s.cells now s.sessions;
  released = released_sessions s.cells now s.sessions s.released;
}

pub release_sessions : SessionMap → Released → Released
release_sessions [] r = r
release_sessions ((sid, m) ∷ rest) r = release_sessions rest (release_all m r)

unfoldable pub remove_all_session : Sessions → Sessions
unfolding release_sessions
remove_all_session s = record s { sessions = []; released = release_sessions s.sessions s.released }

pub remove_found : Bytes → Option Attributes → Sessions → Sessions
remove_found sid none s = s
remove_found sid (some m) s = record s {
  sessions = erase sid s.sessions;
  released = release_all m s.released;
}

unfoldable pub remove : Bytes → Sessions → Sessions
unfolding remove_found
remove sid s = remove_found sid (lookup sid s.sessions) s

pub remove_attribute_of : Bytes → Bytes → Option Attributes → Sessions → Sessions
remove_attribute_of sid name none s = s
remove_attribute_of sid name (some m) s = record s {
  sessions = insert sid (erase name m) s.sessions;
  released = release (lookup name m) s.released;
}

unfoldable pub remove_attribute : Bytes → Bytes → Sessions → Sessions
unfolding remove_attribute_of
remove_attribute sid name s = remove_attribute_of sid name (lookup sid s.sessions) s

unfoldable pub get_attribute_names : Bytes → Sessions → List Bytes
get_attribute_names sid s = elim (lookup sid s.sessions) [ none ↦ [] | some m ↦ keys m ]

abbrev pub elements : Bytes
elements = codes "abcdefghijklmnopqrstuvwxyz0123456789ABCDEFGHIJKLMNOPQRSTUVWXYZ"

-- One identifier from the values that `rand` gives for it.
unfoldable pub id_of : List ℕ → Bytes
id_of = map (λ r. get_or elements (r % 62) 0)

-- The do-while loop of `create`: identifiers are drawn until one is new. `none` where the draws end.
pub draw_id : ℕ → List (List ℕ) → Sessions → Option (Bytes × Sessions)
unfolding find id_of
draw_id now [] s = none
draw_id now (d ∷ ds) s =
    let (taken, s') = find now (id_of d) s in
    let again = draw_id now ds s' in if taken then again else some (id_of d, s')

-- The new session, and the cell for its expiration time.
abbrev pub open_session : ℕ → Bytes → Sessions → Sessions
open_session now sid s = record s {
  sessions = insert sid [] s.sessions;
  cells = write_cell s.cells s.next_cell (now + s.session_life_time);
  next_cell = s.next_cell + 1;
}

pub add_session : ℕ → Bytes → Sessions → Sessions
unfolding set_attribute
add_session now sid s = set_attribute sid session_expiration s.next_cell (open_session now sid s)

-- Expired sessions are looked for once in a minute at most.
pub expire_each_minute : ℕ → Sessions → Sessions
unfolding remove_expired_session
expire_each_minute now s =
    if ltb (s.last_expiration_search_time + 60) now
    then record (remove_expired_session now s) { last_expiration_search_time = now }
    else s

-- `create` with the values of `rand`, one list for each identifier that is drawn.
unfoldable pub create : ℕ → List (List ℕ) → Sessions → Option (Bytes × Sessions)
unfolding draw_id add_session expire_each_minute
create now draws s = elim (draw_id now draws s) [
  | none ↦ none
  | some (sid, s') ↦ some (sid, expire_each_minute now (add_session now sid s'))
]
