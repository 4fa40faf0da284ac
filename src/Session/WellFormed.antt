-- ===== src/Session/WellFormed.antt =====
-- The order of the keys in the maps of `HttpSession` (include/libnavajo/HttpSession.hh).
use libnavajo.Base.{
  ℕ, ◌+◌, ◌≡◌, refl, sym, subst, eq_of_some, inl, inr, List, [], ◌∷◌, Option, none, some, Bytes,
  Bool-cases, Option-cases, arith, lookup, insert, erase, equiv, bytes_order, IsSorted, RisesFrom,
  RisesFrom-IsSorted, RisesFrom-mono, insert-IsSorted, erase-IsSorted, ltb,
}
use libnavajo.Session.Release.{SessionAttribute, Attributes}
use libnavajo.Session.{
  Sessions, SessionMap, create, draw_id, add_session, open_session, expire_each_minute,
  remove_expired_session, live_sessions, is_live, remove_all_session, remove, remove_found, put,
  put_if, set_attribute, set_object_attribute, remove_attribute, remove_attribute_of,
  session_expiration,
}
use libnavajo.Session.Touching.{
  Touches, update_expiration-Touches, no_expiration-Touches, find-Touches, draw_id-Touches,
}
use libnavajo.Session.Calls.{
  Call, sets_life_time, creates, finds, updates, expires_never, removes, expires, removes_all, sets,
  sets_object, removes_attribute, created, step,
}

abbrev pub AllSorted : SessionMap → Type 0
AllSorted [] = Unit
AllSorted ((sid, m) ∷ rest) = IsSorted m × AllSorted rest

pub record IsWellFormed (s : Sessions) : Type 0 where
  pub sorted : IsSorted s.sessions
  pub all_sorted : AllSorted s.sessions

pub lookup-IsSorted :
    (sid : Bytes) (ss : SessionMap) {m : Attributes}
    → AllSorted ss
    → lookup sid ss ≡ some m
    → IsSorted m
unfolding lookup
lookup-IsSorted sid [] h e = cc
lookup-IsSorted sid ((i, n) ∷ ss) {m} h e = elim (Bool-cases (equiv sid i)) [
  | inl here ↦ subst IsSorted (eq_of_some (rw (here, lookup) at e)) h.0
  | inr there ↦ lookup-IsSorted sid ss h.1 (rw (there, lookup) at e)
]

insert-AllSorted :
    (sid : Bytes) (m : Attributes) (ss : SessionMap)
    → IsSorted m
    → AllSorted ss
    → AllSorted (insert sid m ss)
unfolding insert
insert-AllSorted sid m [] k h = (k, tt)
insert-AllSorted sid m ((i, n) ∷ ss) k h = ground (arith, insert-AllSorted sid m ss k h.1)

erase-AllSorted : (sid : Bytes) (ss : SessionMap) → AllSorted ss → AllSorted (erase sid ss)
unfolding erase
erase-AllSorted sid [] h = tt
erase-AllSorted sid ((i, n) ∷ ss) h = ground (arith, erase-AllSorted sid ss h.1)

live-RisesFrom :
    (cells : ℕ → ℕ) (now : ℕ) (i : Bytes) (ss : SessionMap)
    → RisesFrom i ss
    → RisesFrom i (live_sessions cells now ss)
unfolding live_sessions
live-RisesFrom cells now i [] h = tt
live-RisesFrom cells now i ((j, m) ∷ ss) h =
    ground (
      arith,
      live-RisesFrom cells now j ss h.1,
      RisesFrom-mono i j (live_sessions cells now ss) h.0,
    )

live-IsSorted :
    (cells : ℕ → ℕ) (now : ℕ) (ss : SessionMap)
    → IsSorted ss
    → IsSorted (live_sessions cells now ss)
unfolding live_sessions
live-IsSorted cells now [] h = tt
live-IsSorted cells now ((j, m) ∷ ss) h = elim (Bool-cases (is_live cells now m)) [
  | inl live ↦ rw (live, live_sessions) (live-RisesFrom cells now j ss h)
  | inr dead ↦ rw (dead, live_sessions) (live-IsSorted cells now ss (RisesFrom-IsSorted j ss h))
]

live-AllSorted :
    (cells : ℕ → ℕ) (now : ℕ) (ss : SessionMap)
    → AllSorted ss
    → AllSorted (live_sessions cells now ss)
unfolding live_sessions
live-AllSorted cells now [] h = tt
live-AllSorted cells now ((j, m) ∷ ss) h = ground (arith, live-AllSorted cells now ss h.1)

put_if-IsWellFormed :
    (sid name : Bytes) (a : SessionAttribute) (o : Option Attributes) (s : Sessions)
    → lookup sid s.sessions ≡ o
    → IsWellFormed s
    → IsWellFormed (put_if sid name a o s)
unfolding put_if put
put_if-IsWellFormed sid name a none s e w = w
put_if-IsWellFormed sid name a (some m) s e w = record {
  sorted = insert-IsSorted sid _ s.sessions w.sorted;
  all_sorted =
      insert-AllSorted sid _ s.sessions
        (insert-IsSorted name a _
          (erase-IsSorted name m (lookup-IsSorted sid s.sessions w.all_sorted e)))
        w.all_sorted;
}

pub touched-IsWellFormed : (s s' : Sessions) → Touches s s' → IsWellFormed s → IsWellFormed s'
touched-IsWellFormed s s' t w = record {
  sorted = subst IsSorted (sym t.sessions_eq) w.sorted;
  all_sorted = subst AllSorted (sym t.sessions_eq) w.all_sorted;
}

remove_attribute_of-IsWellFormed :
    (sid name : Bytes) (o : Option Attributes) (s : Sessions)
    → lookup sid s.sessions ≡ o
    → IsWellFormed s
    → IsWellFormed (remove_attribute_of sid name o s)
unfolding remove_attribute_of
remove_attribute_of-IsWellFormed sid name none s e w = w
remove_attribute_of-IsWellFormed sid name (some m) s e w = record {
  sorted = insert-IsSorted sid _ s.sessions w.sorted;
  all_sorted =
      insert-AllSorted sid _ s.sessions
        (erase-IsSorted name m (lookup-IsSorted sid s.sessions w.all_sorted e)) w.all_sorted;
}

remove_found-IsWellFormed :
    (sid : Bytes) (o : Option Attributes) (s : Sessions)
    → IsWellFormed s
    → IsWellFormed (remove_found sid o s)
unfolding remove_found
remove_found-IsWellFormed sid none s w = w
remove_found-IsWellFormed sid (some m) s w = record {
  sorted = erase-IsSorted sid s.sessions w.sorted;
  all_sorted = erase-AllSorted sid s.sessions w.all_sorted;
}

remove_expired-IsWellFormed :
    (now : ℕ) (s : Sessions) → IsWellFormed s → IsWellFormed (remove_expired_session now s)
unfolding remove_expired_session
remove_expired-IsWellFormed now s w = record {
  sorted = live-IsSorted s.cells now s.sessions w.sorted;
  all_sorted = live-AllSorted s.cells now s.sessions w.all_sorted;
}

expire_each_minute-IsWellFormed :
    (now : ℕ) (s : Sessions) → IsWellFormed s → IsWellFormed (expire_each_minute now s)
unfolding expire_each_minute
expire_each_minute-IsWellFormed now s w =
    elim (Bool-cases (ltb (s.last_expiration_search_time + 60) now)) [
      | inl due ↦
          let w' = remove_expired-IsWellFormed now s w in
          rw (due, expire_each_minute) (record { sorted = w'.sorted; all_sorted = w'.all_sorted })
      | inr not_due ↦ rw (not_due, expire_each_minute) w
    ]

pub open_session-IsWellFormed :
    (now : ℕ) (sid : Bytes) (s : Sessions) → IsWellFormed s → IsWellFormed (open_session now sid s)
open_session-IsWellFormed now sid s w = record {
  sorted = insert-IsSorted sid [] s.sessions w.sorted;
  all_sorted = insert-AllSorted sid [] s.sessions tt w.all_sorted;
}

pub add_session-IsWellFormed :
    (now : ℕ) (sid : Bytes) (s : Sessions) → IsWellFormed s → IsWellFormed (add_session now sid s)
unfolding add_session set_attribute
add_session-IsWellFormed now sid s w =
    put_if-IsWellFormed sid session_expiration _ _ _ refl (open_session-IsWellFormed now sid s w)

created-IsWellFormed :
    (now : ℕ) (draws : List (List ℕ)) (s : Sessions)
    → IsWellFormed s
    → IsWellFormed (created s (create now draws s))
unfolding created create
created-IsWellFormed now draws s w = elim (Option-cases (draw_id now draws s)) [
  | inl ends ↦ rw (ends, create, created) w
  | inr (r, found) ↦
      rw (found, create, created)
        (expire_each_minute-IsWellFormed now _ (
          add_session-IsWellFormed now r.0 r.1
            (touched-IsWellFormed s r.1 (draw_id-Touches now draws s found).0 w)))
]

-- Every call keeps the sessions a map of maps.
pub step-IsWellFormed : (s : Sessions) (c : Call) → IsWellFormed s → IsWellFormed (step s c)
unfolding step set_attribute set_object_attribute remove_attribute remove remove_all_session
step-IsWellFormed s (sets_life_time sec) w = record { sorted = w.sorted; all_sorted = w.all_sorted }
step-IsWellFormed s (creates now draws) w = created-IsWellFormed now draws s w
step-IsWellFormed s (finds now sid) w = touched-IsWellFormed s _ (find-Touches now sid s) w
step-IsWellFormed s (updates now sid) w =
    touched-IsWellFormed s _ (update_expiration-Touches now sid s) w
step-IsWellFormed s (expires_never sid) w = touched-IsWellFormed s _ (no_expiration-Touches sid s) w
step-IsWellFormed s (removes sid) w = remove_found-IsWellFormed sid (lookup sid s.sessions) s w
step-IsWellFormed s (expires now) w = remove_expired-IsWellFormed now s w
step-IsWellFormed s removes_all w = record { sorted = tt; all_sorted = tt }
step-IsWellFormed s (sets sid name v) w = put_if-IsWellFormed sid name _ _ s refl w
step-IsWellFormed s (sets_object sid name v) w = put_if-IsWellFormed sid name _ _ s refl w
step-IsWellFormed s (removes_attribute sid name) w =
    remove_attribute_of-IsWellFormed sid name _ s refl w
