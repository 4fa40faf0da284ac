-- ===== src/Session/Expiry.antt =====
-- Which sessions a purge keeps, and what `create`, `find` and `noExpiration` do to that.
use libnavajo.Base.{
  ℕ, ◌+◌, ◌≡◌, ◌≢◌, refl, ap, ◌∙◌, inl, inr, Bool, true, false, not, ◌&&◌, [], ◌∷◌, Option, none,
  some, Bytes, Bool-cases, Option-cases, arith, lookup, equiv, bytes_order, IsSorted,
  RisesFrom-IsSorted, RisesFrom-lookup, RisesFrom-equiv, ltb, ◌==◌,
}
use libnavajo.Session.Release.{is_object, SessionAttribute, Attributes}
use libnavajo.Session.{
  Sessions, SessionMap, find, update_expiration, no_expiration, remove_expired_session,
  live_sessions, is_live, session_expiration, get_attribute, attribute_of, of_kind, has_session,
  is_session, write_cell,
}
use libnavajo.Session.WellFormed.{IsWellFormed}

abbrev keep_if : Bool → Option Attributes → Option Attributes
keep_if true o = o
keep_if false o = none

abbrev kept : (ℕ → ℕ) → ℕ → Option Attributes → Option Attributes
kept cells now none = none
kept cells now (some m) = keep_if (is_live cells now m) (some m)

lookup-live_sessions :
    (cells : ℕ → ℕ) (now : ℕ) (sid : Bytes) (ss : SessionMap)
    → IsSorted ss
    → lookup sid (live_sessions cells now ss) ≡ kept cells now (lookup sid ss)
unfolding live_sessions lookup
lookup-live_sessions cells now sid [] h = refl
lookup-live_sessions cells now sid ((i, m) ∷ ss) h = elim (Bool-cases (equiv sid i)) [
  | inl here ↦ ground (
    arith,
    lookup-live_sessions cells now sid ss (RisesFrom-IsSorted i ss h),
    RisesFrom-lookup sid ss (RisesFrom-equiv sid i ss here h),
  )
  | inr there ↦ ground (arith, lookup-live_sessions cells now sid ss (RisesFrom-IsSorted i ss h))
]

has_session-remove_expired_session :
    (now : ℕ) (sid : Bytes) (s : Sessions)
    → IsWellFormed s
    → has_session sid (remove_expired_session now s)
      ≡ (elim (lookup sid s.sessions) [ none ↦ false | some m ↦ is_live s.cells now m ])
unfolding has_session remove_expired_session is_session
has_session-remove_expired_session now sid s w =
    ground (arith, lookup-live_sessions s.cells now sid s.sessions w.sorted)

-- What an expiration time that is not null says of the attributes of the session.
record Expires (sid : Bytes) (s : Sessions) (p : ℕ) : Type 0 where
  attributes : Attributes
  found : lookup sid s.sessions ≡ some attributes
  attribute : SessionAttribute
  is_set : lookup session_expiration attributes ≡ some attribute
  is_p : attribute.ptr ≡ p

get_attribute-Expires :
    (sid : Bytes) (s : Sessions)
    → get_attribute sid session_expiration s ≢ 0
    → Expires sid s (get_attribute sid session_expiration s)
unfolding get_attribute attribute_of of_kind
get_attribute-Expires sid s p = elim (Option-cases (lookup sid s.sessions)) [
  | inl absent ↦ absurd (p (rw absent refl))
  | inr (m, e) ↦ elim (Option-cases (lookup session_expiration m)) [
    | inl none' ↦ absurd (p (rw (e, none') refl))
    | inr (a, f) ↦ elim (Bool-cases (is_object a.kind)) [
      | inl obj ↦ absurd (p (rw (e, f, obj) refl))
      | inr bas ↦ record {
        attributes = m;
        found = e;
        attribute = a;
        is_set = f;
        is_p = rw (e, f, bas) refl;
      }
    ]
  ]
]

-- After the time `v` was written for the session, a purge keeps it exactly if `v` is later than now
-- and not zero.
purge-written :
    (now v : ℕ) (sid : Bytes) (s : Sessions)
    → IsWellFormed s
    → get_attribute sid session_expiration s ≢ 0
    → has_session sid (
        remove_expired_session now
          (record s { cells = write_cell s.cells (get_attribute sid session_expiration s) v }))
      ≡ not (v == 0) && ltb now v
unfolding is_live
purge-written now v sid s w p =
    let x = get_attribute-Expires sid s p in
    has_session-remove_expired_session now sid _
      (record { sorted = w.sorted; all_sorted = w.all_sorted })
    ∙ rw (x.found, x.is_set, is_live) (ground (arith, x.is_p))

abbrev written : ℕ → Bytes → Sessions → Sessions
written v sid s = record s { cells = write_cell s.cells (get_attribute sid session_expiration s) v }

update_expiration-written :
    (now : ℕ) (sid : Bytes) (s : Sessions)
    → get_attribute sid session_expiration s ≢ 0
    → update_expiration now sid s ≡ written (now + s.session_life_time) sid s
unfolding update_expiration
update_expiration-written now sid s p = ground arith

no_expiration-written :
    (sid : Bytes) (s : Sessions)
    → get_attribute sid session_expiration s ≢ 0
    → no_expiration sid s ≡ written 0 sid s
unfolding no_expiration
no_expiration-written sid s p = ground arith

-- A session with an expiration time is found; a purge after that keeps it exactly if it comes before the
-- time of the `find` and the life time of sessions together, and a purge after `noExpiration` drops it,
-- whatever the time.
pub find-purged :
    (now later : ℕ) (sid : Bytes) (s : Sessions)
    → IsWellFormed s
    → get_attribute sid session_expiration s ≢ 0
    → ((find now sid s).0 ≡ true)
      × (has_session sid (remove_expired_session later (find now sid s).1)
          ≡ ltb later (now + s.session_life_time))
      × (has_session sid (remove_expired_session later (no_expiration sid s)) ≡ false)
unfolding find has_session
find-purged now later sid s w p =
    let x = get_attribute-Expires sid s p in
    let e : has_session sid s ≡ true = rw (x.found, has_session, is_session) refl in
    rw e (
      refl,
      ap (λ t. has_session sid (remove_expired_session later t))
            (update_expiration-written now sid s p)
          ∙ purge-written later (now + s.session_life_time) sid s w p
          ∙ ground arith,
      ap (λ t. has_session sid (remove_expired_session later t)) (no_expiration-written sid s p)
          ∙ purge-written later 0 sid s w p,
    )
