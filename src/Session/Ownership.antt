-- ===== src/Session/Ownership.antt =====
-- The owner of a pointer in the sessions (include/libnavajo/HttpSession.hh): what is held, what was
-- released, and what a call hands over.
use libnavajo.Base.{
  ℕ, ◌+◌, ◌<◌, ◌≡◌, refl, ap, ◌∙◌, inl, inr, Bool, true, false, ◌&&◌, List, [], ◌∷◌, Option, none,
  some, Bytes, Bool-cases, Option-cases, arith, lookup, insert, erase, bytes_order, erase-IsSorted,
  lookup-erase_self, lookup-insert_self, if◌then◌else◌, ltb, ◌==◌, total, weight, total-insert,
  total-erase,
}
use libnavajo.Session.Release.{
  Kind, basic, object, SessionAttribute, Attributes, Released, release_attribute, release,
  release_all,
}
use libnavajo.Session.{
  Sessions, SessionMap, create, draw_id, add_session, open_session, is_session, expire_each_minute,
  remove_expired_session, live_sessions, released_sessions, release_sessions, is_live,
  remove_all_session, remove, remove_found, put, put_if, set_attribute, set_object_attribute,
  remove_attribute, remove_attribute_of, session_expiration, has_session,
}
use libnavajo.Session.Touching.{
  Touches, has_session-Touches, update_expiration-Touches, no_expiration-Touches, find-Touches,
  draw_id-Touches,
}
use libnavajo.Session.WellFormed.{
  IsWellFormed, open_session-IsWellFormed, touched-IsWellFormed, lookup-IsSorted,
}
use libnavajo.Session.Calls.{
  Call, sets_life_time, creates, finds, updates, expires_never, removes, expires, removes_all, sets,
  sets_object, removes_attribute, created, step,
}

-- Is this the pointer `p`, of kind `k`?
abbrev same_kind : Kind → Kind → Bool
same_kind basic basic = true
same_kind object object = true
same_kind _ _ = false

abbrev one_of : Bool → ℕ
one_of true = 1
one_of false = 0

module _ (k : Kind) (p : ℕ) where
  abbrev pub is_pointer : SessionAttribute → ℕ
  is_pointer a = one_of (same_kind k a.kind && a.ptr == p)

  -- How often the sessions hold it.
  abbrev pub held : SessionMap → ℕ
  held = total (total is_pointer)

  -- How often it was released.
  abbrev pub freed : Released → ℕ
  freed [] = 0
  freed ((j, q) ∷ r) = one_of (same_kind k j && q == p) + freed r

  abbrev pub balance : Sessions → ℕ
  balance s = held s.sessions + freed s.released

  module _ (pos : 0 < p) where
    freed-release_attribute :
        (a : SessionAttribute) (r : Released)
        → freed (release_attribute a r) ≡ is_pointer a + freed r
    unfolding release_attribute
    freed-release_attribute a r = ground arith

    freed-release :
        (o : Option SessionAttribute) (r : Released)
        → freed (release o r) ≡ weight is_pointer o + freed r
    unfolding release
    freed-release none r = omega arith
    freed-release (some a) r = freed-release_attribute a r

    freed-release_all :
        (m : Attributes) (r : Released) → freed (release_all m r) ≡ total is_pointer m + freed r
    unfolding release_all
    freed-release_all [] r = omega arith
    freed-release_all ((name, a) ∷ m) r =
        omega (arith, freed-release_all m (release_attribute a r), freed-release_attribute a r)

    freed-release_sessions :
        (ss : SessionMap) (r : Released) → freed (release_sessions ss r) ≡ held ss + freed r
    unfolding release_sessions
    freed-release_sessions [] r = omega arith
    freed-release_sessions ((sid, m) ∷ ss) r =
        omega (arith, freed-release_sessions ss (release_all m r), freed-release_all m r)

    -- A purge takes the pointers of the sessions that it drops.
    purge-balance :
        (cells : ℕ → ℕ) (now : ℕ) (ss : SessionMap) (r : Released)
        → held (live_sessions cells now ss) + freed (released_sessions cells now ss r)
          ≡ held ss + freed r
    unfolding live_sessions released_sessions
    purge-balance cells now [] r = refl
    purge-balance cells now ((sid, m) ∷ ss) r = elim (Bool-cases (is_live cells now m)) [
      | inl live ↦
          rw (live, live_sessions, released_sessions) (omega (arith, purge-balance cells now ss r))
      | inr dead ↦
          rw (dead, live_sessions, released_sessions)
            (omega (arith, purge-balance cells now ss (release_all m r), freed-release_all m r))
    ]

    put_if-balance :
        (sid name : Bytes) (a : SessionAttribute) (o : Option Attributes) (s : Sessions)
        → lookup sid s.sessions ≡ o
        → IsWellFormed s
        → balance (put_if sid name a o s)
          ≡ balance s + (elim o [ none ↦ 0 | some m ↦ is_pointer a ])
    unfolding put_if put
    put_if-balance sid name a none s e w = omega arith
    put_if-balance sid name a (some m) s e w =
        let sorted = lookup-IsSorted sid s.sessions w.all_sorted e in
        omega (
          arith,
          total-insert (total is_pointer) sid (insert name a (erase name m)) s.sessions w.sorted,
          total-insert is_pointer name a (erase name m) (erase-IsSorted name m sorted),
          total-erase is_pointer name m sorted,
          ap (weight is_pointer) (lookup-erase_self name m),
          ap (weight (total is_pointer)) e,
          freed-release (lookup name m) s.released,
        )

    remove_attribute_of-balance :
        (sid name : Bytes) (o : Option Attributes) (s : Sessions)
        → lookup sid s.sessions ≡ o
        → IsWellFormed s
        → balance (remove_attribute_of sid name o s) ≡ balance s
    unfolding remove_attribute_of
    remove_attribute_of-balance sid name none s e w = refl
    remove_attribute_of-balance sid name (some m) s e w = omega (
      arith,
      total-insert (total is_pointer) sid (erase name m) s.sessions w.sorted,
      total-erase is_pointer name m (lookup-IsSorted sid s.sessions w.all_sorted e),
      ap (weight (total is_pointer)) e,
      freed-release (lookup name m) s.released,
    )

    remove_found-balance :
        (sid : Bytes) (o : Option Attributes) (s : Sessions)
        → lookup sid s.sessions ≡ o
        → IsWellFormed s
        → balance (remove_found sid o s) ≡ balance s
    unfolding remove_found
    remove_found-balance sid none s e w = refl
    remove_found-balance sid (some m) s e w = omega (
      arith,
      total-erase (total is_pointer) sid s.sessions w.sorted,
      ap (weight (total is_pointer)) e,
      freed-release_all m s.released,
    )

    expire_each_minute-balance :
        (now : ℕ) (s : Sessions) → balance (expire_each_minute now s) ≡ balance s
    unfolding expire_each_minute remove_expired_session
    expire_each_minute-balance now s =
        elim (Bool-cases (ltb (s.last_expiration_search_time + 60) now)) [
          | inl due ↦ rw (due, expire_each_minute) (purge-balance s.cells now s.sessions s.released)
          | inr not_due ↦ rw (not_due, expire_each_minute)
        ]

    touched-balance : (s s' : Sessions) → Touches s s' → balance s' ≡ balance s
    touched-balance s s' t = omega (arith, ap held t.sessions_eq, ap freed t.released_eq)

    -- A new session holds the cell of its expiration time.
    add_session-balance :
        (now : ℕ) (sid : Bytes) (s : Sessions)
        → has_session sid s ≡ false
        → IsWellFormed s
        → balance (add_session now sid s)
          ≡ balance s + is_pointer (record { kind = basic; ptr = s.next_cell })
    unfolding add_session set_attribute has_session is_session
    add_session-balance now sid s new w =
        rw (lookup-insert_self sid [] s.sessions, add_session, set_attribute)
          (omega (
            arith,
            put_if-balance sid session_expiration (record { kind = basic; ptr = s.next_cell })
                (some []) (open_session now sid s) (lookup-insert_self sid [] s.sessions)
                (open_session-IsWellFormed now sid s w),
            total-insert (total is_pointer) sid [] s.sessions w.sorted,
            ap (weight (total is_pointer)) (lookup-none (lookup sid s.sessions) new),
          ))
      where
        lookup-none : (o : Option Attributes) → is_session o ≡ false → o ≡ none
        lookup-none none h = refl
        lookup-none (some m) h = cc

    created-balance :
        (now : ℕ) (draws : List (List ℕ)) (s : Sessions)
        → IsWellFormed s
        → balance (created s (create now draws s))
          ≡ balance s + (elim (draw_id now draws s) [
            | none ↦ 0
            | some r ↦ is_pointer (record { kind = basic; ptr = s.next_cell })
          ])
    unfolding created create
    created-balance now draws s w = elim (Option-cases (draw_id now draws s)) [
      | inl ends ↦ rw (ends, create, created) (omega arith)
      | inr (r, found) ↦
          let (t, new) = draw_id-Touches now draws s found in
          rw (found, create, created)
            (omega (
              arith,
              expire_each_minute-balance now (add_session now r.0 r.1),
              add_session-balance now r.0 r.1 (rw (has_session-Touches r.0 s r.1 t) new)
                  (touched-IsWellFormed s r.1 t w),
              touched-balance s r.1 t,
              ap (λ q. is_pointer (record { kind = basic; ptr = q })) t.next_eq,
            ))
    ]

  -- What a call hands over: the value of an attribute, if the session exists, or the cell of a new
  -- session.
  abbrev pub handed : Sessions → Call → ℕ
  handed s (sets sid name v) =
      if has_session sid s then is_pointer (record { kind = basic; ptr = v }) else 0
  handed s (sets_object sid name v) =
      if has_session sid s then is_pointer (record { kind = object; ptr = v }) else 0
  handed s (creates now draws) = elim (draw_id now draws s) [
    | none ↦ 0
    | some r ↦ is_pointer (record { kind = basic; ptr = s.next_cell })
  ]
  handed s _ = 0

  put_if-handed :
      (sid : Bytes) (s : Sessions) (n : ℕ)
      → (elim (lookup sid s.sessions) [ none ↦ 0 | some m ↦ n ])
        ≡ (if has_session sid s then n else 0)
  unfolding has_session is_session
  put_if-handed sid s n = ground arith

  -- Every call keeps the account of each pointer that is not null: the times that the sessions hold it
  -- and the times that it was released grow together by what the call hands over, so a pointer that is
  -- dropped is released, once and in its way, and one that is held is not.
  pub step-balance :
      (s : Sessions) (c : Call)
      → IsWellFormed s
      → 0 < p
      → balance (step s c) ≡ balance s + handed s c
  unfolding step set_attribute set_object_attribute remove_attribute remove remove_all_session
      remove_expired_session
  step-balance s (sets_life_time sec) w pos = omega arith
  step-balance s (creates now draws) w pos = created-balance pos now draws s w
  step-balance s (finds now sid) w pos =
      omega (arith, touched-balance pos s _ (find-Touches now sid s))
  step-balance s (updates now sid) w pos =
      omega (arith, touched-balance pos s _ (update_expiration-Touches now sid s))
  step-balance s (expires_never sid) w pos =
      omega (arith, touched-balance pos s _ (no_expiration-Touches sid s))
  step-balance s (removes sid) w pos =
      omega (arith, remove_found-balance pos sid (lookup sid s.sessions) s refl w)
  step-balance s (expires now) w pos =
      omega (arith, purge-balance pos s.cells now s.sessions s.released)
  step-balance s removes_all w pos = omega (arith, freed-release_sessions pos s.sessions s.released)
  step-balance s (sets sid name v) w pos =
      put_if-balance pos sid name _ _ s refl w ∙ ap (λ n. balance s + n) (put_if-handed sid s _)
  step-balance s (sets_object sid name v) w pos =
      put_if-balance pos sid name _ _ s refl w ∙ ap (λ n. balance s + n) (put_if-handed sid s _)
  step-balance s (removes_attribute sid name) w pos =
      omega (arith, remove_attribute_of-balance pos sid name (lookup sid s.sessions) s refl w)
