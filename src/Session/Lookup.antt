-- ===== src/Session/Lookup.antt =====
-- Reading an attribute of a session after it was set (include/libnavajo/HttpSession.hh).
use libnavajo.Base.{
  ℕ, ◌≡◌, refl, ap, equiv_iff, false≢true, inl, inr, true, ◌&&◌, some, Bytes, Bool-cases,
  Option-cases, arith, lookup, insert, erase, equiv, bytes_order, lookup-insert, lookup-erase,
  if◌then◌else◌,
}
use libnavajo.Session.Release.{Kind, basic, object, SessionAttribute, Attributes}
use libnavajo.Session.{
  Sessions, put, put_if, set_attribute, set_object_attribute, get_attribute, get_object_attribute,
  attribute_of, of_kind, has_session, is_session,
}

-- The session that `find` on the map gives behind `setAttribute`.
lookup-put_if :
    (sid other name : Bytes) (a : SessionAttribute) (m : Attributes) (s : Sessions)
    → lookup sid s.sessions ≡ some m
    → lookup other (put_if sid name a (lookup sid s.sessions) s).sessions
      ≡ (if equiv other sid then some (insert name a (erase name m)) else lookup other s.sessions)
unfolding put_if put
lookup-put_if sid other name a m s e =
    rw (e, put_if, put) (lookup-insert sid other (insert name a (erase name m)) s.sessions)

lookup-replaced :
    (name asked : Bytes) (a : SessionAttribute) (m : Attributes)
    → lookup asked (insert name a (erase name m))
      ≡ (if equiv asked name then some a else lookup asked m)
lookup-replaced name asked a m =
    ground (arith, lookup-insert name asked a (erase name m), lookup-erase name asked m)

same-lookup :
    (sid other : Bytes) (s : Sessions)
    → equiv other sid ≡ true
    → lookup other s.sessions ≡ lookup sid s.sessions
same-lookup sid other s h = ap (λ x. lookup x s.sessions) ((equiv_iff other sid).0 h)

-- An attribute is read as it was set; under another name or in another session nothing changes.
attribute_of-put_if :
    (k : Kind) (sid name : Bytes) (a : SessionAttribute) (other asked : Bytes) (s : Sessions)
    → has_session sid s ≡ true
    → attribute_of k asked (lookup other (put_if sid name a (lookup sid s.sessions) s).sessions) ≡ (
        if equiv other sid && equiv asked name
        then of_kind k (some a)
        else attribute_of k asked (lookup other s.sessions))
unfolding attribute_of has_session is_session
attribute_of-put_if k sid name a other asked s h = elim (Option-cases (lookup sid s.sessions)) [
  | inl absent ↦ absurd (false≢true (rw absent at h))
  | inr (m, e) ↦ elim (Bool-cases (equiv other sid)) [
    | inr there ↦ rw (lookup-put_if sid other name a m s e, there) refl
    | inl here ↦
        rw
          (
            lookup-put_if sid other name a m s e,
            here,
            same-lookup sid other s here,
            e,
            lookup-replaced name asked a m,
          )
          (elim (Bool-cases (equiv asked name)) [ inl hit ↦ rw hit refl | inr miss ↦ rw miss refl ])
  ]
]

module _ (sid name : Bytes) (v : ℕ) (other asked : Bytes) (s : Sessions)
    (known : has_session sid s ≡ true) where
  -- A value that is set in a session is read back under its name, as its type says and not as the
  -- other type; under other names, and in other sessions, reading gives what it gave before.
  pub get_attribute-set_attribute :
      (get_attribute other asked (set_attribute sid name v s)
        ≡ (if equiv other sid && equiv asked name then v else get_attribute other asked s))
      × (get_object_attribute other asked (set_attribute sid name v s)
          ≡ (if equiv other sid && equiv asked name then 0 else get_object_attribute other asked s))
      × (get_object_attribute other asked (set_object_attribute sid name v s)
          ≡ (if equiv other sid && equiv asked name then v else get_object_attribute other asked s))
      × (get_attribute other asked (set_object_attribute sid name v s)
          ≡ (if equiv other sid && equiv asked name then 0 else get_attribute other asked s))
  unfolding get_attribute get_object_attribute set_attribute set_object_attribute of_kind
  get_attribute-set_attribute = (
    attribute_of-put_if basic sid name (record { kind = basic; ptr = v }) other asked s known,
    attribute_of-put_if object sid name (record { kind = basic; ptr = v }) other asked s known,
    attribute_of-put_if object sid name (record { kind = object; ptr = v }) other asked s known,
    attribute_of-put_if basic sid name (record { kind = object; ptr = v }) other asked s known,
  )
