-- ===== src/Session/Touching.antt =====
-- The calls of `HttpSession` (include/libnavajo/HttpSession.hh) that write to expiration times.
use libnavajo.Base.{
  ℕ, ◌≡◌, refl, sym, ap, subst, eq_of_some, ◌∙◌, inl, inr, false, List, [], ◌∷◌, some, Bytes,
  Bool-cases, arith,
}
use libnavajo.Session.{
  Sessions, find, update_expiration, no_expiration, draw_id, has_session, id_of,
}

pub record Touches (s s' : Sessions) : Type 0 where
  pub sessions_eq : s'.sessions ≡ s.sessions
  pub released_eq : s'.released ≡ s.released
  pub next_eq : s'.next_cell ≡ s.next_cell

pub update_expiration-Touches :
    (now : ℕ) (sid : Bytes) (s : Sessions) → Touches s (update_expiration now sid s)
unfolding update_expiration
update_expiration-Touches now sid s = ground arith

pub no_expiration-Touches : (sid : Bytes) (s : Sessions) → Touches s (no_expiration sid s)
unfolding no_expiration
no_expiration-Touches sid s = ground arith

pub find-Touches : (now : ℕ) (sid : Bytes) (s : Sessions) → Touches s (find now sid s).1
unfolding find
find-Touches now sid s = ground (arith, update_expiration-Touches now sid s)

find-has_session : (now : ℕ) (sid : Bytes) (s : Sessions) → (find now sid s).0 ≡ has_session sid s
unfolding find
find-has_session now sid s = ground arith

pub has_session-Touches :
    (sid : Bytes) (s s' : Sessions) → Touches s s' → has_session sid s' ≡ has_session sid s
unfolding has_session
has_session-Touches sid s s' t = rw t.sessions_eq refl

Touches-trans : (s t u : Sessions) → Touches s t → Touches t u → Touches s u
Touches-trans s t u a b = record {
  sessions_eq = b.sessions_eq ∙ a.sessions_eq;
  released_eq = b.released_eq ∙ a.released_eq;
  next_eq = b.next_eq ∙ a.next_eq;
}

-- An identifier that `create` draws is new, and drawing only touches.
pub draw_id-Touches :
    (now : ℕ) (draws : List (List ℕ)) (s : Sessions) {sid : Bytes} {s' : Sessions}
    → draw_id now draws s ≡ some (sid, s')
    → Touches s s' × (has_session sid s ≡ false)
unfolding draw_id
draw_id-Touches now [] s e = cc
draw_id-Touches now (d ∷ ds) s {sid} {s'} e = elim (Bool-cases (find now (id_of d) s).0) [
  | inl taken ↦
      let (t, new) = draw_id-Touches now ds (find now (id_of d) s).1 (rw (taken, draw_id) at e) in
      let t' = find-Touches now (id_of d) s in
      (
        Touches-trans s (find now (id_of d) s).1 s' t' t,
        sym (has_session-Touches sid s (find now (id_of d) s).1 t') ∙ new,
      )
  | inr free ↦
      let p = eq_of_some (rw (free, draw_id) at e) in
      (
        subst (Touches s) (ap (λ x. x.1) p) (find-Touches now (id_of d) s),
        subst (λ x. has_session x s ≡ false) (ap (λ x. x.0) p)
            (sym (find-has_session now (id_of d) s) ∙ free),
      )
]
