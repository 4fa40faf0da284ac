-- ===== src/Request/Sid.antt =====
-- The session of a request (`HttpRequest::getSession`, include/libnavajo/HttpRequest.hh).
use libnavajo.Base.{
  ℕ, ◌≡◌, refl, inl, inr, not, ◌&&◌, Bool-cases, codes, ◌==◌, if◌then◌else◌, length, [],
}
use libnavajo.Session.{Sessions, find, has_session, update_expiration}
use libnavajo.Request.{HttpRequest, get_session, is_session_valid, get_cookie, or_empty}

-- A request has a session exactly if its SID cookie is not empty and names a session that is there;
-- the session then has the name of the cookie, and its expiration is put off as by `find`. Otherwise
-- the sessions stay as they are.
pub get_session-find :
    (now : ℕ) (s : Sessions) (r : HttpRequest)
    → let sid = or_empty (get_cookie (codes "SID") r) in
      let known = not (length sid == 0) && has_session sid s in
      let (s', r') = get_session now s r in
      (is_session_valid r' ≡ known)
      × (r'.session_id ≡ (if known then sid else []))
      × (s' ≡ (if known then update_expiration now sid s else s))
unfolding get_session find
get_session-find now s r =
    let sid = or_empty (get_cookie (codes "SID") r) in
    elim (Bool-cases (length sid == 0)) [
      | inl empty ↦ rw empty (refl, refl, refl)
      | inr named ↦ elim (Bool-cases (has_session sid s)) [
        | inl there ↦ rw (named, there) (rw named refl, refl, refl)
        | inr gone ↦ rw (named, gone) (refl, refl, refl)
      ]
    ]
