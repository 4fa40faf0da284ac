-- ===== src/Session/Release.antt =====
-- The attributes of a session and their release (include/libnavajo/HttpSession.hh).
use libnavajo.Base.{
  ℕ, Bool, true, false, List, [], ◌∷◌, Option, none, some, ◌==◌, if◌then◌else◌, Bytes,
}

pub data Kind : Type 0 where
  basic object : Kind

abbrev pub is_object : Kind → Bool
is_object basic = false
is_object object = true

-- A pointer is its address, and 0 is NULL; `ptr` and `obj` are one union.
pub record SessionAttribute : Type 0 where
  pub kind : Kind
  pub ptr : ℕ

abbrev pub Attributes : Type 0
Attributes = List (Bytes × SessionAttribute)

-- Pointers that were handed to `delete` (object) or to `free` (basic).
abbrev pub Released : Type 0
Released = List (Kind × ℕ)

-- A pointer that is not null is released as its type says.
unfoldable pub release_attribute : SessionAttribute → Released → Released
release_attribute a r = if a.ptr == 0 then r else (a.kind, a.ptr) ∷ r

unfoldable pub release : Option SessionAttribute → Released → Released
unfolding release_attribute
release none r = r
release (some a) r = release_attribute a r

-- `removeAllAttribute`
unfoldable pub release_all : Attributes → Released → Released
unfolding release_attribute
release_all [] r = r
release_all ((name, a) ∷ m) r = release_all m (release_attribute a r)
