-- ===== src/Session/Calls.antt =====
-- The calls that change the sessions, as data, and their effect.
use libnavajo.Base.{ℕ, List, [], ◌∷◌, Option, none, some, Bytes}
use libnavajo.Session.{
  Sessions, set_session_life_time, create, find, update_expiration, no_expiration,
  remove_expired_session, remove_all_session, remove, set_attribute, set_object_attribute,
  remove_attribute,
}

pub data Call : Type 0 where
  sets_life_time : ℕ → Call
  creates : ℕ → List (List ℕ) → Call
  finds updates : ℕ → Bytes → Call
  expires_never removes : Bytes → Call
  expires : ℕ → Call
  removes_all : Call
  sets sets_object : Bytes → Bytes → ℕ → Call
  removes_attribute : Bytes → Bytes → Call

-- Where the draws of `create` end, nothing is kept of it.
unfoldable pub created : Sessions → Option (Bytes × Sessions) → Sessions
created s none = s
created s (some (sid, s')) = s'

unfoldable pub step : Sessions → Call → Sessions
unfolding created
step s (sets_life_time sec) = set_session_life_time sec s
step s (creates now draws) = created s (create now draws s)
step s (finds now sid) = (find now sid s).1
step s (updates now sid) = update_expiration now sid s
step s (expires_never sid) = no_expiration sid s
step s (removes sid) = remove sid s
step s (expires now) = remove_expired_session now s
step s removes_all = remove_all_session s
step s (sets sid name v) = set_attribute sid name v s
step s (sets_object sid name v) = set_object_attribute sid name v s
step s (removes_attribute sid name) = remove_attribute sid name s

unfoldable pub run : Sessions → List Call → Sessions
unfolding step
run s [] = s
run s (c ∷ cs) = run (step s c) cs
