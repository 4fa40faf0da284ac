-- ===== src/Session/Tests.antt =====
-- Runs of the session manager, and the theorems at inputs.
use libnavajo.Base.{
  List, ◌≢◌, ◌≡◌, ◌+◌, ◌&&◌, refl, true, false, [], ◌∷◌, some, none, codes, arith, lookup, erase,
  bytes_lt, equiv, bytes_order, ltb, if◌then◌else◌,
}
use libnavajo.Session.Release.{basic, object, release_attribute, release_all}
use libnavajo.Session.{
  Sessions, initial, session_expiration, find, no_expiration, remove_expired_session, live_sessions,
  is_live, remove, remove_found, set_attribute, set_object_attribute, get_attribute,
  get_object_attribute, has_session, is_session, attribute_of, of_kind, id_of,
}
use libnavajo.Session.Calls.{creates, Call, run, removes, sets, step}
use libnavajo.Session.WellFormed.{IsWellFormed}
use libnavajo.Session.Ownership.{held, freed, balance, handed, step-balance}
use libnavajo.Session.Expiry.{find-purged}
use libnavajo.Session.Runs.{handed_all, run-held}
use libnavajo.Session.Lookup.{get_attribute-set_attribute}

-- One session "s", whose expiration time 500 is in cell 1, with an object at address 9.
abbrev one : Sessions
one = record initial {
  sessions =
      (
        codes "s",
        (codes "o", record { kind = object; ptr = 9 })
            ∷ (session_expiration, record { kind = basic; ptr = 1 })
            ∷ [],
      )
      ∷ [];
  cells = λ p. 500;
  next_cell = 2;
}

one-IsWellFormed : IsWellFormed one
unfolding bytes_lt
one-IsWellFormed = record { sorted = tt; all_sorted = ((refl, tt), tt) }

removed : (remove (codes "s") one).released ≡ (basic, 1) ∷ (object, 9) ∷ []
unfolding remove remove_found release_all release_attribute lookup erase equiv bytes_lt
removed = refl

purged : (remove_expired_session 500 one).sessions ≡ []
unfolding remove_expired_session live_sessions is_live lookup equiv bytes_lt
purged = refl

drawn : id_of (0 ∷ 61 ∷ 62 ∷ []) ≡ codes "aZa"
unfolding id_of
drawn = refl

step-balance_example :
    balance object 9 (step one (removes (codes "s")))
    ≡ balance object 9 one + handed object 9 one (removes (codes "s"))
step-balance_example =
    step-balance object 9 one (removes (codes "s")) one-IsWellFormed (omega arith)

known : get_attribute (codes "s") session_expiration one ≡ 1
unfolding get_attribute attribute_of of_kind lookup equiv bytes_lt
known = refl

known_not_null : get_attribute (codes "s") session_expiration one ≢ 0
known_not_null h = ground (arith, known, h)

find-purged_example :
    ((find 400 (codes "s") one).0 ≡ true)
    × (has_session (codes "s") (remove_expired_session 499 (find 400 (codes "s") one).1)
        ≡ ltb 499 (400 + one.session_life_time))
    × (has_session (codes "s") (remove_expired_session 499 (no_expiration (codes "s") one)) ≡ false)
find-purged_example = find-purged 400 499 (codes "s") one one-IsWellFormed known_not_null

one-has_session : has_session (codes "s") one ≡ true
unfolding has_session is_session lookup equiv bytes_lt
one-has_session = refl

get_attribute-set_attribute_example :
    (get_attribute (codes "s") (codes "n") (set_attribute (codes "s") (codes "n") 5 one) ≡ (
      if equiv (codes "s") (codes "s") && equiv (codes "n") (codes "n")
      then 5
      else get_attribute (codes "s") (codes "n") one))
    × (get_object_attribute (codes "s") (codes "n") (set_attribute (codes "s") (codes "n") 5 one)
        ≡ (if equiv (codes "s") (codes "s") && equiv (codes "n") (codes "n")
            then 0
            else get_object_attribute (codes "s") (codes "n") one))
    × (get_object_attribute
          (codes "s")
          (codes "n")
          (set_object_attribute (codes "s") (codes "n") 5 one)
        ≡ (if equiv (codes "s") (codes "s") && equiv (codes "n") (codes "n")
            then 5
            else get_object_attribute (codes "s") (codes "n") one))
    × (get_attribute (codes "s") (codes "n") (set_object_attribute (codes "s") (codes "n") 5 one)
        ≡ (if equiv (codes "s") (codes "s") && equiv (codes "n") (codes "n")
            then 0
            else get_attribute (codes "s") (codes "n") one))
get_attribute-set_attribute_example =
    get_attribute-set_attribute (codes "s") (codes "n") 5 (codes "s") (codes "n") one
      one-has_session

-- A session is created, given a value, and removed.
abbrev calls : List Call
calls = creates 5 ((0 ∷ []) ∷ []) ∷ sets (codes "a") (codes "n") 7 ∷ removes (codes "a") ∷ []

run-held_example :
    held basic 7 (run initial calls).sessions + freed basic 7 (run initial calls).released
    ≡ handed_all basic 7 initial calls
run-held_example = run-held basic 7 calls (omega arith)

all_released : (run initial calls).released ≡ (basic, 1) ∷ (basic, 7) ∷ []
unfolding run remove lookup set_attribute libnavajo.Session.create has_session libnavajo.Base.insert
    equiv bytes_lt release_all erase libnavajo.Session.Release.release
all_released = refl
