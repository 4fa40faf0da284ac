-- ===== src/Session/Runs.antt =====
-- Sequences of calls of the session manager (include/libnavajo/HttpSession.hh), from its start.
use libnavajo.Base.{ℕ, ◌+◌, ◌<◌, ◌≡◌, ap, ◌∙◌, List, [], ◌∷◌, arith}
use libnavajo.Session.Release.{Kind}
use libnavajo.Session.{Sessions, initial}
use libnavajo.Session.Calls.{Call, step, run}
use libnavajo.Session.WellFormed.{IsWellFormed, step-IsWellFormed}
use libnavajo.Session.Ownership.{held, freed, balance, handed, step-balance}

initial-IsWellFormed : IsWellFormed initial
initial-IsWellFormed = record { sorted = tt; all_sorted = tt }

run-IsWellFormed : (s : Sessions) (cs : List Call) → IsWellFormed s → IsWellFormed (run s cs)
unfolding run
run-IsWellFormed s [] w = w
run-IsWellFormed s (c ∷ cs) w = run-IsWellFormed (step s c) cs (step-IsWellFormed s c w)

module _ (k : Kind) (p : ℕ) where
  -- How often the calls hand over the pointer.
  abbrev pub handed_all : Sessions → List Call → ℕ
  handed_all s [] = 0
  handed_all s (c ∷ cs) = handed k p s c + handed_all (step s c) cs

  run-balance :
      (s : Sessions) (cs : List Call)
      → IsWellFormed s
      → 0 < p
      → balance k p (run s cs) ≡ balance k p s + handed_all s cs
  unfolding run
  run-balance s [] w pos = omega arith
  run-balance s (c ∷ cs) w pos =
      run-balance (step s c) cs (step-IsWellFormed s c w) pos
      ∙ ap (λ n. n + handed_all (step s c) cs) (step-balance k p s c w pos)
      ∙ omega arith

  -- After any calls from the start, a pointer that is not null is held by the sessions and was released
  -- together as often as it was handed over: one that was handed over once is held once and never
  -- released, or released once and held no more.
  pub run-held :
      (cs : List Call)
      → 0 < p
      → held k p (run initial cs).sessions + freed k p (run initial cs).released
        ≡ handed_all initial cs
  run-held cs pos = omega (arith, run-balance initial cs initial-IsWellFormed pos)
