-- ===== src/Hooks/Tests.antt =====
-- Two sessions on one port, nested and overlapping.
use serwebs.Prelude.{◌≡◌, true, List, [], ◌∷◌, arith}
use serwebs.Hooks.{Tap, base, Event, enter, leave, run, receivers}
use serwebs.Hooks.Overlap.{overlap_loses}

abbrev quiet : Tap
quiet = record { current = base; original = λ _. base }

abbrev inside : List Event
inside = enter 2 "a" ∷ leave 2 ∷ []

-- Session 2 is still running and gets nothing.
overlap_loses_example :
    receivers (λ _. true) "a" (run quiet (enter 1 "a" ∷ enter 2 "a" ∷ leave 1 ∷ [])).current ≡ []
unfolding receivers
overlap_loses_example = (overlap_loses quiet 1 2 "a" "a" "a" (λ _. true) (omega arith)).0
