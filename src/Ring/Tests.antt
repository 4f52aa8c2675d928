-- ===== src/Ring/Tests.antt =====
-- The buffer on concrete bytes, and the theorems about it at concrete inputs.
use serwebs.Prelude.{◌≡◌, refl, List, [], ◌∷◌, arith, last}
use serwebs.Ring.{Ring, new, place, append, read_all}
use serwebs.Ring.Bounds.{IsValid}
use serwebs.Ring.History.{Op, put, reset, run, stream, replay-run}

abbrev half_full : Ring
half_full = record { buf = 1 ∷ 2 ∷ 3 ∷ 0 ∷ []; capacity = 4; write_pos = 3; len = 3 }

half_full-IsValid : IsValid half_full
half_full-IsValid = omega arith

-- Three bytes go in, one at the end of the storage and two at its front.
wraps :
    append half_full (4 ∷ 5 ∷ 6 ∷ [])
    ≡ record half_full { buf = 5 ∷ 6 ∷ 3 ∷ 4 ∷ []; write_pos = 2; len = 4 }
unfolding append place
wraps = refl

reads_in_order : read_all (append half_full (4 ∷ 5 ∷ 6 ∷ [])) ≡ 3 ∷ 4 ∷ 5 ∷ 6 ∷ []
unfolding append read_all place
reads_in_order = refl

keeps_the_tail : read_all (append half_full (4 ∷ 5 ∷ 6 ∷ 7 ∷ 8 ∷ [])) ≡ 5 ∷ 6 ∷ 7 ∷ 8 ∷ []
unfolding append read_all place
keeps_the_tail = refl

abbrev history : List Op
history = put (9 ∷ []) ∷ reset ∷ put (1 ∷ 2 ∷ []) ∷ put (3 ∷ 4 ∷ 5 ∷ []) ∷ []

replay-run_example : read_all (run (new 4) history) ≡ last 4 (stream [] history)
replay-run_example = replay-run 4 history
