-- ===== src/Limiter/Tests.antt =====
-- The limiter on concrete calls, and the theorems about it at concrete inputs.
use serwebs.Prelude.{ℕ, ◌+◌, ◌-◌, ◌*◌, ◌≤◌, String, ◌≡◌, refl, some, List, [], ◌∷◌, arith}
use serwebs.Dict.{get, put}
use serwebs.Limiter.{Limiter, new, enter, refill_and_spend, allow}
use serwebs.Limiter.Keys.{IsTracked}
use serwebs.Limiter.Bound.{admitted, admitted_bound}

-- Ten ticks to the second, two tokens a second, two in a full bucket.
abbrev idle : Limiter
idle = record { second = 10; rate = 2; burst = 2; tokens = []; last = [] }

abbrev used : Limiter
used = record idle { tokens = ("a", 0) ∷ []; last = ("a", 3) ∷ [] }

abbrev calls : List (String × ℕ)
calls = ("a", 0) ∷ ("a", 1) ∷ ("b", 2) ∷ ("a", 2) ∷ ("a", 3) ∷ ("a", 9) ∷ []

new_takes_rate : new 10 2 0 ≡ idle
unfolding new
new_takes_rate = refl

calls-admitted : admitted "a" idle calls ≡ some 3
unfolding admitted allow refill_and_spend enter get put
calls-admitted = refl

idle-IsTracked : IsTracked idle
unfolding get
idle-IsTracked k = refl

used-IsTracked : IsTracked used
unfolding get
used-IsTracked k = ground arith

admitted_bound_example :
    (n : ℕ) × (admitted "a" idle calls ≡ some n) × (n * 10 ≤ 2 * 10 + (9 - 0) * 2)
unfolding get
admitted_bound_example = admitted_bound "a" calls idle 0 9 idle-IsTracked refl (omega arith)
