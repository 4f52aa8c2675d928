-- ===== src/Limiter.antt =====
-- `RateLimiter` of serwebs/utils.py: a token bucket for each key.
-- Times are whole ticks, `second` of them to a second, and are arguments; `rate` is a whole number
-- of tokens a second, as in the only call of the constructor. A bucket counts ticks-worth of
-- tokens, `second` to the token, so that the refill `elapsed * rate` is exact; the rounding of the
-- program's floats is not modelled. `none` is the KeyError of a missing key.
pub mod Bound
pub mod Keys
mod Tests
use serwebs.Prelude.{
  ℕ, ◌+◌, ◌-◌, ◌*◌, min, String, Bool, true, false, Option, none, some, List, [], ◌∷◌, ltb, leb,
  eqb, if◌then◌else◌,
}
use serwebs.Dict.{Dict, get, put, pop, has}

pub record Limiter : Type 0 where
  pub second : ℕ
  pub rate : ℕ
  pub burst : ℕ
  pub tokens : Dict ℕ
  pub last : Dict ℕ

-- `burst or int(rate)`
unfoldable pub new : ℕ → ℕ → ℕ → Limiter
new second rate burst = record {
  second = second;
  rate = rate;
  burst = if eqb burst 0 then rate else burst;
  tokens = [];
  last = [];
}

-- A key that is not there gets a full bucket.
unfoldable pub enter : Limiter → String → ℕ → Limiter
enter l key now =
    if has key l.tokens
    then l
    else record l { tokens = put key (l.burst * l.second) l.tokens; last = put key now l.last }

-- The refilled bucket, no fuller than `burst`.
abbrev pub refill : Limiter → ℕ → ℕ → ℕ
refill l held elapsed = min (l.burst * l.second) (held + elapsed * l.rate)

unfoldable pub spend : Limiter → String → ℕ → Bool × Limiter
spend l key held =
    if leb l.second held
    then (true, record l { tokens = put key (held - l.second) l.tokens })
    else (false, record l { tokens = put key held l.tokens })

-- The bucket is refilled and its clock set, and then a token is taken if there is one.
unfoldable pub refill_and_spend : Limiter → String → ℕ → ℕ → ℕ → Bool × Limiter
unfolding spend
refill_and_spend l key now seen held =
    spend (record l { last = put key now l.last }) key (refill l held (now - seen))

unfoldable pub allow : Limiter → String → ℕ → Option (Bool × Limiter)
allow l key now =
    let m = enter l key now in
    elim (get key m.last) [
      | none ↦ none
      | some seen ↦ elim (get key m.tokens) [
        | none ↦ none
        | some held ↦ some (refill_and_spend m key now seen held)
      ]
    ]

unfoldable pub remove : Limiter → String → Limiter
remove l key = record l { tokens = pop key l.tokens; last = pop key l.last }
