-- ===== src/Limiter/Bound.antt =====
-- How many calls a bucket lets through.
use native.Mathlib.Nat.{le_refl}
use serwebs.Prelude.{
  ℕ, suc, ◌+◌, ◌-◌, ◌*◌, ◌≤◌, String, ◌≡◌, refl, ap, ap₂, Bool-cases, leb→le, le→leb, ◌∙◌, Bool,
  true, Option, none, some, List, [], ◌∷◌, arith, leb, ◌==◌, ◌&&◌, eq_iff, if◌then◌else◌, inl, inr,
}
use serwebs.Dict.{get}
use serwebs.Limiter.{Limiter, allow}
use serwebs.Limiter.Keys.{Allowed, IsTracked, bucket, filled, left_of, allow-Allowed}

-- The calls let through for `key` among the calls of all keys, each at its time.
unfoldable pub admitted : String → Limiter → List (String × ℕ) → Option ℕ
admitted key l [] = some 0
admitted key l ((j, now) ∷ calls) = elim (allow l j now) [
  | none ↦ none
  | some (passed, m) ↦ elim (admitted key m calls) [
    | none ↦ none
    | some n ↦ some (if j == key && passed then suc n else n)
  ]
]

-- The calls come in order, none before `from` and none after `until`.
abbrev pub InOrder : ℕ → ℕ → List (String × ℕ) → Type 0
InOrder from until [] = from ≤ until
InOrder from until ((j, now) ∷ calls) = (from ≤ now) × InOrder now until calls

InOrder-le : (from until : ℕ) (calls : List (String × ℕ)) → InOrder from until calls → from ≤ until
InOrder-le from until [] h = h
InOrder-le from until ((j, now) ∷ calls) h = omega (arith, InOrder-le now until calls h.1)

InOrder-mono :
    (from from' until : ℕ) (calls : List (String × ℕ))
    → from ≤ from'
    → InOrder from' until calls
    → InOrder from until calls
InOrder-mono from from' until [] p h = omega arith
InOrder-mono from from' until ((j, now) ∷ calls) p h = (omega arith, h.1)

known_bucket :
    (key j : String) (now held seen : ℕ) (l : Limiter)
    → (j == key) ≡ true
    → get key l.tokens ≡ some held
    → get key l.last ≡ some seen
    → bucket l j now ≡ (held, seen)
known_bucket key j now held seen l same e f =
    let p : j ≡ key = (eq_iff j key).0 same in rw p (ground arith)

new_bucket :
    (key j : String) (now : ℕ) (l : Limiter)
    → (j == key) ≡ true
    → get key l.tokens ≡ none
    → bucket l j now ≡ (l.burst * l.second, now)
new_bucket key j now l same e = let p : j ≡ key = (eq_iff j key).0 same in rw p (ground arith)

-- One call of the key: what it spends is covered by the bucket and the refill.
spend_step :
    (l : Limiter) (now until held seen n : ℕ)
    → seen ≤ now
    → now ≤ until
    → n * l.second ≤ left_of l (filled l now (held, seen)) + (until - now) * l.rate
    → (if leb l.second (filled l now (held, seen)) then suc n else n) * l.second
      ≤ held + (until - seen) * l.rate
spend_step l now until held seen n p q h = elim (Bool-cases (leb l.second full)) [
  | inl yes' ↦ rw yes' (omega (arith, split, bounds, (rw yes' at h), leb→le _ _ yes'))
  | inr no' ↦ rw no' (omega (arith, split, bounds, (rw no' at h)))
]
  where
    full : ℕ
    full = filled l now (held, seen)

    bounds : filled l now (held, seen) ≤ held + (now - seen) * l.rate
    bounds = omega arith

    split : (until - seen) * l.rate ≡ (until - now) * l.rate + (now - seen) * l.rate
    split =
        ap (λ (t : ℕ). t * l.rate)
          (let e : until - seen ≡ (until - now) + (now - seen) = omega arith in e)
        ∙ omega arith

-- The count of the calls after the first one gives the count of all.
admitted_step :
    (key j : String) (now : ℕ) (calls : List (String × ℕ)) (l : Limiter) (r : Bool × Limiter)
    (n : ℕ)
    → allow l j now ≡ some r
    → admitted key r.1 calls ≡ some n
    → admitted key l ((j, now) ∷ calls) ≡ some (if j == key && r.0 then suc n else n)
unfolding admitted
admitted_step key j now calls l r n e f = ground arith

-- A bound after the first call is a bound before it.
bound_step :
    (key j : String) (now until held seen n : ℕ) (l : Limiter) (r : Bool × Limiter)
    → Allowed l j now r
    → (j == key) ≡ true
    → bucket l j now ≡ (held, seen)
    → seen ≤ now
    → now ≤ until
    → n * r.1.second ≤ left_of l (filled l now (held, seen)) + (until - now) * r.1.rate
    → (if j == key && r.0 then suc n else n) * l.second ≤ held + (until - seen) * l.rate
bound_step key j now until held seen n l r a same b p q h =
    ground (arith, spend_step l now until held seen n p q)

-- From a bucket that is there, filled at `seen`.
admitted_known :
    (key : String) (calls : List (String × ℕ)) (l : Limiter) (until held seen : ℕ)
    → IsTracked l
    → get key l.tokens ≡ some held
    → get key l.last ≡ some seen
    → InOrder seen until calls
    → (n : ℕ) × (admitted key l calls ≡ some n) × (n * l.second ≤ held + (until - seen) * l.rate)
unfolding admitted
admitted_known key [] l until held seen t e f h = (0, refl, omega arith)
admitted_known key ((j, now) ∷ calls) l until held seen t e f h =
    let (r, q, a) = allow-Allowed l j now (t j) in
    let t' : IsTracked r.1 = λ k. ground (arith, a.tokens k, a.last k, t k) in
    elim (Bool-cases (j == key)) [
      | inl same ↦
          let (n, c, b) =
            admitted_known key calls r.1 until (left_of l (filled l now (held, seen))) now t'
              (ground (arith, a.tokens key, known_bucket key j now held seen l same e f))
              (ground (arith, a.last key)) h.1 in
          (
            _,
            admitted_step key j now calls l r n q c,
            bound_step key j now until held seen n l r a same
                (known_bucket key j now held seen l same e f) h.0 (InOrder-le now until calls h.1)
                b,
          )
      | inr other ↦
          let (n, c, b) =
            admitted_known key calls r.1 until held seen t' (ground (arith, a.tokens key))
              (ground (arith, a.last key)) (InOrder-mono seen now until calls h.0 h.1) in
          (_, admitted_step key j now calls l r n q c, ground (arith, a.second, a.rate))
    ]

widen :
    (x b now from until rate : ℕ)
    → from ≤ now
    → x ≤ b + (until - now) * rate
    → x ≤ b + (until - from) * rate
widen x b now from until rate p h =
    omega (arith, h, let m : (until - now) * rate ≤ (until - from) * rate = grind arith in m)

-- Of calls for any keys that come in order of time, all between `from` and `until`, a key that starts
-- without a bucket is let through at most `burst` times, plus `rate` times for each second between
-- `from` and `until`; `n` is the number of its calls let through, and every call gets an answer.
pub admitted_bound :
    (key : String) (calls : List (String × ℕ)) (l : Limiter) (from until : ℕ)
    → IsTracked l
    → get key l.tokens ≡ none
    → InOrder from until calls
    → (n : ℕ) × (admitted key l calls ≡ some n)
      × (n * l.second ≤ l.burst * l.second + (until - from) * l.rate)
unfolding admitted
admitted_bound key [] l from until t e h = (0, refl, omega arith)
admitted_bound key ((j, now) ∷ calls) l from until t e h =
    let (r, q, a) = allow-Allowed l j now (t j) in
    let t' : IsTracked r.1 = λ k. ground (arith, a.tokens k, a.last k, t k) in
    elim (Bool-cases (j == key)) [
      | inl same ↦
          let (n, c, b) =
            admitted_known key calls r.1 until (left_of l (filled l now (l.burst * l.second, now)))
              now t' (ground (arith, a.tokens key, new_bucket key j now l same e))
              (ground (arith, a.last key)) h.1 in
          (
            _,
            admitted_step key j now calls l r n q c,
            widen _ (l.burst * l.second) now from until l.rate h.0 (
                bound_step key j now until (l.burst * l.second) now n l r a same
                  (new_bucket key j now l same e) (le_refl now) (InOrder-le now until calls h.1) b),
          )
      | inr other ↦
          let (n, c, b) =
            admitted_bound key calls r.1 from until t' (ground (arith, a.tokens key))
              (InOrder-mono from now until calls h.0 h.1) in
          (_, admitted_step key j now calls l r n q c, ground (arith, a.second, a.rate, a.burst))
    ]

-- A second's worth of tokens after the bucket was last filled, a call on the key is let through
-- again, if a bucket can hold a token at all.
pub allow_after_wait :
    (l : Limiter) (key : String) (now held seen : ℕ)
    → IsTracked l
    → get key l.tokens ≡ some held
    → get key l.last ≡ some seen
    → 1 ≤ l.burst
    → l.second ≤ (now - seen) * l.rate
    → (m : Limiter) × (allow l key now ≡ some (true, m))
allow_after_wait l key now held seen t e f b w =
    let (r, q, a) = allow-Allowed l key now (t key) in
    (r.1, q ∙ ap some (ap₂ (λ b' m. (b', m)) (a.passed ∙ enough) refl))
  where
    known : bucket l key now ≡ (held, seen)
    known = ground arith

    full : l.second ≤ l.burst * l.second
    full = grind arith

    enough : leb l.second (filled l now (bucket l key now)) ≡ true
    enough = rw known (le→leb _ _ (omega (arith, w, full)))
