-- ===== src/Limiter/Keys.antt =====
-- Each key has its own bucket, and a call never meets a missing key.
use serwebs.Prelude.{
  ℕ, ◌-◌, ◌*◌, String, ◌≡◌, ◌⊎◌, inl, inr, Option-cases, refl, Bool, false, none, some, arith, leb,
  ◌==◌, eq_refl, if◌then◌else◌,
}
use serwebs.Dict.{get, put, has, get-put}
use serwebs.Limiter.{Limiter, new, enter, refill, refill_and_spend, allow}

-- The two dictionaries have the same keys.
abbrev pub IsTracked : Limiter → Type 0
IsTracked l = (k : String) → has k l.tokens ≡ has k l.last

-- The bucket of `key` as the next call at `now` finds it: the held tokens and when it was filled.
abbrev pub bucket : Limiter → String → ℕ → ℕ × ℕ
bucket l key now = elim (get key l.tokens) [
  | none ↦ (l.burst * l.second, now)
  | some held ↦ elim (get key l.last) [ none ↦ (held, now) | some seen ↦ (held, seen) ]
]

-- What the bucket holds once it is refilled, and what a call leaves of that.
abbrev pub filled : Limiter → ℕ → ℕ × ℕ → ℕ
filled l now (held, seen) = refill l held (now - seen)

abbrev pub left_of : Limiter → ℕ → ℕ
left_of l full = if leb l.second full then full - l.second else full

pub record Allowed (l : Limiter) (key : String) (now : ℕ) (r : Bool × Limiter) : Type 0 where
  pub passed : r.0 ≡ leb l.second (filled l now (bucket l key now))
  pub second : r.1.second ≡ l.second
  pub rate : r.1.rate ≡ l.rate
  pub burst : r.1.burst ≡ l.burst
  pub tokens :
      (k : String)
      → get k r.1.tokens
        ≡ (if key == k then some (left_of l (filled l now (bucket l key now))) else get k l.tokens)
  pub last : (k : String) → get k r.1.last ≡ (if key == k then some now else get k l.last)

tracked_cases :
    (l : Limiter) (key : String)
    → has key l.tokens ≡ has key l.last
    → ((get key l.tokens ≡ none) × (get key l.last ≡ none))
      ⊎ ((h : ℕ) × (s : ℕ) × (get key l.tokens ≡ some h) × (get key l.last ≡ some s))
tracked_cases l key t = elim (Option-cases (get key l.tokens)) [
  | inl e ↦ inl (e, ground arith)
  | inr (h, e) ↦ elim (Option-cases (get key l.last)) [
    | inl f ↦ ground arith
    | inr (s, f) ↦ inr (h, s, e, f)
  ]
]

enter_fresh :
    (l : Limiter) (key : String) (now : ℕ)
    → get key l.tokens ≡ none
    → enter l key now
      ≡ record l { tokens = put key (l.burst * l.second) l.tokens; last = put key now l.last }
unfolding enter
enter_fresh l key now e = rw e

enter_known :
    (l : Limiter) (key : String) (now h : ℕ) → get key l.tokens ≡ some h → enter l key now ≡ l
unfolding enter
enter_known l key now h e = rw e

spend-Allowed :
    (l : Limiter) (key : String) (now seen held : ℕ)
    → bucket l key now ≡ (held, seen)
    → (m : Limiter) → (m.second ≡ l.second)
    → (m.rate ≡ l.rate)
    → (m.burst ≡ l.burst)
    → ((k : String) → (key == k) ≡ false → get k m.tokens ≡ get k l.tokens)
    → ((k : String) → (key == k) ≡ false → get k m.last ≡ get k l.last)
    → Allowed l key now (refill_and_spend m key now seen held)
unfolding refill_and_spend
spend-Allowed l key now seen held b m e₁ e₂ e₃ ft fl = record {
  passed = ground arith;
  second = ground arith;
  rate = ground arith;
  burst = ground arith;
  tokens = λ k. ground (
    arith,
    ft k,
    get-put key k (refill m held (now - seen)) m.tokens,
    get-put key k (refill m held (now - seen) - m.second) m.tokens,
  );
  last = λ k. ground (arith, fl k, get-put key k now m.last);
}

-- From tracked buckets a call always answers.
pub allow-Allowed :
    (l : Limiter) (key : String) (now : ℕ)
    → has key l.tokens ≡ has key l.last
    → (r : Bool × Limiter) × (allow l key now ≡ some r) × Allowed l key now r
unfolding allow
allow-Allowed l key now t = elim (tracked_cases l key t) [
  | inl (e, f) ↦
      let m : Limiter = record l {
        tokens = put key (l.burst * l.second) l.tokens;
        last = put key now l.last;
      } in
      (
        refill_and_spend m key now now (l.burst * l.second),
        ground (
          arith,
          enter_fresh l key now e,
          get-put key key (l.burst * l.second) l.tokens,
          get-put key key now l.last,
          eq_refl key,
        ),
        spend-Allowed l key now now (l.burst * l.second) (ground arith) m refl refl refl
            (λ k q. ground (arith, get-put key k (l.burst * l.second) l.tokens))
            (λ k q. ground (arith, get-put key k now l.last)),
      )
  | inr (h, s, e, f) ↦ (
    refill_and_spend l key now s h,
    ground (arith, enter_known l key now h e),
    spend-Allowed l key now s h (ground arith) l refl refl refl (λ k q. refl) (λ k q. refl),
  )
]

-- Where both dictionaries have the same keys, a call on any key answers, and they still have the
-- same keys: no call ever meets a KeyError.
pub allow-IsTracked :
    (l : Limiter) (key : String) (now : ℕ)
    → IsTracked l
    → (r : Bool × Limiter) × (allow l key now ≡ some r) × IsTracked r.1
allow-IsTracked l key now t =
    let (r, e, a) = allow-Allowed l key now (t key) in
    (r, e, λ k. ground (arith, a.tokens k, a.last k, t k))

new-IsTracked : (second rate burst : ℕ) → IsTracked (new second rate burst)
unfolding new get
new-IsTracked second rate burst k = refl
