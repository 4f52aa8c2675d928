-- ===== src/Jwks/Fresh.antt =====
-- Which keys a token of the provider is checked with.
use serwebs.Prelude.{
  ℕ, ◌-◌, ◌<◌, ◌≡◌, refl, ap, subst, String, true, false, not, ◌&&◌, Option, some, List, [], ◌∷◌,
  ◌++◌, is_some, ◌⊎◌, inl, inr, arith, Option-cases, Bool-cases, if◌then◌else◌,
}
use serwebs.Roles.{User}
use serwebs.Auth.{AuthConfig, Services, OidcClaims}
use serwebs.Identity.{has_key, oidc_user, validate_oidc_token}
use serwebs.Jwks.{
  Keys, Answer, failed, empty_object, loaded, Cache, new, ttl, request, is_cached, fetch_jwks,
  validate, Check, run,
}

-- Keys that the provider gave, with the time.
abbrev pub Load : Type 0
Load = ℕ × Keys

abbrev pub loaded_by : ℕ → Answer → List Load
loaded_by now failed = []
loaded_by now empty_object = []
loaded_by now (loaded keys) = (now, keys) ∷ []

-- What a check loads: nothing if it does not ask.
unfoldable pub load : AuthConfig → Services → Cache → Check → List Load
load cfg svc c k =
    if (cfg.oidc.enabled && is_some (svc.kid_of k.token)) && not (is_cached c k.now)
    then loaded_by k.now k.answer
    else []

unfoldable pub loads : AuthConfig → Services → Cache → List Check → List Load
loads cfg svc c [] = []
loads cfg svc c (k ∷ ks) =
    load cfg svc c k ++ loads cfg svc (validate cfg svc c k.now k.answer k.token).1 ks

abbrev pub IsIn : Load → List Load → Type 0
IsIn l [] = ⊥
IsIn l (m ∷ ms) = (m ≡ l) ⊎ IsIn l ms

IsIn-left : (l : Load) (xs ys : List Load) → IsIn l xs → IsIn l (xs ++ ys)
IsIn-left l [] ys h = absurd h
IsIn-left l (x ∷ xs) ys (inl e) = inl e
IsIn-left l (x ∷ xs) ys (inr h) = inr (IsIn-left l xs ys h)

IsIn-right : (l : Load) (xs ys : List Load) → IsIn l ys → IsIn l (xs ++ ys)
IsIn-right l [] ys h = h
IsIn-right l (x ∷ xs) ys h = inr (IsIn-right l xs ys h)

-- The cache holds keys that were loaded.
abbrev IsLoaded : Cache → (Load → Type 0) → Type 0
IsLoaded c Was = (keys : Keys) → c.jwks ≡ some keys → Was (c.time, keys)

-- Keys that were loaded within the last hour, or where the provider does not answer now.
abbrev pub AreGood : (Load → Type 0) → ℕ → Answer → Keys → Type 0
AreGood Was now answer keys = (t : ℕ) × ((Was (t, keys)) × ((now - t < ttl) ⊎ (answer ≡ failed)))

module _ (c : Cache) (Was : Load → Type 0) (h : IsLoaded c Was) (now : ℕ) where
  abbrev Now : Answer → Load → Type 0
  Now answer l = Was l ⊎ IsIn l (if not (is_cached c now) then loaded_by now answer else [])

  request-IsLoaded :
      (answer : Answer) → is_cached c now ≡ false → IsLoaded (request c now answer).1 (Now answer)
  unfolding request
  request-IsLoaded failed n keys e = inl (h keys e)
  request-IsLoaded empty_object n keys e = ground (arith, e)
  request-IsLoaded (loaded ks) n keys e =
      let same : ks ≡ keys = ground (arith, e) in inr (rw n (inl (ap (λ x. (now, x)) same)))

  fetch-IsLoaded : (answer : Answer) → IsLoaded (fetch_jwks c now answer).1 (Now answer)
  unfolding fetch_jwks
  fetch-IsLoaded answer = elim (Bool-cases (is_cached c now)) [
    | inl e ↦ rw (fetch_jwks, e) (λ keys f. inl (h keys f))
    | inr e ↦
        subst (λ x. IsLoaded x (Now answer)) {x = (request c now answer).1}
          (rw (fetch_jwks, e) refl) (request-IsLoaded answer e)
  ]

  cached_lem : is_cached c now ≡ true → now - c.time < ttl
  unfolding is_cached
  cached_lem e = ground (arith, e)

  request-AreGood :
      (answer : Answer) (keys : Keys)
      → is_cached c now ≡ false
      → (request c now answer).0 ≡ some keys
      → (keys ≡ []) ⊎ AreGood (Now answer) now answer keys
  unfolding request
  request-AreGood failed keys n e = inr (c.time, (inl (h keys e), inr refl))
  request-AreGood empty_object keys n e = inl (ground (arith, e))
  request-AreGood (loaded ks) keys n e =
      let same : ks ≡ keys = ground (arith, e) in
      inr (now, (inr (rw n (inl (ap (λ x. (now, x)) same))), inl (omega arith)))

  fetch-AreGood :
      (answer : Answer) (keys : Keys)
      → (fetch_jwks c now answer).0 ≡ some keys
      → (keys ≡ []) ⊎ AreGood (Now answer) now answer keys
  unfolding fetch_jwks
  fetch-AreGood answer keys f = elim (Bool-cases (is_cached c now)) [
    | inl e ↦ inr (c.time, (inl (h keys (ground (arith, e, f))), inl (cached_lem e)))
    | inr e ↦ request-AreGood answer keys e (ground (arith, e, f))
  ]

module _ (cfg : AuthConfig) (svc : Services) where
  drop_empty : {P : Type 0} → ⊥ ⊎ P → P
  drop_empty (inl x) = absurd x
  drop_empty (inr p) = p

  validate-IsLoaded :
      (c : Cache) (Was : Load → Type 0) (k : Check)
      → IsLoaded c Was
      → IsLoaded
          (validate cfg svc c k.now k.answer k.token).1
          (λ l. Was l ⊎ IsIn l (load cfg svc c k))
  unfolding validate load
  validate-IsLoaded c Was k h =
      elim (Bool-cases (cfg.oidc.enabled && is_some (svc.kid_of k.token))) [
        | inl e ↦ rw e (fetch-IsLoaded c Was h k.now k.answer)
        | inr e ↦ rw e (λ keys f. inl (h keys f))
      ]

  run-IsLoaded :
      (c : Cache) (Was : Load → Type 0) (ks : List Check)
      → IsLoaded c Was
      → IsLoaded (run cfg svc c ks) (λ l. Was l ⊎ IsIn l (loads cfg svc c ks))
  unfolding run loads
  run-IsLoaded c Was [] h keys e = inl (h keys e)
  run-IsLoaded c Was (k ∷ ks) h keys e =
      let c' : Cache = (validate cfg svc c k.now k.answer k.token).1 in
      let l : Load = ((run cfg svc c' ks).time, keys) in
      elim (run-IsLoaded c' (λ x. Was x ⊎ IsIn x (load cfg svc c k)) ks
        (validate-IsLoaded c Was k h) keys e) [
          | inl (inl was) ↦ inl was
          | inl (inr new_load) ↦ inr (IsIn-left l (load cfg svc c k) (loads cfg svc c' ks) new_load)
          | inr later ↦ inr (IsIn-right l (load cfg svc c k) (loads cfg svc c' ks) later)
        ]

  -- A token that was checked with one of good keys, and whose user is the one of its claims.
  pub record IsVerified (Was : Load → Type 0) (k : Check) (user : User) : Type 0 where
    pub kid : Option String
    pub keys : Keys
    pub payload : OidcClaims
    pub named : svc.kid_of k.token ≡ some kid
    pub known : has_key kid keys ≡ true
    pub good : AreGood Was k.now k.answer keys
    pub decoded : svc.decode_oidc kid k.token ≡ some payload
    pub same : user ≡ oidc_user cfg svc payload

  -- `has_key` finds nothing where there are no keys.
  not_empty :
      (P : Type 0) (kid : Option String) (keys : Keys)
      → has_key kid keys ≡ true
      → (keys ≡ []) ⊎ P
      → P
  not_empty P kid keys h (inl e) = unfold has_key in ground (arith, h, e)
  not_empty P kid keys h (inr p) = p

  validate-IsVerified :
      (c : Cache) (Was : Load → Type 0) (k : Check) (user : User)
      → IsLoaded c Was
      → (validate cfg svc c k.now k.answer k.token).0 ≡ some user
      → IsVerified (λ l. Was l ⊎ IsIn l (load cfg svc c k)) k user
  unfolding validate load validate_oidc_token
  validate-IsVerified c Was k user h e =
      elim (Bool-cases (cfg.oidc.enabled && is_some (svc.kid_of k.token))) [
        | inr off ↦ ground (arith, off, e)
        | inl on ↦ elim (Option-cases (svc.kid_of k.token)) [
          | inl n ↦ ground (arith, on, n)
          | inr (kid, n) ↦ elim (Option-cases (fetch_jwks c k.now k.answer).0) [
            | inl f ↦ ground (arith, on, n, f, e)
            | inr (keys, f) ↦ elim (Option-cases (svc.decode_oidc kid k.token)) [
              | inl g ↦ ground (arith, on, n, f, g, e)
              | inr (payload, g) ↦
                  let known : has_key kid keys ≡ true = ground (arith, on, n, f, g, e) in
                  record {
                    kid = kid;
                    keys = keys;
                    payload = payload;
                    named = n;
                    known = known;
                    good =
                        not_empty _ kid keys known
                          (rw on (fetch-AreGood c Was h k.now k.answer keys f));
                    decoded = g;
                    same = ground (arith, on, n, f, g, e, known);
                  }
            ]
          ]
        ]
      ]

  -- A token of the provider that is accepted, after any history of checks that started with an empty
  -- cache, names a key by its ID that is among keys the provider gave, at the last request for them
  -- or before: within the last hour, or at any time if the provider does not answer now; the token
  -- is verified with that key, and the user is the one of its claims.
  pub run-IsVerified :
      (ks : List Check) (k : Check) (user : User)
      → (validate cfg svc (run cfg svc new ks) k.now k.answer k.token).0 ≡ some user
      → IsVerified
          (λ l. IsIn l (loads cfg svc new ks) ⊎ IsIn l (load cfg svc (run cfg svc new ks) k))
          k
          user
  run-IsVerified ks k user e =
      validate-IsVerified (run cfg svc new ks) (λ l. IsIn l (loads cfg svc new ks)) k user
        (λ keys f. drop_empty (run-IsLoaded new (λ _. ⊥) ks (λ keys e. ground (arith, e)) keys f)) e
