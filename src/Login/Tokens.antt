-- ===== src/Login/Tokens.antt =====
-- What the tokens are good for.
use serwebs.Prelude.{
  ℕ, ◌+◌, ◌*◌, ◌<◌, ◌⊎◌, ◌≡◌, ◌≢◌, refl, ap, subst, String, false, ◌==◌, Option, none, some, eq_iff,
  Bool-cases, Option-cases, inl, inr, arith,
}
use serwebs.Roles.{User}
use serwebs.Auth.{Result, ok, raised, AuthConfig, Services, authenticate_user}
use serwebs.Identity.{
  Request, validate_oidc_token, try_decode_any_token, token_user, get_current_user,
}
use serwebs.Login.{
  Reply, access_token, refused, login, oidc_exchange, Payload, Jwt, create_access_token,
  decode_token, services_at,
}

-- What the JWT library promises: a token is not empty, is decoded to its claims before it expires, and
-- is refused after that.
pub record IsJwt (jwt : Jwt) : Type 0 where
  pub not_empty : (p : Payload) → jwt.encode p ≢ ""
  pub alive : (now : ℕ) (p : Payload) → now < p.exp → jwt.decode now (jwt.encode p) ≡ some p
  pub expired : (now : ℕ) (p : Payload) → p.exp < now → jwt.decode now (jwt.encode p) ≡ none

Result-cases :
    (r : Result (Option User)) → (r ≡ raised) ⊎ ((r ≡ ok none) ⊎ ((u : User) × (r ≡ ok (some u))))
Result-cases raised = inl refl
Result-cases (ok none) = inr (inl refl)
Result-cases (ok (some u)) = inr (inr (u, refl))

abbrev token_in : Reply → String
token_in (access_token t) = t
token_in (refused n) = ""

not_token : (n : ℕ) (t : String) → ¬ (refused n ≡ access_token t)
not_token n t h = ground (arith, h)

module _ (cfg : AuthConfig) (svc : Services) (jwt : Jwt) (minutes now : ℕ)
    (is_jwt : IsJwt jwt) where
  -- Until its time is up, whatever else the request has.
  abbrev pub IsAccepted : String → User → Type 0
  IsAccepted token user =
      (later : ℕ)
      → later < now + minutes * 60
      → (request : Request) → request.bearer ≡ some token
      → get_current_user cfg (services_at jwt svc later) request ≡ ok (some user)

  -- After that it speaks for nobody, unless the keys of the provider say so.
  abbrev pub IsExpired : String → Type 0
  IsExpired token =
      (later : ℕ)
      → now + minutes * 60 < later
      → try_decode_any_token cfg (services_at jwt svc later) token
        ≡ ok (validate_oidc_token cfg svc token)

  abbrev pub IsGood : String → User → Type 0
  IsGood token user = IsAccepted token user × IsExpired token

  payload : User → Payload
  payload user = record { sub = user.username; role = user.role; exp = now + minutes * 60 }

  created : User → String
  unfolding create_access_token
  created user = create_access_token jwt minutes now user

  decode-created :
      (later : ℕ) (user : User)
      → later < now + minutes * 60
      → try_decode_any_token cfg (services_at jwt svc later) (created user) ≡ ok (some user)
  unfolding try_decode_any_token decode_token created payload
  decode-created later user h =
      rw (is_jwt.alive later (payload user) h, try_decode_any_token, decode_token)

  token-created :
      (later : ℕ) (user : User)
      → later < now + minutes * 60
      → token_user cfg (services_at jwt svc later) (some (created user)) ≡ ok (some user)
  unfolding token_user created payload
  token-created later user h =
      let full : (created user == "") ≡ false =
        ground (arith, is_jwt.not_empty (payload user), eq_iff (created user) "") in
      rw full (decode-created later user h)

  created-IsAccepted : (user : User) → IsAccepted (created user) user
  unfolding get_current_user
  created-IsAccepted user later soon request h =
      let found : token_user cfg (services_at jwt svc later) request.bearer ≡ ok (some user) =
        rw h (token-created later user soon) in
      rw (found, get_current_user)

  created-IsExpired : (user : User) → IsExpired (created user)
  unfolding try_decode_any_token decode_token created payload validate_oidc_token
  created-IsExpired user later h =
      rw (is_jwt.expired later (payload user) h, try_decode_any_token, decode_token)

  login-created :
      (username password token : String)
      → (login cfg svc jwt minutes now username password).0 ≡ access_token token
      → (user : User) × ((authenticate_user cfg svc username password ≡ ok (some user))
          × (created user ≡ token))
  unfolding login created
  login-created username password token h =
      elim (Result-cases (authenticate_user cfg svc username password)) [
        | inl e ↦ absurd (not_token 500 token (rw (e, login) at h))
        | inr (inl e) ↦ absurd (not_token 401 token (rw (e, login) at h))
        | inr (inr (user, e)) ↦ (user, (e, ap token_in (rw (e, login) at h)))
      ]

  exchange-created :
      (oidc_token token : String)
      → (oidc_exchange cfg svc jwt minutes now oidc_token).0 ≡ access_token token
      → (user : User) × ((validate_oidc_token cfg svc oidc_token ≡ some user)
          × (created user ≡ token))
  unfolding oidc_exchange created
  exchange-created oidc_token token h = elim (Bool-cases (oidc_token == "")) [
    | inl e ↦ absurd (not_token 400 token (rw e at h))
    | inr e ↦
        let h' = rw e at h in
        elim (Option-cases (validate_oidc_token cfg svc oidc_token)) [
          | inl v ↦ absurd (not_token 401 token (rw v at h'))
          | inr (user, v) ↦ (user, (v, ap token_in (rw v at h')))
        ]
  ]

  -- A token that a login gives makes any request that carries it as its bearer, until its minutes are
  -- over, one of exactly the user whom the name and the password gave; a token of the OIDC exchange,
  -- of the user whom the provider's token gave. After that, each counts for no more than what the
  -- provider's keys make of it.
  pub token-IsGood :
      (username password oidc_token token : String)
      → ((login cfg svc jwt minutes now username password).0 ≡ access_token token
          → (user : User) × ((authenticate_user cfg svc username password ≡ ok (some user))
              × IsGood token user))
        × ((oidc_exchange cfg svc jwt minutes now oidc_token).0 ≡ access_token token
            → (user : User) × ((validate_oidc_token cfg svc oidc_token ≡ some user)
                × IsGood token user))
  token-IsGood username password oidc_token token = (
    λ h.
        let (user, (found, same)) = login-created username password token h in
        (
          user,
          (
            found,
            subst (λ t. IsGood t user) same (created-IsAccepted user, created-IsExpired user),
          ),
        ),
    λ h.
        let (user, (found, same)) = exchange-created oidc_token token h in
        (
          user,
          (
            found,
            subst (λ t. IsGood t user) same (created-IsAccepted user, created-IsExpired user),
          ),
        ),
  )
