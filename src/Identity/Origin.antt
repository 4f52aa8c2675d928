-- ===== src/Identity/Origin.antt =====
-- What vouches for the user of a request.
use serwebs.Prelude.{
  ◌≡◌, refl, String, true, Option, none, some, List, inl, inr, Option-cases, arith,
}
use serwebs.Roles.{User}
use serwebs.Auth.{ok, AuthConfig, Services, Claims, OidcClaims}
use serwebs.Auth.Sources.{Source, authenticate-Source, result_cases}
use serwebs.Identity.{
  Request, has_key, oidc_user, validate_oidc_token, try_decode_any_token, extract_basic_auth,
  token_user, get_current_user,
}

module _ (cfg : AuthConfig) (svc : Services) where
  -- A token that says who the user is: one signed here, with name and role in its claims, or one of
  -- the enabled provider that is verified with a key of the provider.
  pub data FromToken (user : User) (token : String) : Type 0 where
    signed_here :
        (payload : Claims)
        → svc.decode_token token ≡ some payload
        → payload.sub ≡ some user.username
        → payload.role ≡ some user.role
        → FromToken user token
    signed_there :
        (kid : Option String) (keys : List (Option String)) (payload : OidcClaims)
        → cfg.oidc.enabled ≡ true
        → svc.provider_keys ≡ some keys
        → has_key kid keys ≡ true
        → svc.decode_oidc kid token ≡ some payload
        → user ≡ oidc_user cfg svc payload
        → FromToken user token

  pub data Origin (request : Request) (user : User) : Type 0 where
    bearer :
        (token : String) → request.bearer ≡ some token → FromToken user token → Origin request user
    query :
        (token : String)
        → request.query_token ≡ some token
        → FromToken user token
        → Origin request user
    basic :
        (username password : String)
        → request.basic ≡ some (username, password)
        → Source cfg svc username password user
        → Origin request user

  oidc-FromToken :
      (token : String) (user : User)
      → validate_oidc_token cfg svc token ≡ some user
      → FromToken user token
  unfolding validate_oidc_token
  oidc-FromToken token user h = elim (Option-cases (svc.kid_of token)) [
    | inl e ↦ ground (arith, e, h)
    | inr (kid, e) ↦ elim (Option-cases svc.provider_keys) [
      | inl f ↦ ground (arith, e, f, h)
      | inr (keys, f) ↦ elim (Option-cases (svc.decode_oidc kid token)) [
        | inl g ↦ ground (arith, e, f, g, h)
        | inr (payload, g) ↦
            signed_there kid keys payload (ground (arith, h)) f (ground (arith, e, f, h)) g
              (ground (arith, e, f, g, h))
      ]
    ]
  ]

  token-FromToken :
      (token : String) (user : User)
      → try_decode_any_token cfg svc token ≡ ok (some user)
      → FromToken user token
  unfolding try_decode_any_token
  token-FromToken token user h = elim (Option-cases (svc.decode_token token)) [
    | inl e ↦ oidc-FromToken token user (ground (arith, e, h))
    | inr (payload, e) ↦ elim (Option-cases payload.sub) [
      | inl f ↦ ground (arith, e, f, h)
      | inr (sub, f) ↦ elim (Option-cases payload.role) [
        | inl g ↦ ground (arith, e, f, g, h)
        | inr (role, g) ↦
            signed_here payload e (ground (arith, e, f, g, h)) (ground (arith, e, f, g, h))
      ]
    ]
  ]

  pub token_user-FromToken :
      (o : Option String) (user : User)
      → token_user cfg svc o ≡ ok (some user)
      → (token : String) × (o ≡ some token) × FromToken user token
  unfolding token_user
  token_user-FromToken none user h = ground (arith, h)
  token_user-FromToken (some token) user h =
      (token, refl, token-FromToken token user (ground (arith, h)))

  basic-Source :
      (o : Option (String × String)) (user : User)
      → extract_basic_auth cfg svc o ≡ some user
      → (username : String) × (password : String) × (o ≡ some (username, password))
        × Source cfg svc username password user
  unfolding extract_basic_auth
  basic-Source none user h = ground (arith, h)
  basic-Source (some (username, password)) user h = (
    username,
    password,
    refl,
    authenticate-Source cfg svc username password user (ground (arith, h)),
  )

  -- Whoever a request is taken to come from is vouched for by its bearer token, by its query token, or
  -- by name and password of its Basic header: a token signed here, a token of the enabled provider
  -- verified with one of its keys, or a source that accepts the password.
  pub get_current_user-Origin :
      (request : Request) (user : User)
      → get_current_user cfg svc request ≡ ok (some user)
      → Origin request user
  unfolding get_current_user
  get_current_user-Origin request user h = elim (result_cases (token_user cfg svc request.bearer)) [
    | inl e ↦ ground (arith, e, h)
    | inr (inr (u, e)) ↦
        let (token, f, t) = token_user-FromToken request.bearer user (ground (arith, e, h)) in
        bearer token f t
    | inr (inl e) ↦ elim (Option-cases (extract_basic_auth cfg svc request.basic)) [
      | inr (u, f) ↦
          let (n, p, g, s) = basic-Source request.basic user (ground (arith, e, f, h)) in
          basic n p g s
      | inl f ↦
          let (token, g, t) =
            token_user-FromToken request.query_token user (ground (arith, e, f, h)) in
          query token g t
    ]
  ]
